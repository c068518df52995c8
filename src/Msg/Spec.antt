-- ===== src/Msg/Spec.antt =====
-- l2tp/msg.go: which AVPs each message must and may hold. The map of a `msgSpec` is an association
-- list, since no two assignments of a function have one key.
use go_l2tp_debian.Prelude.{ℕ, Option, none, some, List, [], ◌∷◌, ◌==◌, if◌then◌else◌}
use go_l2tp_debian.Prelude.Result.{Result, ok, err, no_message_spec}
use go_l2tp_debian.Avp.Types.{
  avp_type_bearer_cap, avp_type_bearer_type, avp_type_call_serial_number, avp_type_called_number,
  avp_type_calling_number, avp_type_challenge, avp_type_challenge_response, avp_type_connect_speed,
  avp_type_firmware_revision, avp_type_framing_cap, avp_type_framing_type, avp_type_host_name,
  avp_type_initial_rcvd_lcp_confreq, avp_type_last_rcvd_lcp_confreq, avp_type_last_sent_lcp_confreq,
  avp_type_message, avp_type_message_digest, avp_type_physical_channel_id, avp_type_priv_group_id,
  avp_type_protocol_version, avp_type_proxy_auth_challenge, avp_type_proxy_auth_id,
  avp_type_proxy_auth_name, avp_type_proxy_auth_response, avp_type_proxy_auth_type,
  avp_type_q931_cause_code, avp_type_random_vector, avp_type_result_code, avp_type_rx_connect_speed,
  avp_type_rx_window_size, avp_type_sequencing_required, avp_type_session_id, avp_type_sub_address,
  avp_type_tiebreaker, avp_type_tunnel_id, avp_type_vendor_name,
}
use go_l2tp_debian.Avp.MsgTypes.{
  avp_msg_type_sccrq, avp_msg_type_sccrp, avp_msg_type_scccn, avp_msg_type_stopccn,
  avp_msg_type_hello, avp_msg_type_icrq, avp_msg_type_icrp, avp_msg_type_iccn, avp_msg_type_cdn,
}

pub data AvpSpec : Type 0 where
  must_exist may_exist : AvpSpec

abbrev pub MsgSpec : Type 0
MsgSpec = List (ℕ × AvpSpec)

unfoldable pub has_avp : MsgSpec → ℕ → Option AvpSpec
has_avp [] t = none
has_avp ((u, a) ∷ spec) t = if u == t then some a else has_avp spec t

abbrev pub v2_sccrq_msg_spec : MsgSpec
v2_sccrq_msg_spec =
    (avp_type_message, must_exist)
    ∷ (avp_type_protocol_version, must_exist)
    ∷ (avp_type_host_name, must_exist)
    ∷ (avp_type_framing_cap, must_exist)
    ∷ (avp_type_tunnel_id, must_exist)
    ∷ (avp_type_bearer_cap, may_exist)
    ∷ (avp_type_rx_window_size, may_exist)
    ∷ (avp_type_challenge, may_exist)
    ∷ (avp_type_tiebreaker, may_exist)
    ∷ (avp_type_firmware_revision, may_exist)
    ∷ (avp_type_vendor_name, may_exist)
    ∷ []

abbrev pub v2_sccrp_msg_spec : MsgSpec
v2_sccrp_msg_spec =
    (avp_type_message, must_exist)
    ∷ (avp_type_protocol_version, must_exist)
    ∷ (avp_type_framing_cap, must_exist)
    ∷ (avp_type_host_name, must_exist)
    ∷ (avp_type_tunnel_id, must_exist)
    ∷ (avp_type_bearer_cap, may_exist)
    ∷ (avp_type_rx_window_size, may_exist)
    ∷ (avp_type_challenge, may_exist)
    ∷ (avp_type_challenge_response, may_exist)
    ∷ (avp_type_tiebreaker, may_exist)
    ∷ (avp_type_firmware_revision, may_exist)
    ∷ (avp_type_vendor_name, may_exist)
    ∷ []

abbrev pub v2_scccn_msg_spec : MsgSpec
v2_scccn_msg_spec = (avp_type_message, must_exist) ∷ (avp_type_challenge_response, may_exist) ∷ []

abbrev pub v2_stopccn_msg_spec : MsgSpec
v2_stopccn_msg_spec =
    (avp_type_message, must_exist)
    ∷ (avp_type_tunnel_id, must_exist)
    ∷ (avp_type_result_code, must_exist)
    ∷ []

abbrev pub v2_hello_msg_spec : MsgSpec
v2_hello_msg_spec = (avp_type_message, must_exist) ∷ []

abbrev pub v2_icrq_msg_spec : MsgSpec
v2_icrq_msg_spec =
    (avp_type_message, must_exist)
    ∷ (avp_type_session_id, must_exist)
    ∷ (avp_type_call_serial_number, must_exist)
    ∷ (avp_type_bearer_type, may_exist)
    ∷ (avp_type_physical_channel_id, may_exist)
    ∷ (avp_type_calling_number, may_exist)
    ∷ (avp_type_called_number, may_exist)
    ∷ (avp_type_sub_address, may_exist)
    ∷ []

abbrev pub v2_icrp_msg_spec : MsgSpec
v2_icrp_msg_spec = (avp_type_message, must_exist) ∷ (avp_type_session_id, must_exist) ∷ []

abbrev pub v2_iccn_msg_spec : MsgSpec
v2_iccn_msg_spec =
    (avp_type_message, must_exist)
    ∷ (avp_type_connect_speed, must_exist)
    ∷ (avp_type_framing_type, must_exist)
    ∷ (avp_type_initial_rcvd_lcp_confreq, may_exist)
    ∷ (avp_type_last_sent_lcp_confreq, may_exist)
    ∷ (avp_type_last_rcvd_lcp_confreq, may_exist)
    ∷ (avp_type_proxy_auth_type, may_exist)
    ∷ (avp_type_proxy_auth_name, may_exist)
    ∷ (avp_type_proxy_auth_challenge, may_exist)
    ∷ (avp_type_proxy_auth_id, may_exist)
    ∷ (avp_type_proxy_auth_response, may_exist)
    ∷ (avp_type_priv_group_id, may_exist)
    ∷ (avp_type_rx_connect_speed, may_exist)
    ∷ (avp_type_sequencing_required, may_exist)
    ∷ []

abbrev pub v2_cdn_msg_spec : MsgSpec
v2_cdn_msg_spec =
    (avp_type_message, must_exist)
    ∷ (avp_type_result_code, must_exist)
    ∷ (avp_type_session_id, must_exist)
    ∷ (avp_type_q931_cause_code, may_exist)
    ∷ []

abbrev pub v3_hello_msg_spec : MsgSpec
v3_hello_msg_spec =
    (avp_type_message, must_exist)
    ∷ (avp_type_random_vector, may_exist)
    ∷ (avp_type_message_digest, may_exist)
    ∷ []

unfoldable pub get_v2_msg_spec : ℕ → Result MsgSpec
get_v2_msg_spec t =
    if t == avp_msg_type_sccrq
    then ok v2_sccrq_msg_spec
    else if t == avp_msg_type_sccrp
    then ok v2_sccrp_msg_spec
    else if t == avp_msg_type_scccn
    then ok v2_scccn_msg_spec
    else if t == avp_msg_type_stopccn
    then ok v2_stopccn_msg_spec
    else if t == avp_msg_type_hello
    then ok v2_hello_msg_spec
    else if t == avp_msg_type_icrq
    then ok v2_icrq_msg_spec
    else if t == avp_msg_type_icrp
    then ok v2_icrp_msg_spec
    else if t == avp_msg_type_iccn
    then ok v2_iccn_msg_spec
    else if t == avp_msg_type_cdn
    then ok v2_cdn_msg_spec
    else err no_message_spec

unfoldable pub get_v3_msg_spec : ℕ → Result MsgSpec
get_v3_msg_spec t = if t == avp_msg_type_hello then ok v3_hello_msg_spec else err no_message_spec
