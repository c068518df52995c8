-- ===== src/Avp/Info.antt =====
-- l2tp/avp.go: what is known of each AVP type, and its lookup.
use go_l2tp_debian.Prelude.{ℕ, Bool, true, false, ◌&&◌, List, [], ◌∷◌, ◌==◌, if◌then◌else◌}
use go_l2tp_debian.Prelude.Result.{Result, ok, err, unrecognised_avp_type}
use go_l2tp_debian.Avp.Types.{
  avp_type_message, avp_type_result_code, avp_type_protocol_version, avp_type_framing_cap,
  avp_type_bearer_cap, avp_type_tiebreaker, avp_type_firmware_revision, avp_type_host_name,
  avp_type_vendor_name, avp_type_tunnel_id, avp_type_rx_window_size, avp_type_challenge,
  avp_type_q931_cause_code, avp_type_challenge_response, avp_type_session_id,
  avp_type_call_serial_number, avp_type_minimum_bps, avp_type_maximum_bps, avp_type_bearer_type,
  avp_type_framing_type, avp_type_packet_proc_delay, avp_type_called_number,
  avp_type_calling_number, avp_type_sub_address, avp_type_connect_speed,
  avp_type_physical_channel_id, avp_type_initial_rcvd_lcp_confreq, avp_type_last_sent_lcp_confreq,
  avp_type_last_rcvd_lcp_confreq, avp_type_proxy_auth_type, avp_type_proxy_auth_name,
  avp_type_proxy_auth_challenge, avp_type_proxy_auth_id, avp_type_proxy_auth_response,
  avp_type_call_errors, avp_type_accm, avp_type_random_vector, avp_type_priv_group_id,
  avp_type_rx_connect_speed, avp_type_sequencing_required, avp_type_unused40, avp_type_unused41,
  avp_type_unused42, avp_type_unused43, avp_type_unused44, avp_type_unused45, avp_type_unused46,
  avp_type_unused47, avp_type_unused48, avp_type_unused49, avp_type_unused50, avp_type_unused51,
  avp_type_unused52, avp_type_unused53, avp_type_unused54, avp_type_unused55, avp_type_unused56,
  avp_type_unused57, avp_type_extended, avp_type_message_digest, avp_type_router_id,
  avp_type_assigned_conn_id, avp_type_pseudowire_caps, avp_type_local_session_id,
  avp_type_remote_session_id, avp_type_assigned_cookie, avp_type_remote_end_id, avp_type_unused67,
  avp_type_pseudowire_type, avp_type_l2_specific_sublayer, avp_type_data_sequencing,
  avp_type_circuit_status, avp_type_preferred_language, avp_type_control_auth_nonce,
  avp_type_tx_connect_speed_bps, avp_type_rx_connect_speed_bps,
}

-- `avpDataType`
pub data DataType : Type 0 where
  empty uint16 uint32 uint64 string bytes result_code msg_id unimplemented illegal max : DataType

-- `avpInfo`
pub record AvpInfo : Type 0 where
  pub avp_type : ℕ
  pub vendor_id : ℕ
  pub is_mandatory : Bool
  pub data_type : DataType

abbrev pub vendor_id_ietf : ℕ
vendor_id_ietf = 0

abbrev row : ℕ → Bool → DataType → AvpInfo
row t m d = record { avp_type = t; vendor_id = vendor_id_ietf; is_mandatory = m; data_type = d }

unfoldable pub avp_info_table : List AvpInfo
avp_info_table =
    row avp_type_message true msg_id
    ∷ row avp_type_result_code true result_code
    ∷ row avp_type_protocol_version false bytes
    ∷ row avp_type_framing_cap true uint32
    ∷ row avp_type_bearer_cap true uint32
    ∷ row avp_type_tiebreaker false bytes
    ∷ row avp_type_firmware_revision false uint16
    ∷ row avp_type_host_name true string
    ∷ row avp_type_vendor_name false string
    ∷ row avp_type_tunnel_id true uint16
    ∷ row avp_type_rx_window_size true uint16
    ∷ row avp_type_challenge true bytes
    ∷ row avp_type_q931_cause_code true unimplemented
    ∷ row avp_type_challenge_response true bytes
    ∷ row avp_type_session_id true uint16
    ∷ row avp_type_call_serial_number true uint32
    ∷ row avp_type_minimum_bps true uint32
    ∷ row avp_type_maximum_bps true uint32
    ∷ row avp_type_bearer_type true uint32
    ∷ row avp_type_framing_type true uint32
    ∷ row avp_type_packet_proc_delay false unimplemented
    ∷ row avp_type_called_number true string
    ∷ row avp_type_calling_number true string
    ∷ row avp_type_sub_address true string
    ∷ row avp_type_connect_speed true uint32
    ∷ row avp_type_physical_channel_id false uint32
    ∷ row avp_type_initial_rcvd_lcp_confreq false bytes
    ∷ row avp_type_last_sent_lcp_confreq false bytes
    ∷ row avp_type_last_rcvd_lcp_confreq false bytes
    ∷ row avp_type_proxy_auth_type false uint16
    ∷ row avp_type_proxy_auth_name false string
    ∷ row avp_type_proxy_auth_challenge false bytes
    ∷ row avp_type_proxy_auth_id false bytes
    ∷ row avp_type_proxy_auth_response false bytes
    ∷ row avp_type_call_errors true unimplemented
    ∷ row avp_type_accm true unimplemented
    ∷ row avp_type_random_vector true bytes
    ∷ row avp_type_priv_group_id false string
    ∷ row avp_type_rx_connect_speed false uint32
    ∷ row avp_type_sequencing_required true empty
    ∷ row avp_type_unused40 false illegal
    ∷ row avp_type_unused41 false illegal
    ∷ row avp_type_unused42 false illegal
    ∷ row avp_type_unused43 false illegal
    ∷ row avp_type_unused44 false illegal
    ∷ row avp_type_unused45 false illegal
    ∷ row avp_type_unused46 false illegal
    ∷ row avp_type_unused47 false illegal
    ∷ row avp_type_unused48 false illegal
    ∷ row avp_type_unused49 false illegal
    ∷ row avp_type_unused50 false illegal
    ∷ row avp_type_unused51 false illegal
    ∷ row avp_type_unused52 false illegal
    ∷ row avp_type_unused53 false illegal
    ∷ row avp_type_unused54 false illegal
    ∷ row avp_type_unused55 false illegal
    ∷ row avp_type_unused56 false illegal
    ∷ row avp_type_unused57 false illegal
    ∷ row avp_type_extended false illegal
    ∷ row avp_type_message_digest false bytes
    ∷ row avp_type_router_id false uint32
    ∷ row avp_type_assigned_conn_id false uint32
    ∷ row avp_type_pseudowire_caps false unimplemented
    ∷ row avp_type_local_session_id false uint32
    ∷ row avp_type_remote_session_id false uint32
    ∷ row avp_type_assigned_cookie false bytes
    ∷ row avp_type_remote_end_id false bytes
    ∷ row avp_type_unused67 false illegal
    ∷ row avp_type_pseudowire_type false uint16
    ∷ row avp_type_l2_specific_sublayer false uint16
    ∷ row avp_type_data_sequencing false uint16
    ∷ row avp_type_circuit_status false uint16
    ∷ row avp_type_preferred_language false bytes
    ∷ row avp_type_control_auth_nonce false bytes
    ∷ row avp_type_tx_connect_speed_bps false uint64
    ∷ row avp_type_rx_connect_speed_bps false uint64
    ∷ []

-- the loop of `getAVPInfo`
unfoldable pub find_info : ℕ → ℕ → List AvpInfo → Result AvpInfo
find_info t v [] = err unrecognised_avp_type
find_info t v (info ∷ infos) =
    if info.avp_type == t && info.vendor_id == v then ok info else find_info t v infos

unfoldable pub get_avp_info : ℕ → ℕ → Result AvpInfo
unfolding find_info avp_info_table
get_avp_info t v = find_info t v avp_info_table
