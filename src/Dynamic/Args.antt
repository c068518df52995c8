-- ===== src/Dynamic/Args.antt =====
-- l2tp/avp.go, l2tp/l2tp_dynamic_session.go, l2tp/l2tp_dynamic_tunnel.go: result codes, and the
-- arguments that events of the state machines carry.
use go_l2tp_debian.Prelude.{ℕ, List, [], ◌∷◌}
use go_l2tp_debian.Prelude.Result.{Result, Error, ok, panic, callback_arguments}
use go_l2tp_debian.Prelude.Bytes.{Bytes}
use go_l2tp_debian.Avp.Payload.{ResultCode}
use go_l2tp_debian.Context.Links.{Entry}
use go_l2tp_debian.Msg.Message.{V2ControlMessage}

abbrev pub avp_stop_ccn_result_code_clear_connection : ℕ
avp_stop_ccn_result_code_clear_connection = 1

abbrev pub avp_stop_ccn_result_code_general_error : ℕ
avp_stop_ccn_result_code_general_error = 2

abbrev pub avp_stop_ccn_result_code_channel_protocol_version_unsupported : ℕ
avp_stop_ccn_result_code_channel_protocol_version_unsupported = 5

abbrev pub avp_cdn_result_code_general_error : ℕ
avp_cdn_result_code_general_error = 2

abbrev pub avp_cdn_result_code_admin_disconnect : ℕ
avp_cdn_result_code_admin_disconnect = 3

abbrev pub avp_error_code_no_error : ℕ
avp_error_code_no_error = 0

abbrev pub avp_error_code_bad_value : ℕ
avp_error_code_bad_value = 3

abbrev pub avp_error_code_vendor_specific_error : ℕ
avp_error_code_vendor_specific_error = 6

-- The texts that `fmt.Sprintf` makes for a result code. What it makes of one is a parameter.
pub data Text : Type 0 where
  bad_message : ℕ → Error → Text
  unhandled_message : ℕ → Text
  no_session_id : Text
  unhandled_protocol_version : ℕ → Text
  no_data_plane : Text

-- An `interface{}` argument of an event, by its dynamic type. `sockaddr` is an address, `session` a
-- session object.
pub data Arg : Type 0 where
  result_code : ℕ → Arg
  error_code : ℕ → Arg
  string : Text → Arg
  message : V2ControlMessage → Arg
  sockaddr : Arg
  session : Entry → Arg

-- the loop of `fsmArgsToCdnResult` and of `fsmArgsToStopccnResult`
unfoldable pub set_result : (Text → Bytes) → ResultCode → List Arg → ResultCode
set_result render rc [] = rc
set_result render rc (result_code v ∷ args) = set_result render (record rc { result = v }) args
set_result render rc (error_code v ∷ args) = set_result render (record rc { err_code = v }) args
set_result render rc (string v ∷ args) = set_result render (record rc { err_msg = render v }) args
set_result render rc (_ ∷ args) = set_result render rc args

unfoldable pub fsm_args_to_cdn_result : (Text → Bytes) → List Arg → ResultCode
unfolding set_result
fsm_args_to_cdn_result render args =
    set_result render
      (record {
        result = avp_cdn_result_code_admin_disconnect;
        err_code = avp_error_code_no_error;
        err_msg = [];
      })
      args

unfoldable pub fsm_args_to_stopccn_result : (Text → Bytes) → List Arg → ResultCode
unfolding set_result
fsm_args_to_stopccn_result render args =
    set_result render
      (record {
        result = avp_stop_ccn_result_code_clear_connection;
        err_code = avp_error_code_no_error;
        err_msg = [];
      })
      args

unfoldable pub fsm_args_to_v2_msg : List Arg → Result V2ControlMessage
fsm_args_to_v2_msg (message m ∷ []) = ok m
fsm_args_to_v2_msg _ = panic callback_arguments

unfoldable pub fsm_args_to_v2_msg_from : List Arg → Result V2ControlMessage
fsm_args_to_v2_msg_from (message m ∷ sockaddr ∷ []) = ok m
fsm_args_to_v2_msg_from _ = panic callback_arguments

unfoldable pub fsm_args_to_session : List Arg → Result Entry
fsm_args_to_session (session e ∷ []) = ok e
fsm_args_to_session _ = panic callback_arguments
