-- ===== src/Msg/Sendable.antt =====
-- Every message that the tunnel and session protocols send is accepted by the sender's own checks.
use go_l2tp_debian.Prelude.{ℕ, ◌≤◌, ◌≡◌, refl, some, arith, length}
use go_l2tp_debian.Prelude.Result.{ok}
use go_l2tp_debian.Prelude.Bytes.{Bytes, IsU16, IsU32}
use go_l2tp_debian.Avp.Info.{AvpInfo, get_avp_info}
use go_l2tp_debian.Avp.Payload.{ResultCode}
use go_l2tp_debian.Avp.Encode.{encode_result_code, encode_payload, make_avp, new_avp}
use go_l2tp_debian.Avp.RoundTrip.{InRange}
use go_l2tp_debian.Msg.Spec.{
  AvpSpec, MsgSpec, has_avp, get_v2_msg_spec, v2_sccrq_msg_spec, v2_sccrp_msg_spec,
  v2_scccn_msg_spec, v2_stopccn_msg_spec, v2_hello_msg_spec, v2_icrq_msg_spec, v2_icrp_msg_spec,
  v2_iccn_msg_spec, v2_cdn_msg_spec,
}
use go_l2tp_debian.Msg.Build.{
  TunnelConfig, SessionConfig, AvpIn, new_v2_sccrq, new_v2_sccrp, new_v2_scccn, new_v2_stopccn,
  new_v2_hello, new_v2_icrq, new_v2_icrp, new_v2_iccn, new_v2_cdn,
}
use go_l2tp_debian.Msg.Built.{IsGood, IsSendable, build_v2_msg-IsSendable}

-- a good input from the table's entry and the bytes that its value encodes to
module _ (spec : MsgSpec) (i : AvpIn) where
  good :
      (info : AvpInfo) (buf : Bytes) (s : AvpSpec)
      → get_avp_info i.typ 0 ≡ ok info
      → encode_payload info i.value ≡ ok buf
      → has_avp spec i.typ ≡ some s
      → length buf ≤ 1017
      → IsU16 i.typ
      → InRange i.value
      → IsGood spec i
  good info buf s found encoded in_spec short fits range = record {
    avp = make_avp info 0 i.typ buf;
    built = unfold new_avp in rw (found, encoded);
    short = short;
    typ_fits = fits;
    in_range = range;
    use_of = s;
    is_named = in_spec;
  }

sccrq-IsSendable :
    (cfg : TunnelConfig) → length cfg.host_name ≤ 1017 → IsSendable 1 (new_v2_sccrq cfg)
unfolding new_v2_sccrq get_v2_msg_spec get_avp_info encode_payload has_avp encode_result_code
sccrq-IsSendable cfg h0 =
    build_v2_msg-IsSendable 1 v2_sccrq_msg_spec _ 0 0 refl (ground arith)
      (
        good _ _ _ _ _ refl refl refl (omega arith) (omega arith) (omega arith),
        (
          good _ _ _ _ _ refl refl refl (omega arith) (omega arith) tt,
          (
            good _ _ _ _ _ refl refl refl h0 (omega arith) tt,
            (
              good _ _ _ _ _ refl refl refl (omega arith) (omega arith) (omega arith),
              (good _ _ _ _ _ refl refl refl (omega arith) (omega arith) (omega arith), tt),
            ),
          ),
        ),
      )
      (omega arith) (omega arith) (omega arith) (omega arith)

sccrp-IsSendable :
    (cfg : TunnelConfig)
    → length cfg.host_name ≤ 1017
    → IsU16 cfg.peer_tunnel_id
    → IsSendable 2 (new_v2_sccrp cfg)
unfolding new_v2_sccrp get_v2_msg_spec get_avp_info encode_payload has_avp encode_result_code
sccrp-IsSendable cfg h0 h1 =
    build_v2_msg-IsSendable 2 v2_sccrp_msg_spec _ cfg.peer_tunnel_id 0 refl (ground arith)
      (
        good _ _ _ _ _ refl refl refl (omega arith) (omega arith) (omega arith),
        (
          good _ _ _ _ _ refl refl refl (omega arith) (omega arith) tt,
          (
            good _ _ _ _ _ refl refl refl (omega arith) (omega arith) (omega arith),
            (
              good _ _ _ _ _ refl refl refl h0 (omega arith) tt,
              (good _ _ _ _ _ refl refl refl (omega arith) (omega arith) (omega arith), tt),
            ),
          ),
        ),
      )
      (omega arith) (omega arith) h1 (omega arith)

scccn-IsSendable : (cfg : TunnelConfig) → IsU16 cfg.peer_tunnel_id → IsSendable 3 (new_v2_scccn cfg)
unfolding new_v2_scccn get_v2_msg_spec get_avp_info encode_payload has_avp encode_result_code
scccn-IsSendable cfg h0 =
    build_v2_msg-IsSendable 3 v2_scccn_msg_spec _ cfg.peer_tunnel_id 0 refl (ground arith)
      (good _ _ _ _ _ refl refl refl (omega arith) (omega arith) (omega arith), tt) (omega arith)
      (omega arith) h0 (omega arith)

stopccn-IsSendable :
    (rc : ResultCode) (cfg : TunnelConfig)
    → IsU16 rc.result
    → IsU16 rc.err_code
    → length rc.err_msg ≤ 1013
    → IsU16 cfg.peer_tunnel_id
    → IsSendable 4 (new_v2_stopccn rc cfg)
unfolding new_v2_stopccn get_v2_msg_spec get_avp_info encode_payload has_avp encode_result_code
stopccn-IsSendable rc cfg h0 h1 h2 h3 =
    build_v2_msg-IsSendable 4 v2_stopccn_msg_spec _ cfg.peer_tunnel_id 0 refl (ground arith)
      (
        good _ _ _ _ _ refl refl refl (omega arith) (omega arith) (omega arith),
        (
          good _ _ _ _ _ refl refl refl (omega arith) (omega arith) (omega arith),
          (good _ _ _ _ _ refl refl refl (omega arith) (omega arith) (h0, h1), tt),
        ),
      )
      (omega arith) (omega arith) h3 (omega arith)

pub hello-IsSendable :
    (cfg : TunnelConfig) → IsU16 cfg.peer_tunnel_id → IsSendable 6 (new_v2_hello cfg)
unfolding new_v2_hello get_v2_msg_spec get_avp_info encode_payload has_avp encode_result_code
hello-IsSendable cfg h0 =
    build_v2_msg-IsSendable 6 v2_hello_msg_spec _ cfg.peer_tunnel_id 0 refl (ground arith)
      (good _ _ _ _ _ refl refl refl (omega arith) (omega arith) (omega arith), tt) (omega arith)
      (omega arith) h0 (omega arith)

icrq-IsSendable :
    (serial ptid : ℕ) (scfg : SessionConfig)
    → IsU32 serial
    → IsU16 ptid
    → IsSendable 10 (new_v2_icrq serial ptid scfg)
unfolding new_v2_icrq get_v2_msg_spec get_avp_info encode_payload has_avp encode_result_code
icrq-IsSendable serial ptid scfg h0 h1 =
    build_v2_msg-IsSendable 10 v2_icrq_msg_spec _ ptid 0 refl (ground arith)
      (
        good _ _ _ _ _ refl refl refl (omega arith) (omega arith) (omega arith),
        (
          good _ _ _ _ _ refl refl refl (omega arith) (omega arith) (omega arith),
          (good _ _ _ _ _ refl refl refl (omega arith) (omega arith) h0, tt),
        ),
      )
      (omega arith) (omega arith) h1 (omega arith)

icrp-IsSendable :
    (ptid : ℕ) (scfg : SessionConfig)
    → IsU16 ptid
    → IsU16 scfg.peer_session_id
    → IsSendable 11 (new_v2_icrp ptid scfg)
unfolding new_v2_icrp get_v2_msg_spec get_avp_info encode_payload has_avp encode_result_code
icrp-IsSendable ptid scfg h0 h1 =
    build_v2_msg-IsSendable 11 v2_icrp_msg_spec _ ptid scfg.peer_session_id refl (ground arith)
      (
        good _ _ _ _ _ refl refl refl (omega arith) (omega arith) (omega arith),
        (good _ _ _ _ _ refl refl refl (omega arith) (omega arith) (omega arith), tt),
      )
      (omega arith) (omega arith) h0 h1

iccn-IsSendable :
    (ptid : ℕ) (scfg : SessionConfig)
    → IsU16 ptid
    → IsU16 scfg.peer_session_id
    → IsSendable 12 (new_v2_iccn ptid scfg)
unfolding new_v2_iccn get_v2_msg_spec get_avp_info encode_payload has_avp encode_result_code
iccn-IsSendable ptid scfg h0 h1 =
    build_v2_msg-IsSendable 12 v2_iccn_msg_spec _ ptid scfg.peer_session_id refl (ground arith)
      (
        good _ _ _ _ _ refl refl refl (omega arith) (omega arith) (omega arith),
        (
          good _ _ _ _ _ refl refl refl (omega arith) (omega arith) (omega arith),
          (good _ _ _ _ _ refl refl refl (omega arith) (omega arith) (omega arith), tt),
        ),
      )
      (omega arith) (omega arith) h0 h1

cdn-IsSendable :
    (ptid : ℕ) (rc : ResultCode) (scfg : SessionConfig)
    → IsU16 ptid
    → IsU16 rc.result
    → IsU16 rc.err_code
    → length rc.err_msg ≤ 1013
    → IsU16 scfg.peer_session_id
    → IsSendable 14 (new_v2_cdn ptid rc scfg)
unfolding new_v2_cdn get_v2_msg_spec get_avp_info encode_payload has_avp encode_result_code
cdn-IsSendable ptid rc scfg h0 h1 h2 h3 h4 =
    build_v2_msg-IsSendable 14 v2_cdn_msg_spec _ ptid scfg.peer_session_id refl (ground arith)
      (
        good _ _ _ _ _ refl refl refl (omega arith) (omega arith) (omega arith),
        (
          good _ _ _ _ _ refl refl refl (omega arith) (omega arith) (h1, h2),
          (good _ _ _ _ _ refl refl refl (omega arith) (omega arith) (omega arith), tt),
        ),
      )
      (omega arith) (omega arith) h0 h4

-- The five messages of a tunnel's control protocol (SCCRQ, SCCRP, SCCCN, StopCCN, HELLO) are built
-- without an error, pass `validate` with the type that they are meant to have, and are written as
-- `parseMessageBuffer` reads them. The host name has at most 1017 bytes, the text of the result code
-- at most 1013, and the numbers of the peer's tunnel and of the result code have 16 bits.
pub tunnel_messages-IsSendable :
    (cfg : TunnelConfig) (rc : ResultCode)
    → length cfg.host_name ≤ 1017
    → IsU16 cfg.peer_tunnel_id
    → IsU16 rc.result
    → IsU16 rc.err_code
    → length rc.err_msg ≤ 1013
    → IsSendable 1 (new_v2_sccrq cfg)
      × IsSendable 2 (new_v2_sccrp cfg)
      × IsSendable 3 (new_v2_scccn cfg)
      × IsSendable 4 (new_v2_stopccn rc cfg)
      × IsSendable 6 (new_v2_hello cfg)
tunnel_messages-IsSendable cfg rc name peer r e m = (
  sccrq-IsSendable cfg name,
  sccrp-IsSendable cfg name peer,
  scccn-IsSendable cfg peer,
  stopccn-IsSendable rc cfg r e m peer,
  hello-IsSendable cfg peer,
)

-- The four messages of a session (ICRQ, ICRP, ICCN, CDN) are built without an error, pass `validate`
-- with the type that they are meant to have, and are written as `parseMessageBuffer` reads them.
-- The call's serial number has 32 bits, the numbers of the peer's tunnel and session and of the
-- result code 16, and the text of the result code has at most 1013 bytes.
pub session_messages-IsSendable :
    (serial ptid : ℕ) (rc : ResultCode) (scfg : SessionConfig)
    → IsU32 serial
    → IsU16 ptid
    → IsU16 scfg.peer_session_id
    → IsU16 rc.result
    → IsU16 rc.err_code
    → length rc.err_msg ≤ 1013
    → IsSendable 10 (new_v2_icrq serial ptid scfg)
      × IsSendable 11 (new_v2_icrp ptid scfg)
      × IsSendable 12 (new_v2_iccn ptid scfg)
      × IsSendable 14 (new_v2_cdn ptid rc scfg)
session_messages-IsSendable serial ptid rc scfg n t s r e m = (
  icrq-IsSendable serial ptid scfg n t,
  icrp-IsSendable ptid scfg t s,
  iccn-IsSendable ptid scfg t s,
  cdn-IsSendable ptid rc scfg t r e m s,
)
