-- ===== src/DataPlane/Blind.antt =====
-- l2tp/nl_dataplane.go: what the data plane of a session tells of it.
use go_l2tp_debian.Prelude.{◌≡◌, ap, some, [], ◌∷◌}
use go_l2tp_debian.Prelude.Result.{ok, >>=-eq-ok}
use go_l2tp_debian.Prelude.Bytes.{Bytes}
use go_l2tp_debian.Netlink.Conn.{Kernel, Conn, after}
use go_l2tp_debian.Netlink.Decode.{Decoder, SessionInfo, get_session_info, zero_info}
use go_l2tp_debian.Netlink.Answers.{get_session_info-zero}
use go_l2tp_debian.DataPlane.{
  SessionDataPlane, Statistics, statistics_of, get_statistics, get_interface_name, name_or_ask,
}

name_asked :
    (d : Decoder) (k : Kernel) (sdp : SessionDataPlane) (known : Bytes) (c : Conn) (name : Bytes)
    (after_ : SessionDataPlane)
    → (name_or_ask d k sdp known c).0 ≡ ok (name, after_)
    → name ≡ known
unfolding name_or_ask after
name_asked d k sdp (b ∷ bs) c name after_ h = cc
name_asked d k sdp [] c name after_ h =
    let (info, got, e) = >>=-eq-ok (get_session_info d k (some sdp.cfg) c).0 _ h in
    let zero_name =
      ap (λ (i : SessionInfo). i.if_name) (get_session_info-zero d k (some sdp.cfg) c info got) in
    cc

-- Whatever the kernel answers: if GetStatistics returns statistics and GetInterfaceName a name, the
-- statistics are all zero, and the name is the one that was held before the call.
pub get_statistics-zero :
    (d : Decoder) (k : Kernel) (sdp : SessionDataPlane) (c : Conn) (s : Statistics) (name : Bytes)
    (after_ : SessionDataPlane)
    → (get_statistics d k sdp c).0 ≡ ok s
    → (get_interface_name d k sdp c).0 ≡ ok (name, after_)
    → (s ≡ statistics_of zero_info) × (name ≡ sdp.interface_name)
unfolding get_statistics get_interface_name after
get_statistics-zero d k sdp c s name after_ h n =
    let (info, got, e) = >>=-eq-ok (get_session_info d k (some sdp.cfg) c).0 _ h in
    let zero = ap statistics_of (get_session_info-zero d k (some sdp.cfg) c info got) in
    (cc, name_asked d k sdp sdp.interface_name c name after_ n)
