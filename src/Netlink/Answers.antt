-- ===== src/Netlink/Answers.antt =====
-- internal/nll2tp/nll2tp.go: what is made of the kernel's answers.
use go_l2tp_debian.Prelude.{
  ◌≡◌, Bool, true, false, Option, none, some, List, [], ◌∷◌, ◌==◌, if◌then◌else◌,
}
use go_l2tp_debian.Prelude.Result.{Result, ok, ◌>>=◌, >>=-eq-ok}
use go_l2tp_debian.Netlink.Attributes.{cmd_session_get, SessionConfig}
use go_l2tp_debian.Netlink.Conn.{Kernel, Conn, Message, request, after, session_ids}
use go_l2tp_debian.Netlink.Decode.{Decoder, SessionInfo, zero_info, read_messages, get_session_info}

-- the answer is read or skipped, and the rest decides
no_info_of :
    (d : Decoder) (m : Message) (rest : Result SessionInfo) (b : Bool) (start info : SessionInfo)
    → (rest ≡ ok info → info ≡ start)
    → (if b then (d.attributes m.content >>= λ l. rest) else rest) ≡ ok info
    → info ≡ start
no_info_of d m rest true start info h k =
    let (l, got, e) = >>=-eq-ok (d.attributes m.content) (λ l. rest) k in h e
no_info_of d m rest false start info h k = h k

no_info :
    (d : Decoder) (ms : List Message) (start info : SessionInfo)
    → read_messages d ms start ≡ ok info
    → info ≡ start
unfolding read_messages
no_info d [] start info h = cc
no_info d (m ∷ ms) start info h =
    no_info_of d m (read_messages d ms start) (m.command == cmd_session_get) start info
      (no_info d ms start info) h

-- Whatever the kernel answers, the information that is returned is the zero value.
pub get_session_info-zero :
    (d : Decoder) (k : Kernel) (config : Option SessionConfig) (c : Conn) (info : SessionInfo)
    → (get_session_info d k config c).0 ≡ ok info
    → info ≡ zero_info
unfolding get_session_info after
get_session_info-zero d k none c info h = cc
get_session_info-zero d k (some config) c info h =
    let (ms, asked, e) =
      >>=-eq-ok (request k cmd_session_get false (session_ids config) c).0
        (λ ms. read_messages d ms zero_info) h in
    no_info d ms zero_info info e
