-- ===== src/Msg/Steps.antt =====
-- The loop of `parseMessageBuffer` round by round, and its end.
use go_l2tp_debian.Prelude.{
  ℕ, zero, suc, ◌+◌, ◌-◌, ◌≤◌, ◌<◌, ◌≡◌, ◌≢◌, sym, ap, fun_ext, ◌∙◌, inl, inr, ◌||◌, List, [], ◌∷◌,
  ◌++◌, append_assoc, append-nil, arith, length, ltb, ltb→lt, ltb→le, le→ltb, Bool-cases, drop,
  length-drop,
}
use go_l2tp_debian.Prelude.Result.{
  ok, stuck, ◌>>=◌, map_ok, map_ok-eq-ok, bind-ext, bind-map_ok, map_ok-map_ok, bind_not_stuck,
  map_ok_not_stuck,
}
use go_l2tp_debian.Prelude.Bytes.{Bytes, u16}
use go_l2tp_debian.Avp.Payload.{Avp}
use go_l2tp_debian.Avp.Parse.{parse_avp_buffer}
use go_l2tp_debian.Avp.ParseSteps.{parse_avp_buffer_terminates}
use go_l2tp_debian.Msg.Message.{
  CommonHeader, ControlMessage, ProtocolVersion, version2, version3, version3_fallback,
  protocol_version, common_header_len, v2_header_len, v3_header_len,
}
use go_l2tp_debian.Msg.Parse.{
  slice, read_common, read_v2_header, read_v3_header, message_first, read_avps, v2_avps, read_frame,
  on_common, bytes_to_v2_ctl_msg, bytes_to_v3_ctl_msg, read_message, message_round, message_loop,
  parse_message_buffer,
}

pub message_loop_done :
    (fuel : ℕ) (b : Bytes) (acc : List ControlMessage)
    → length b < 12
    → message_loop fuel b acc ≡ ok acc
unfolding message_loop
message_loop_done zero b acc h = ground arith
message_loop_done (suc fuel) b acc h = ground arith

pub message_loop_more :
    (fuel : ℕ) (b : Bytes) (acc : List ControlMessage)
    → 12 ≤ length b
    → message_loop (suc fuel) b acc
      ≡ (message_round b >>= λ r. message_loop fuel r.1 (acc ++ r.0 ∷ []))
unfolding message_loop
message_loop_more fuel b acc h = let long = le→ltb (length b) 12 h in rw (long, message_loop)

slice_not_stuck : (b : Bytes) (lo hi : ℕ) → slice b lo hi ≢ stuck
unfolding slice
slice_not_stuck b lo hi = elim (Bool-cases (ltb hi lo || ltb (length b) hi)) [
  | inl out ↦ rw out (λ e. cc)
  | inr fits ↦ rw fits (λ e. cc)
]

message_first_not_stuck : (avps : List Avp) → message_first avps ≢ stuck
unfolding message_first
message_first_not_stuck [] = λ e. cc
message_first_not_stuck (a ∷ avps) = λ e. ground arith

read_avps_not_stuck : (b : Bytes) (lo hi : ℕ) → read_avps b lo hi ≢ stuck
unfolding read_avps
read_avps_not_stuck b lo hi = bind_not_stuck (slice b lo hi) _ (slice_not_stuck b lo hi) (λ body k.
    bind_not_stuck (parse_avp_buffer body) _ (parse_avp_buffer_terminates body)
      (λ avps j. message_first_not_stuck avps))

read_v2_header_not_stuck : (b : Bytes) → read_v2_header b ≢ stuck
unfolding read_v2_header
read_v2_header_not_stuck (a ∷ b ∷ c ∷ d ∷ e ∷ f ∷ g ∷ h ∷ i ∷ j ∷ k ∷ l ∷ rest) = λ q. cc
read_v2_header_not_stuck _ = λ q. cc

read_v3_header_not_stuck : (b : Bytes) → read_v3_header b ≢ stuck
unfolding read_v3_header
read_v3_header_not_stuck (a ∷ b ∷ c ∷ d ∷ e ∷ f ∷ g ∷ h ∷ i ∷ j ∷ k ∷ l ∷ rest) = λ q. cc
read_v3_header_not_stuck _ = λ q. cc

v2_avps_not_stuck : (b : Bytes) (len : ℕ) → v2_avps b len ≢ stuck
unfolding v2_avps
v2_avps_not_stuck b len = elim (Bool-cases (ltb v2_header_len len)) [
  | inl some_left ↦ rw some_left (read_avps_not_stuck b v2_header_len len)
  | inr none_left ↦ rw none_left (λ q. cc)
]

read_message_not_stuck : (v : ProtocolVersion) (b : Bytes) → read_message v b ≢ stuck
unfolding read_message bytes_to_v2_ctl_msg bytes_to_v3_ctl_msg
read_message_not_stuck version2 b = map_ok_not_stuck _ (bytes_to_v2_ctl_msg b) (
    bind_not_stuck (read_v2_header b) _ (read_v2_header_not_stuck b) (λ hdr k.
      bind_not_stuck (v2_avps b hdr.common.len) _ (v2_avps_not_stuck b hdr.common.len)
        (λ l m q. cc)))
read_message_not_stuck version3 b = map_ok_not_stuck _ (bytes_to_v3_ctl_msg b) (
    bind_not_stuck (read_v3_header b) _ (read_v3_header_not_stuck b) (λ hdr k.
      bind_not_stuck (read_avps b v3_header_len hdr.common.len) _
        (read_avps_not_stuck b v3_header_len hdr.common.len) (λ l m q. cc)))
read_message_not_stuck version3_fallback b = λ q. cc

protocol_version_not_stuck : (h : CommonHeader) → protocol_version h ≢ stuck
unfolding protocol_version
protocol_version_not_stuck h = λ q. ground arith

read_frame_not_stuck : (b : Bytes) (h : CommonHeader) → read_frame b h ≢ stuck
unfolding read_frame
read_frame_not_stuck b h =
    bind_not_stuck (protocol_version h) _ (protocol_version_not_stuck h) (λ ver k.
      bind_not_stuck (slice b 0 h.len) _ (slice_not_stuck b 0 h.len)
        (λ frame j. read_message_not_stuck ver frame))

on_common_not_stuck : (b : Bytes) (h : CommonHeader) (r : Bytes) → on_common b h r ≢ stuck
unfolding on_common
on_common_not_stuck b h r =
    elim (Bool-cases (ltb (length r) (u16 (h.len + 65536 - common_header_len)))) [
      | inl bad ↦ rw bad (λ q. cc)
      | inr fine ↦ rw fine (map_ok_not_stuck _ (read_frame b h) (read_frame_not_stuck b h))
    ]

message_round_not_stuck : (b : Bytes) → message_round b ≢ stuck
unfolding message_round read_common
message_round_not_stuck (a ∷ b ∷ c ∷ d ∷ rest) = on_common_not_stuck (a ∷ b ∷ c ∷ d ∷ rest) _ _
message_round_not_stuck _ = λ q. cc

on_common-drop :
    (b : Bytes) (h : CommonHeader) (r : Bytes) {x : ControlMessage × Bytes}
    → on_common b h r ≡ ok x
    → x.1 ≡ drop h.len r
unfolding on_common
on_common-drop b h r e =
    elim (Bool-cases (ltb (length r) (u16 (h.len + 65536 - common_header_len)))) [
      | inl bad ↦ cc (rw (bad, on_common) at e)
      | inr fine ↦
          let (m, read, made) = map_ok-eq-ok _ (read_frame b h) (rw (fine, on_common) at e) in
          ap (λ y. y.1) (sym made)
    ]

-- what a successful round leaves is shorter by a common header at least
message_round-le :
    (b : Bytes) {x : ControlMessage × Bytes} → message_round b ≡ ok x → length x.1 + 4 ≤ length b
unfolding message_round read_common
message_round-le (a ∷ b ∷ c ∷ d ∷ rest) e =
    omega (arith, ap length (on_common-drop (a ∷ b ∷ c ∷ d ∷ rest) _ rest e), length-drop _ rest)
message_round-le _ e = cc

message_loop_not_stuck :
    (f : ℕ) (b : Bytes) (acc : List ControlMessage) → length b ≤ f → message_loop f b acc ≢ stuck
message_loop_not_stuck zero b acc h = λ e. cc (message_loop_done 0 b acc (omega arith))
message_loop_not_stuck (suc f) b acc h = elim (Bool-cases (ltb (length b) 12)) [
  | inl short ↦ λ e. cc (message_loop_done (suc f) b acc (ltb→lt _ _ short))
  | inr long ↦ rw (message_loop_more f b acc (ltb→le _ _ long)) (
      bind_not_stuck (message_round b) _ (message_round_not_stuck b) (λ r k.
        message_loop_not_stuck f r.1 (acc ++ r.0 ∷ []) (omega (arith, message_round-le b k))))
]

-- `parseMessageBuffer` ends on every frame: the rounds that the model allows its loop, and the loop
-- over the AVPs of each message, are enough.
pub parse_message_buffer_terminates : (b : Bytes) → parse_message_buffer b ≢ stuck
unfolding parse_message_buffer
parse_message_buffer_terminates b = message_loop_not_stuck (length b) b [] (omega arith)

-- the loop's result is the same for any two amounts of fuel that are enough
pub message_loop_fuel :
    (f g : ℕ) (b : Bytes) (acc : List ControlMessage)
    → length b ≤ f
    → length b ≤ g
    → message_loop f b acc ≡ message_loop g b acc
message_loop_fuel zero g b acc hf hg =
    message_loop_done 0 b acc (omega arith) ∙ sym (message_loop_done g b acc (omega arith))
message_loop_fuel (suc f) zero b acc hf hg =
    message_loop_done (suc f) b acc (omega arith) ∙ sym (message_loop_done 0 b acc (omega arith))
message_loop_fuel (suc f) (suc g) b acc hf hg = elim (Bool-cases (ltb (length b) 12)) [
  | inl short ↦
      let s = ltb→lt _ _ short in
      message_loop_done (suc f) b acc s ∙ sym (message_loop_done (suc g) b acc s)
  | inr long ↦
      let l = ltb→le _ _ long in
      message_loop_more f b acc l
      ∙ bind-ext (message_round b) _ _ (λ r k.
        message_loop_fuel f g r.1 (acc ++ r.0 ∷ []) (omega (arith, message_round-le b k))
          (omega (arith, message_round-le b k)))
      ∙ sym (message_loop_more g b acc l)
]

message_loop_out :
    (b : Bytes) (acc : List ControlMessage) → 12 ≤ length b → message_loop 0 b acc ≡ stuck
unfolding message_loop
message_loop_out b acc h = rw (le→ltb (length b) 12 h)

-- the messages found so far stand in front of those of the rest
pub message_loop_acc :
    (f : ℕ) (b : Bytes) (acc : List ControlMessage)
    → message_loop f b acc ≡ map_ok (λ l. acc ++ l) (message_loop f b [])
message_loop_acc zero b acc = elim (Bool-cases (ltb (length b) 12)) [
  | inl short ↦
      let s = ltb→lt _ _ short in
      message_loop_done 0 b acc s
      ∙ ap ok (sym (append-nil acc))
      ∙ ap (map_ok (λ l. acc ++ l)) (sym (message_loop_done 0 b [] s))
  | inr long ↦
      let l = ltb→le _ _ long in
      message_loop_out b acc l ∙ ap (map_ok (λ l. acc ++ l)) (sym (message_loop_out b [] l))
]
message_loop_acc (suc f) b acc = elim (Bool-cases (ltb (length b) 12)) [
  | inl short ↦
      let s = ltb→lt _ _ short in
      message_loop_done (suc f) b acc s
      ∙ ap ok (sym (append-nil acc))
      ∙ ap (map_ok (λ l. acc ++ l)) (sym (message_loop_done (suc f) b [] s))
  | inr long ↦
      let l = ltb→le _ _ long in
      let next = λ (r : ControlMessage × Bytes). message_loop f r.1 (r.0 ∷ []) in
      message_loop_more f b acc l
      ∙ bind-ext (message_round b) _ (λ r. map_ok (λ l. acc ++ l) (next r))
          (λ r k.
            message_loop_acc f r.1 (acc ++ r.0 ∷ [])
            ∙ ap (λ g. map_ok g (message_loop f r.1 [])) (fun_ext (append_assoc acc (r.0 ∷ [])))
            ∙ sym (map_ok-map_ok (λ l. r.0 ∷ l) (λ l. acc ++ l) (message_loop f r.1 []))
            ∙ ap (map_ok (λ l. acc ++ l)) (sym (message_loop_acc f r.1 (r.0 ∷ []))))
      ∙ bind-map_ok (message_round b) next (λ l. acc ++ l)
      ∙ ap (map_ok (λ l. acc ++ l)) (sym (message_loop_more f b [] l))
]
