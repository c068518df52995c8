-- ===== src/Avp/ParseSteps.antt =====
-- The loop of `parseAVPBuffer` round by round: how much a round reads, and that the fuel does not
-- matter once there is enough.
use go_l2tp_debian.Prelude.{
  ℕ, zero, suc, ◌+◌, ◌≤◌, ◌<◌, ◌≡◌, ◌≢◌, refl, sym, ◌∙◌, ap, inl, inr, Option, some, List, [], ◌∷◌,
  ◌++◌, arith, length, length-append, length-take, take, take-append-drop, drop, ltb, ltb→lt,
  ltb→le, le→ltb, Bool-cases,
}
use go_l2tp_debian.Prelude.Int.{ℤ, pos, negsuc}
use go_l2tp_debian.Prelude.Result.{Result, ok, err, panic, stuck, ◌>>=◌}
use go_l2tp_debian.Prelude.Bytes.{Bytes}
use go_l2tp_debian.Avp.Info.{AvpInfo, avp_info_table, get_avp_info, find_info}
use go_l2tp_debian.Avp.Header.{AvpHeader, is_mandatory, data_len, read_header}
use go_l2tp_debian.Avp.Payload.{Avp}
use go_l2tp_debian.Avp.Parse.{
  take_data, read_avp, on_info, parse_round, append_some, parse_loop, some_avps, parse_avp_buffer,
}

pub parse_loop_done :
    (fuel : ℕ) (b : Bytes) (acc : List Avp) → length b < 6 → parse_loop fuel b acc ≡ ok acc
unfolding parse_loop
parse_loop_done zero b acc h = ground arith
parse_loop_done (suc fuel) b acc h = ground arith

pub parse_loop_more :
    (fuel : ℕ) (b : Bytes) (acc : List Avp)
    → 6 ≤ length b
    → parse_loop (suc fuel) b acc
      ≡ (parse_round b >>= λ r. parse_loop fuel r.1 (append_some acc r.0))
unfolding parse_loop
parse_loop_more fuel b acc h = let long = le→ltb (length b) 6 h in rw (long, parse_loop)

-- what a call leaves is at least `n` bytes shorter than `b`
abbrev pub Reads : ℕ → Bytes → Result (Option Avp × Bytes) → Type 0
Reads n b (ok r) = length r.1 + n ≤ length b
Reads n b stuck = ⊥
Reads n b _ = Unit

-- what a successful slice returns
pub take_data_inv :
    (n : ℤ) (r : Bytes) {c rest : Bytes}
    → take_data n r ≡ ok (c, rest)
    → (n ≡ pos (length c)) × (r ≡ c ++ rest)
unfolding take_data
take_data_inv (pos n) r {c} {rest} e = elim (Bool-cases (ltb (length r) n)) [
  | inl long ↦ cc (rw (long, take_data) at e)
  | inr fits ↦
      let parts = rw (fits, take_data) at e in
      let left : take n r ≡ c = cc (parts) in
      let right : drop n r ≡ rest = cc (parts) in
      (
        ap pos (omega (arith, ap length left, length-take n r, ltb→le _ _ fits)),
        sym (take-append-drop n r) ∙ rw (left, right),
      )
]
take_data_inv (negsuc n) r e = cc

take_data_not_stuck : (n : ℤ) (r : Bytes) → take_data n r ≢ stuck
unfolding take_data
take_data_not_stuck (pos n) r e = elim (Bool-cases (ltb (length r) n)) [
  | inl long ↦ cc (rw (long, take_data) at e)
  | inr fits ↦ cc (rw (fits, take_data) at e)
]
take_data_not_stuck (negsuc n) r e = cc

read_avp-Reads : (h : AvpHeader) (info : AvpInfo) (b : Bytes) → Reads 0 b (read_avp h info b)
unfolding read_avp
read_avp-Reads h info b = go (take_data (data_len h) b) refl
  where
    go :
        (t : Result (Bytes × Bytes))
        → take_data (data_len h) b ≡ t
        → Reads 0 b (
            t >>= λ r. ok (
              some (record {
                header = h;
                payload = record { data_type = info.data_type; data_bytes = r.0 };
              }),
              r.1,
            ))
    go (ok (c, rest)) e =
        omega (arith, ap length (take_data_inv (data_len h) b e).1, length-append c rest)
    go (err x) e = tt
    go (panic x) e = tt
    go stuck e = take_data_not_stuck (data_len h) b e

find_info_not_stuck : (t v : ℕ) (infos : List AvpInfo) → find_info t v infos ≢ stuck
unfolding find_info
find_info_not_stuck t v [] e = cc
find_info_not_stuck t v (info ∷ infos) e = ground (arith, find_info_not_stuck t v infos)

get_avp_info_not_stuck : (t v : ℕ) → get_avp_info t v ≢ stuck
unfolding get_avp_info
get_avp_info_not_stuck t v = find_info_not_stuck t v avp_info_table

on_info-Reads :
    (h : AvpHeader) (b : Bytes) (found : Result AvpInfo)
    → found ≢ stuck
    → Reads 0 b (on_info h b found)
unfolding on_info
on_info-Reads h b (ok info) k = read_avp-Reads h info b
on_info-Reads h b (err e) k = elim (Bool-cases (is_mandatory h)) [
  | inl m ↦ rw m tt
  | inr m ↦ rw m (omega arith)
]
on_info-Reads h b (panic p) k = tt
on_info-Reads h b stuck k = k refl

Reads-header :
    (m : Result (Option Avp × Bytes)) (b r : Bytes)
    → length b ≡ 6 + length r
    → Reads 0 r m
    → Reads 6 b m
Reads-header (ok x) b r e h = omega arith
Reads-header (err x) b r e h = tt
Reads-header (panic x) b r e h = tt
Reads-header stuck b r e h = h

pub parse_round-Reads : (b : Bytes) → Reads 6 b (parse_round b)
unfolding parse_round read_header
parse_round-Reads (a ∷ b ∷ c ∷ d ∷ e ∷ f ∷ rest) =
    Reads-header _ (a ∷ b ∷ c ∷ d ∷ e ∷ f ∷ rest) rest (omega arith)
      (on_info-Reads _ rest _ (get_avp_info_not_stuck _ _))
parse_round-Reads _ = tt

-- two ways to go on that agree on what a round can return
pub bind-Reads :
    (m : Result (Option Avp × Bytes)) (b : Bytes) (f g : Option Avp × Bytes → Result (List Avp))
    → Reads 6 b m
    → ((r : Option Avp × Bytes) → length r.1 + 6 ≤ length b → f r ≡ g r)
    → (m >>= f) ≡ (m >>= g)
bind-Reads (ok r) b f g h same = same r h
bind-Reads (err x) b f g h same = refl
bind-Reads (panic x) b f g h same = refl
bind-Reads stuck b f g h same = refl

-- the loop's result is the same for any two amounts of fuel that are enough
pub parse_loop_fuel :
    (f g : ℕ) (b : Bytes) (acc : List Avp)
    → length b ≤ f
    → length b ≤ g
    → parse_loop f b acc ≡ parse_loop g b acc
parse_loop_fuel zero g b acc hf hg =
    parse_loop_done 0 b acc (omega arith) ∙ sym (parse_loop_done g b acc (omega arith))
parse_loop_fuel (suc f) zero b acc hf hg =
    parse_loop_done (suc f) b acc (omega arith) ∙ sym (parse_loop_done 0 b acc (omega arith))
parse_loop_fuel (suc f) (suc g) b acc hf hg = elim (Bool-cases (ltb (length b) 6)) [
  | inl short ↦
      let s = ltb→lt _ _ short in
      parse_loop_done (suc f) b acc s ∙ sym (parse_loop_done (suc g) b acc s)
  | inr long ↦
      let l = ltb→le _ _ long in
      parse_loop_more f b acc l
      ∙ bind-Reads (parse_round b) b _ _ (parse_round-Reads b)
          (λ r h. parse_loop_fuel f g r.1 (append_some acc r.0) (omega arith) (omega arith))
      ∙ sym (parse_loop_more g b acc l)
]

bind_not_stuck :
    (m : Result (Option Avp × Bytes)) (b : Bytes) (f : Option Avp × Bytes → Result (List Avp))
    → Reads 6 b m
    → ((r : Option Avp × Bytes) → length r.1 + 6 ≤ length b → f r ≢ stuck)
    → (m >>= f) ≢ stuck
bind_not_stuck (ok r) b f h more e = more r h e
bind_not_stuck (err x) b f h more e = cc
bind_not_stuck (panic x) b f h more e = cc
bind_not_stuck stuck b f h more e = h

parse_loop_not_stuck :
    (f : ℕ) (b : Bytes) (acc : List Avp) → length b ≤ f → parse_loop f b acc ≢ stuck
parse_loop_not_stuck zero b acc h = λ e. cc (parse_loop_done 0 b acc (omega arith))
parse_loop_not_stuck (suc f) b acc h = elim (Bool-cases (ltb (length b) 6)) [
  | inl short ↦ λ e. cc (parse_loop_done (suc f) b acc (ltb→lt _ _ short))
  | inr long ↦ rw (parse_loop_more f b acc (ltb→le _ _ long)) (
      bind_not_stuck (parse_round b) b _ (parse_round-Reads b)
        (λ r k. parse_loop_not_stuck f r.1 (append_some acc r.0) (omega arith)))
]

-- `parseAVPBuffer` ends on every buffer: a round of its loop for each byte of the buffer is enough.
pub parse_avp_buffer_terminates : (b : Bytes) → parse_avp_buffer b ≢ stuck
unfolding parse_avp_buffer some_avps
parse_avp_buffer_terminates b =
    go (parse_loop (length b) b []) (parse_loop_not_stuck (length b) b [] (omega arith))
  where
    go : (m : Result (List Avp)) → m ≢ stuck → (m >>= some_avps) ≢ stuck
    go (ok []) h e = cc
    go (ok (a ∷ avps)) h e = cc
    go (err x) h e = cc
    go (panic x) h e = cc
    go stuck h e = h refl
