-- ===== src/Avp/ParseSound.antt =====
-- `parseAVPBuffer` against a relation that says which AVPs a buffer holds.
use go_l2tp_debian.Prelude.{
  ℕ, zero, suc, ◌+◌, ◌≤◌, ◌<◌, ◌≡◌, ◌≢◌, refl, subst, sym, ◌∙◌, ap, ◌↔◌, inl, inr, false, Option,
  none, some, List, [], ◌∷◌, ◌++◌, append_assoc, append-nil, arith, length, ltb, ltb→lt, ltb→le,
  Bool-cases, le→ltb, length-append, All-append_right, All,
}
use go_l2tp_debian.Prelude.Result.{Result, Error, ok, err, panic, stuck, >>=-eq-ok}
use go_l2tp_debian.Prelude.Bytes.{Bytes, IsByte, from_be16}
use go_l2tp_debian.Avp.Info.{AvpInfo, get_avp_info}
use go_l2tp_debian.Avp.Header.{AvpHeader, is_mandatory, data_len, read_header, write_header}
use go_l2tp_debian.Avp.Payload.{Avp}
use go_l2tp_debian.Avp.Parse.{
  take_data, read_avp, on_info, parse_round, append_some, parse_loop, some_avps, parse_avp_buffer,
}
use go_l2tp_debian.Avp.Write.{write_avp}
use go_l2tp_debian.Avp.HeaderFields.{IsHeader, read_header-write_header}
use go_l2tp_debian.Avp.ParseSteps.{take_data_inv, parse_loop_done, parse_loop_more, parse_loop_fuel}
use go_l2tp_debian.Avp.ParseRoundTrip.{IsWf, parse_round-write_avp, length-write_avp}

-- an AVP header that the table does not know and that may be passed over
pub record IsIgnored (h : AvpHeader) : Type 0 where
  pub header_fits : IsHeader h
  pub optional : is_mandatory h ≡ false
  pub why : Error
  pub unknown : get_avp_info h.avp_type h.vendor_id ≡ err why

-- The buffer holds these AVPs. Of an AVP that is passed over, the header alone is left out: what
-- follows the header is read as the next AVP.
pub data Holds : Bytes → List Avp → Type 0 where
  end : {b : Bytes} → length b < 6 → Holds b []
  skip :
      {b : Bytes} {avps : List Avp} (h : AvpHeader) (r : Bytes)
      → IsIgnored h
      → b ≡ write_header h ++ r
      → Holds r avps
      → Holds b avps
  avp :
      {b : Bytes} {avps : List Avp} (a : Avp) (r : Bytes)
      → IsWf a
      → b ≡ write_avp a ++ r
      → Holds r avps
      → Holds b (a ∷ avps)

pub parse_round-ignored :
    (h : AvpHeader) (r : Bytes) → IsIgnored h → parse_round (write_header h ++ r) ≡ ok (none, r)
unfolding parse_round on_info
parse_round-ignored h r g = rw (read_header-write_header h r g.header_fits, g.unknown, g.optional)

pub length-write_header : (h : AvpHeader) → length (write_header h) ≡ 6
unfolding write_header
length-write_header h = refl

-- the loop finds what the buffer holds
parse_loop-Holds :
    {b : Bytes} {avps : List Avp} (acc : List Avp) (f : ℕ)
    → Holds b avps
    → length b ≤ f
    → parse_loop f b acc ≡ ok (acc ++ avps)
parse_loop-Holds {b} acc f (end short) h =
    parse_loop_done f b acc short ∙ ap ok (sym (append-nil acc))
parse_loop-Holds {b} acc f (skip hd r g e rest) h =
    let size : length b ≡ 6 + length r =
      ap length e ∙ length-append (write_header hd) r ∙ rw (length-write_header hd) in
    parse_loop_fuel f (suc f) b acc h (omega arith)
    ∙ parse_loop_more f b acc (omega arith)
    ∙ rw (e, parse_round-ignored hd r g) (parse_loop-Holds acc f rest (omega arith))
parse_loop-Holds {b} acc f (avp {avps = avps} a r w e rest) h =
    let size : length b ≡ 6 + length a.payload.data_bytes + length r =
      ap length e ∙ length-append (write_avp a) r ∙ rw (length-write_avp a) in
    parse_loop_fuel f (suc f) b acc h (omega arith)
    ∙ parse_loop_more f b acc (omega arith)
    ∙ rw (e, parse_round-write_avp a r w)
        (parse_loop-Holds (acc ++ a ∷ []) f rest (omega arith)
          ∙ ap ok (append_assoc acc (a ∷ []) avps))

-- what a successful round has read
data Round (b : Bytes) (o : Option Avp) (r : Bytes) : Type 0 where
  skipped : (h : AvpHeader) → IsIgnored h → o ≡ none → b ≡ write_header h ++ r → Round b o r
  taken : (a : Avp) → IsWf a → o ≡ some a → b ≡ write_avp a ++ r → Round b o r

read_avp-Round :
    (h : AvpHeader) (info : AvpInfo) (r : Bytes) {o : Option Avp} {rest : Bytes}
    → IsHeader h
    → get_avp_info h.avp_type h.vendor_id ≡ ok info
    → read_avp h info r ≡ ok (o, rest)
    → Round (write_header h ++ r) o rest
unfolding read_avp write_avp
read_avp-Round h info r {rest = rest} f k e =
    let (part, cut_ok, made) = >>=-eq-ok (take_data (data_len h) r) _ e in
    let (size, split) = take_data_inv (data_len h) r cut_ok in
    let a : Avp = record {
      header = h;
      payload = record { data_type = info.data_type; data_bytes = part.0 };
    } in
    let wf : IsWf a = record {
      header_fits = f;
      info = info;
      known = k;
      typed = refl;
      sized = size;
    } in
    let left : part.1 ≡ rest = cc made in
    taken a wf (cc made) (
      ap (λ x. write_header h ++ x) (split ∙ ap (λ x. part.0 ++ x) left)
      ∙ sym (append_assoc (write_header h) part.0 rest))

on_info-Round :
    (h : AvpHeader) (r : Bytes) (found : Result AvpInfo) {o : Option Avp} {rest : Bytes}
    → IsHeader h
    → get_avp_info h.avp_type h.vendor_id ≡ found
    → on_info h r found ≡ ok (o, rest)
    → Round (write_header h ++ r) o rest
unfolding on_info
on_info-Round h r (ok info) f k e = read_avp-Round h info r f k e
on_info-Round h r (err x) f k e = elim (Bool-cases (is_mandatory h)) [
  | inl m ↦ cc (rw (m, on_info) at e)
  | inr m ↦
      let made = rw (m, on_info) at e in
      let ignored : IsIgnored h = record { header_fits = f; optional = m; why = x; unknown = k } in
      skipped h ignored (cc made) (ap (λ y. write_header h ++ y) (cc made))
]
on_info-Round h r (panic x) f k e = cc
on_info-Round h r stuck f k e = cc

parse_round-Round :
    (b : Bytes) {o : Option Avp} {r : Bytes}
    → All IsByte b
    → parse_round b ≡ ok (o, r)
    → Round b o r
unfolding parse_round read_header
parse_round-Round (a ∷ b ∷ c ∷ d ∷ e ∷ f ∷ rest) {o} {r} w h =
    subst (λ x. Round x o r) same (on_info-Round hd rest _ fits refl h)
  where
    hd : AvpHeader
    hd = record { flag_len = from_be16 a b; vendor_id = from_be16 c d; avp_type = from_be16 e f }

    fits : IsHeader hd
    fits = omega arith

    same : write_header hd ++ rest ≡ a ∷ b ∷ c ∷ d ∷ e ∷ f ∷ rest
    same = unfold write_header in ground arith
parse_round-Round _ w h = cc

-- what the loop has found once a round's find is put in front of it
Found : Bytes → List Avp → List Avp → Type 0
Found b acc avps = (found : List Avp) × (avps ≡ acc ++ found) × Holds b found

Found-Round :
    (b r : Bytes) (o : Option Avp) (acc avps : List Avp)
    → Round b o r
    → Found r (append_some acc o) avps
    → Found b acc avps
unfolding Found
Found-Round b r none acc avps (skipped h g _ e) (found, same, holds) =
    (found, same, skip h r g e holds)
Found-Round b r none acc avps (taken a w k e) _ = cc
Found-Round b r (some a) acc avps (skipped h g k e) _ = cc
Found-Round b r (some a) acc avps (taken a' w k e) (found, same, holds) =
    let a≡a' : a ≡ a' = cc in
    (a ∷ found, same ∙ append_assoc acc (a ∷ []) found, rw a≡a' (avp a' r w e holds))

Round-IsByte : (b r : Bytes) (o : Option Avp) → Round b o r → All IsByte b → All IsByte r
Round-IsByte b r o (skipped h g k e) w =
    All-append_right IsByte (write_header h) r (subst (All IsByte) e w)
Round-IsByte b r o (taken a g k e) w =
    All-append_right IsByte (write_avp a) r (subst (All IsByte) e w)

parse_loop_short :
    (f : ℕ) (b : Bytes) (acc avps : List Avp)
    → length b < 6
    → parse_loop f b acc ≡ ok avps
    → Found b acc avps
unfolding Found
parse_loop_short f b acc avps h e =
    let done = parse_loop_done f b acc h in ([], cc (done, append-nil acc), end h)

parse_loop_out : (b : Bytes) (acc : List Avp) → 6 ≤ length b → parse_loop 0 b acc ≡ stuck
unfolding parse_loop
parse_loop_out b acc h = rw (le→ltb (length b) 6 h)

parse_loop_sound :
    (f : ℕ) (b : Bytes) (acc avps : List Avp)
    → All IsByte b
    → parse_loop f b acc ≡ ok avps
    → Found b acc avps
parse_loop_sound zero b acc avps w e = elim (Bool-cases (ltb (length b) 6)) [
  | inl short ↦ parse_loop_short 0 b acc avps (ltb→lt _ _ short) e
  | inr long ↦ cc (parse_loop_out b acc (ltb→le _ _ long))
]
parse_loop_sound (suc f) b acc avps w e = elim (Bool-cases (ltb (length b) 6)) [
  | inl short ↦ parse_loop_short (suc f) b acc avps (ltb→lt _ _ short) e
  | inr long ↦
      let more = sym (parse_loop_more f b acc (ltb→le _ _ long)) ∙ e in
      let ((o, r), this, later) = >>=-eq-ok (parse_round b) _ more in
      let round = parse_round-Round b w this in
      Found-Round b r o acc avps round
        (parse_loop_sound f r (append_some acc o) avps (Round-IsByte b r o round w) later)
]

-- On a buffer of bytes, `parseAVPBuffer` returns exactly the AVPs that the buffer holds, and no
-- result where it holds none.
pub parse_avp_buffer_iff :
    (b : Bytes) (avps : List Avp)
    → All IsByte b
    → (parse_avp_buffer b ≡ ok avps) ↔ (Holds b avps × (avps ≢ []))
unfolding parse_avp_buffer some_avps Found
parse_avp_buffer_iff b avps w = (sound, complete avps)
  where
    kept : (l : List Avp) → some_avps l ≡ ok avps → (l ≡ avps) × (avps ≢ [])
    kept [] e = cc
    kept (a ∷ l) e = (cc, λ n. cc)

    sound : parse_avp_buffer b ≡ ok avps → Holds b avps × (avps ≢ [])
    sound e =
        let (l, run, last) = >>=-eq-ok (parse_loop (length b) b []) some_avps e in
        let (same, ne) = kept l last in
        let (found, eq, holds) = parse_loop_sound (length b) b [] l w run in
        (subst (Holds b) (sym eq ∙ same) holds, ne)

    complete : (l : List Avp) → Holds b l × (l ≢ []) → parse_avp_buffer b ≡ ok l
    complete [] (h, ne) = absurd (ne refl)
    complete (a ∷ l) (h, ne) = rw (parse_loop-Holds [] (length b) h (omega arith))
