-- ===== src/Prelude/Result.antt =====
-- The outcome of a Go call that returns a value and an error: the value, the error, a panic, or
-- no outcome at all. `stuck` is no Go value: it says that a loop ran out of the fuel it was given.
use mathlib.Core.Path.{◌≡◌, refl}
use mathlib.Core.Logic.{◌≢◌}
use go_l2tp_debian.Prelude.{Bool, true, false, if◌then◌else◌}

-- Errors are told apart by the message that creates them. A wrapped error keeps the inner one.
pub data Error : Type 0 where
  -- encoding/binary: nothing, or too little, was left to read
  eof unexpected_eof : Error
  -- avp.go
  unrecognised_avp_type : Error
  mandatory_avp : Error → Error
  avp_exceeds_buffer no_avps unsupported_avp wrong_data_type payload_too_long : Error
  unhandled_data_type not_of_data_type avp_not_found : Error
  decode_failed : Error → Error
  -- msg.go
  no_message_spec illegal_version missing_avp unexpected_avp first_avp_not_message : Error
  malformed_header tid_out_of_range sid_out_of_range : Error
  create_failed : Error → Error
  -- transport.go
  invalid_sequence retries_exhausted shut_down_by_user receive_path_error : Error
  build_failed validate_failed : Error → Error
  write_failed nil_control_plane : Error
  -- fsm.go
  no_transition : Error
  -- l2tp.go
  nil_config name_taken id_taken no_host_name config_out_of_range no_address id_space_exhausted :
      Error
  resolve_failed unhandled_address_family unrecognised_encapsulation : Error
  address_failed id_failed : Error → Error
  -- l2tp_dynamic_tunnel.go
  unhandled_version_error version_unsupported socket_failed tunnel_closing shutting_down : Error
  -- pppoe.go
  no_tag unrecognised_code nonzero_session_id zero_session_id too_few_tags : Error
  missing_mandatory_tag malformed_tag malformed_packet : Error
  tags_failed packet_invalid packet_failed : Error → Error
  -- cmd/kpppoed/kpppoed.go
  unavailable_service session_space_exhausted spawn_failed unrecognised_session : Error
  unexpected_packet unhandled_code not_of_type repeated_parameter unrecognised_parameter : Error
  parameter_missing : Error
  session_id_failed : Error → Error
  -- config/config.go
  not_a_bool not_a_string not_an_array value_out_of_range unexpected_type unknown_name : Error
  bad_mac_length not_named : Error
  parameter_failed session_failed tunnel_failed tunnels_failed : Error → Error
  -- internal/nll2tp/nll2tp.go
  zero_id bad_version bad_encap id_too_large bad_pseudowire bad_cookie_length bad_l2spec : Error
  bad_fd bad_address bad_port connection_closed : Error

pub data Panic : Type 0 where
  slice_bounds index_out_of_range unhandled_version invalid_message message_type_undecodable : Panic
  callback_arguments send_on_closed_channel close_of_closed_channel nil_dereference : Panic
  unexpected_address_length : Panic

pub data Result {ℓ} (A : Type ℓ) : Type ℓ where
  ok : A → Result A
  err : Error → Result A
  panic : Panic → Result A
  stuck : Result A

infixl 5 ◌>>=◌ ◌>>◌
abbrev pub ◌>>=◌ {ℓ κ} : {A : Type ℓ} {B : Type κ} → Result A → (A → Result B) → Result B
ok a >>= f = f a
err e >>= f = err e
panic p >>= f = panic p
stuck >>= f = stuck

abbrev pub ◌>>◌ {ℓ} : {B : Type ℓ} → Result (Unit {0}) → Result B → Result B
m >> k = m >>= λ _. k

-- `fmt.Errorf("...: %v", err)`
abbrev pub wrap {ℓ} : {A : Type ℓ} → (Error → Error) → Result A → Result A
wrap f (ok a) = ok a
wrap f (err e) = err (f e)
wrap f (panic p) = panic p
wrap f stuck = stuck

abbrev pub map_ok {ℓ κ} : {A : Type ℓ} {B : Type κ} → (A → B) → Result A → Result B
map_ok f (ok a) = ok (f a)
map_ok f (err e) = err e
map_ok f (panic p) = panic p
map_ok f stuck = stuck

-- what ran before a result, and what came of it
pub >>=-eq-ok {κ ℓ} :
    {T : Type κ} {U : Type ℓ} (first : Result T) (next : T → Result U) {out : U}
    → (first >>= next) ≡ ok out
    → (mid : T) × (first ≡ ok mid) × (next mid ≡ ok out)
>>=-eq-ok (ok mid) next ran = (mid, refl, ran)
>>=-eq-ok (panic p) next ran = cc
>>=-eq-ok (err e) next ran = cc
>>=-eq-ok stuck next ran = cc

pub wrap-eq-ok {ℓ} :
    {A : Type ℓ} (f : Error → Error) (m : Result A) {a : A} → wrap f m ≡ ok a → m ≡ ok a
wrap-eq-ok f (ok a) h = h
wrap-eq-ok f (err e) h = cc
wrap-eq-ok f (panic p) h = cc
wrap-eq-ok f stuck h = cc

pub map_ok-eq-ok {ℓ κ} :
    {A : Type ℓ} {B : Type κ} (f : A → B) (m : Result A) {b : B}
    → map_ok f m ≡ ok b
    → (a : A) × (m ≡ ok a) × (f a ≡ b)
map_ok-eq-ok f (ok a) h = (a, refl, cc)
map_ok-eq-ok f (err e) h = cc
map_ok-eq-ok f (panic p) h = cc
map_ok-eq-ok f stuck h = cc

-- where no part runs out of fuel, neither does the whole
pub bind_not_stuck {ℓ κ} :
    {A : Type ℓ} {B : Type κ} (m : Result A) (f : A → Result B)
    → m ≢ stuck
    → ((a : A) → m ≡ ok a → f a ≢ stuck)
    → (m >>= f) ≢ stuck
bind_not_stuck (ok a) f h k e = k a refl e
bind_not_stuck (err x) f h k e = cc
bind_not_stuck (panic p) f h k e = cc
bind_not_stuck stuck f h k e = h refl

pub map_ok_not_stuck {ℓ κ} :
    {A : Type ℓ} {B : Type κ} (f : A → B) (m : Result A) → m ≢ stuck → map_ok f m ≢ stuck
map_ok_not_stuck f (ok a) h e = cc
map_ok_not_stuck f (err x) h e = cc
map_ok_not_stuck f (panic p) h e = cc
map_ok_not_stuck f stuck h e = h refl

-- two ways to go on that agree on what the first part returns
pub bind-ext {ℓ κ} :
    {A : Type ℓ} {B : Type κ} (m : Result A) (f g : A → Result B)
    → ((a : A) → m ≡ ok a → f a ≡ g a)
    → (m >>= f) ≡ (m >>= g)
bind-ext (ok a) f g h = h a refl
bind-ext (err x) f g h = refl
bind-ext (panic p) f g h = refl
bind-ext stuck f g h = refl

pub bind-map_ok {ℓ κ μ} :
    {A : Type ℓ} {B : Type κ} {C : Type μ} (m : Result A) (f : A → Result B) (g : B → C)
    → (m >>= λ a. map_ok g (f a)) ≡ map_ok g (m >>= f)
bind-map_ok (ok a) f g = refl
bind-map_ok (err x) f g = refl
bind-map_ok (panic p) f g = refl
bind-map_ok stuck f g = refl

pub map_ok-map_ok {ℓ κ μ} :
    {A : Type ℓ} {B : Type κ} {C : Type μ} (f : A → B) (g : B → C) (m : Result A)
    → map_ok g (map_ok f m) ≡ map_ok (λ a. g (f a)) m
map_ok-map_ok f g (ok a) = refl
map_ok-map_ok f g (err x) = refl
map_ok-map_ok f g (panic p) = refl
map_ok-map_ok f g stuck = refl

-- what holds of the value, where there is one
abbrev pub IfOk {ℓ κ} : {A : Type ℓ} → (A → Type κ) → Result A → Type κ
IfOk P (ok a) = P a
IfOk P _ = Unit

pub IfOk-bind {ℓ κ μ} :
    {A : Type ℓ} {B : Type κ} (P : B → Type μ) (m : Result A) (f : A → Result B)
    → IfOk (λ a. IfOk P (f a)) m
    → IfOk P (m >>= f)
IfOk-bind P (ok a) f h = h
IfOk-bind P (err e) f h = tt
IfOk-bind P (panic p) f h = tt
IfOk-bind P stuck f h = tt

pub IfOk-map {ℓ κ μ} :
    {A : Type ℓ} (P : A → Type κ) (Q : A → Type μ) (m : Result A)
    → ((a : A) → P a → Q a)
    → IfOk P m
    → IfOk Q m
IfOk-map P Q (ok a) f h = f a h
IfOk-map P Q (err e) f h = tt
IfOk-map P Q (panic p) f h = tt
IfOk-map P Q stuck f h = tt

pub IfOk-any {ℓ κ} : {A : Type ℓ} (P : A → Type κ) (m : Result A) → ((a : A) → P a) → IfOk P m
IfOk-any P (ok a) f = f a
IfOk-any P (err e) f = tt
IfOk-any P (panic p) f = tt
IfOk-any P stuck f = tt

pub IfOk-if {ℓ κ} :
    {A : Type ℓ} (P : A → Type κ) (b : Bool) (x y : Result A)
    → IfOk P x
    → IfOk P y
    → IfOk P (if b then x else y)
IfOk-if P true x y h k = h
IfOk-if P false x y h k = k

-- whatever the first part returns
pub IfOk-then {ℓ κ μ} :
    {A : Type ℓ} {B : Type κ} (P : B → Type μ) (m : Result A) (f : A → Result B)
    → ((a : A) → IfOk P (f a))
    → IfOk P (m >>= f)
IfOk-then P m f h = IfOk-bind P m f (IfOk-any _ m h)

pub IfOk-wrap {ℓ κ} :
    {A : Type ℓ} (P : A → Type κ) (f : Error → Error) (m : Result A) → IfOk P m → IfOk P (wrap f m)
IfOk-wrap P f (ok a) h = h
IfOk-wrap P f (err e) h = tt
IfOk-wrap P f (panic p) h = tt
IfOk-wrap P f stuck h = tt

-- with what the test says
pub IfOk-test {ℓ κ} :
    {A : Type ℓ} (P : A → Type κ) (b : Bool) (x y : Result A)
    → (b ≡ true → IfOk P x)
    → (b ≡ false → IfOk P y)
    → IfOk P (if b then x else y)
IfOk-test P true x y h k = h refl
IfOk-test P false x y h k = k refl
