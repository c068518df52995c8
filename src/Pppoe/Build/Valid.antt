-- ===== src/Pppoe/Build/Valid.antt =====
-- pppoe/pppoe.go: Validate on the packets that the package makes.
use go_l2tp_debian.Prelude.{ℕ, suc, ◌≡◌, ◌==◌, false, arith, refl}
use go_l2tp_debian.Prelude.Result.{ok, err, zero_session_id, missing_mandatory_tag}
use go_l2tp_debian.Prelude.Bytes.{Bytes}
use go_l2tp_debian.Pppoe.Packet.{HwAddr, validate}
use go_l2tp_debian.Pppoe.Build.{
  add_tag, add_service_name_error_tag, new_padi, new_pado, new_padr, new_pads, new_padt,
}

pub record MadeValid (src dst : HwAddr) (name ac : Bytes) (sid : ℕ) : Type 0 where
  pub padi : validate (new_padi src name) ≡ ok tt
  pub pado : validate (new_pado src dst name ac) ≡ ok tt
  pub padr : validate (new_padr src dst name) ≡ ok tt
  pub pads : validate (new_pads src dst name (suc sid)) ≡ ok tt
  pub pads_error :
      (reason : Bytes)
      → validate (add_service_name_error_tag reason (new_pads src dst name 0)) ≡ ok tt
  pub pads_refused : validate (new_pads src dst name 0) ≡ err missing_mandatory_tag
  pub padt : validate (new_padt src dst (suc sid)) ≡ ok tt
  pub padt_refused : validate (new_padt src dst 0) ≡ err zero_session_id

-- What NewPADI, NewPADO and NewPADR make passes Validate; what NewPADS and NewPADT make does so with
-- a nonzero session ID, and NewPADS with zero once a service name error tag is added; without it,
-- and for NewPADT with zero, Validate returns an error.
pub new_packets-MadeValid :
    (src dst : HwAddr) (name ac : Bytes) (sid : ℕ) → MadeValid src dst name ac sid
unfolding validate new_padi new_pado new_padr new_pads new_padt add_tag
new_packets-MadeValid src dst name ac sid =
    let nonzero : (suc sid == 0) ≡ false = ground arith in
    record {
      padi = refl;
      pado = refl;
      padr = refl;
      pads = ground (arith, nonzero);
      pads_error = λ reason. refl;
      pads_refused = refl;
      padt = ground (arith, nonzero);
      padt_refused = refl;
    }
