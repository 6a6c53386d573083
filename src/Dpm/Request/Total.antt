-- ===== src/Dpm/Request/Total.antt =====
-- `pdbs_dpm_evaluate_capability` of src/device_policy_manager.c returns, and what it returns.
use usb_pd_firmware.Prelude.{
  ℕ, zero, suc, ◌+◌, ◌≤◌, ◌<◌, ◌≡◌, ◌⊎◌, inl, inr, Bool, true, false, Option, none, some, length,
  Bool-cases, Option-cases, arith, ◌==◌, Ends, Ends->>=, Ends-eq,
}
use usb_pd_firmware.Bits.{field}
use usb_pd_firmware.Pd.{
  PdMsg, numobj_get, pdv2mv, obj_at, pdo_type, pdo_type_fixed, src_fixed_voltage_get,
}
use usb_pd_firmware.Config.{PdbsConfig, config_read}
use usb_pd_firmware.Dpm.{
  Sink, current_defn, dpm_get_current, is_in_range, range_up, range_down,
  dpm_get_range_fixed_pdo_index,
}
use usb_pd_firmware.Dpm.Request.{
  Choice, fixed, pps, range, nothing, select_voltage, or_range, choose, build, update_capabilities,
  answer, pdbs_dpm_evaluate_capability,
}
use usb_pd_firmware.Dpm.Request.Answer.{IsRequest, evaluate_keeps_caps, evaluate-IsRequest}

-- A configuration whose current takes no division by the voltage: amperes, or a resistance that is
-- not zero.
abbrev pub Divides : Option PdbsConfig → Type 0
Divides none = Unit
Divides (some c) = (current_defn c ≡ 0) ⊎ ((current_defn c ≡ 2) × (0 < c.i))

abbrev Returns : {A : Type 0} → Option A → Type 0
Returns o = Ends (λ _. Unit {0}) o

module _ (caps : PdMsg) (scfg : PdbsConfig) (ok : Divides (some scfg)) where
  pub get_current-Returns : (mv : ℕ) → Returns (dpm_get_current scfg mv)
  unfolding dpm_get_current
  get_current-Returns mv = ground arith

  in_range-Returns : (i : ℕ) → Returns (is_in_range caps scfg i)
  unfolding is_in_range
  in_range-Returns i =
      let volts : ℕ = pdv2mv (src_fixed_voltage_get (obj_at caps i)) in
      let made = Ends-eq _ (dpm_get_current scfg volts) (get_current-Returns volts) in
      elim (Bool-cases (pdo_type (obj_at caps i) == pdo_type_fixed)) [
        | inl kind ↦ ground (arith, kind, made.1)
        | inr kind ↦ ground (arith, kind)
      ]

  range_up-Returns : (n i : ℕ) → Returns (range_up caps scfg n i)
  unfolding range_up
  range_up-Returns zero i = tt
  range_up-Returns (suc n) i =
      Ends->>= (λ _. Unit {0}) (λ _. Unit {0}) (is_in_range caps scfg i) _ (in_range-Returns i)
        (λ found _. elim (Bool-cases found) [
          | inl here ↦ ground (arith, here)
          | inr there ↦ ground (arith, there, range_up-Returns n (i + 1))
        ])

  range_down-Returns : (i : ℕ) → Returns (range_down caps scfg i)
  unfolding range_down
  range_down-Returns zero = tt
  range_down-Returns (suc i) =
      Ends->>= (λ _. Unit {0}) (λ _. Unit {0}) (is_in_range caps scfg i) _ (in_range-Returns i)
        (λ found _. elim (Bool-cases found) [
          | inl here ↦ ground (arith, here)
          | inr there ↦ ground (arith, there, range_down-Returns i)
        ])

  pub index-Returns : Returns (dpm_get_range_fixed_pdo_index caps scfg)
  unfolding dpm_get_range_fixed_pdo_index
  index-Returns =
      ground (arith, range_down-Returns (numobj_get caps), range_up-Returns (numobj_get caps) 0)

  or_range-Returns : (c : Choice) → Returns (or_range caps scfg c)
  unfolding or_range
  or_range-Returns (fixed i) = tt
  or_range-Returns (pps i) = tt
  or_range-Returns (range i) = tt
  or_range-Returns nothing =
      Ends->>= (λ _. Unit {0}) (λ _. Unit {0}) (dpm_get_range_fixed_pdo_index caps scfg) _
        index-Returns
        (λ at _. elim (Option-cases at) [
          | inl missing ↦ ground (arith, missing)
          | inr (i, found) ↦ ground (arith, found)
        ])

pub choose-Returns :
    (caps : PdMsg) (scfg : Option PdbsConfig) (enabled : Bool) (voltage current : ℕ)
    → Divides scfg
    → Returns (choose caps scfg enabled voltage current)
unfolding choose
choose-Returns caps none enabled voltage current ok = tt
choose-Returns caps (some scfg) false voltage current ok = tt
choose-Returns caps (some scfg) true voltage current ok = or_range-Returns caps scfg ok _

pub build-Returns :
    (caps : PdMsg) (scfg : Option PdbsConfig) (enabled : Bool) (current : ℕ) (c : Choice)
    → Divides scfg
    → Returns (build caps scfg enabled current c)
unfolding build
build-Returns caps none enabled current c ok = tt
build-Returns caps (some scfg) enabled current (fixed i) ok = tt
build-Returns caps (some scfg) enabled current (pps i) ok = tt
build-Returns caps (some scfg) enabled current nothing ok = tt
build-Returns caps (some scfg) enabled current (range i) ok =
    let volts : ℕ = pdv2mv (src_fixed_voltage_get (obj_at caps i)) in
    Ends->>= (λ _. Unit {0}) (λ _. Unit {0}) (dpm_get_current scfg volts) _
      (get_current-Returns caps scfg ok volts) (λ n _. tt)

pub evaluate-Returns :
    (t : ℕ) (caps request : PdMsg) (s : Sink)
    → Divides (config_read s.flash).0
    → Returns (pdbs_dpm_evaluate_capability t (some caps) request s)
unfolding pdbs_dpm_evaluate_capability answer update_capabilities
evaluate-Returns t caps request s ok =
    Ends->>= (λ _. Unit {0}) (λ _. Unit {0})
      (choose caps (config_read s.flash).0 s.dpm_data.output_enabled (select_voltage s.state).0 0) _
      (choose-Returns caps (config_read s.flash).0 s.dpm_data.output_enabled _ 0 ok)
      (λ c _.
        Ends->>= (λ _. Unit {0}) (λ _. Unit {0}) (build caps (config_read s.flash).0 _ 0 c) _
          (build-Returns caps (config_read s.flash).0 _ 0 c ok) (λ made _. tt))

-- The evaluation of new capabilities always returns, and what it returns is a proper request:
-- for any source that offers something, with a sink's header template, and a configuration whose
-- current takes no division by zero. It notes whether capabilities match, and keeps the
-- capabilities.
pub evaluate-IsRequest_new :
    (t : ℕ) (caps request : PdMsg) (s : Sink)
    → Divides (config_read s.flash).0
    → field t 0 5 ≡ 0
    → field t 12 3 ≡ 0
    → 0 < length request.obj
    → 1 ≤ numobj_get caps
    → Ends
        (λ a.
          IsRequest t caps (a.0) (a.1)
          × ((a.2).dpm_data.capability_match ≡ a.0)
          × ((a.2).dpm_data.capabilities ≡ some caps))
        (pdbs_dpm_evaluate_capability t (some caps) request s)
evaluate-IsRequest_new t caps request s ok no_type no_objects room one =
    let made =
      Ends-eq _ (pdbs_dpm_evaluate_capability t (some caps) request s)
        (evaluate-Returns t caps request s ok) in
    let kept = evaluate_keeps_caps t caps request s _ _ _ made.1 in
    let fine =
      evaluate-IsRequest t (some caps) request s _ _ _ caps no_type no_objects room made.1 kept
        one in
    rw made.1 (fine.0, fine.1, kept)
