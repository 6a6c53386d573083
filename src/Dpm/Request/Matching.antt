-- ===== src/Dpm/Request/Matching.antt =====
-- What `pdbs_dpm_evaluate_capability` chooses from the PDOs of a source.
use mathlib.Core.Path.{subst}
use usb_pd_firmware.Prelude.{
  ℕ, zero, suc, ◌+◌, ◌≤◌, ◌<◌, ◌≡◌, ap, ◌∙◌, inl, inr, true, Option, none, some, if◌then◌else◌,
  Bool-cases, Option-cases, arith, ◌>>=◌, >>=-eq-some,
}
use usb_pd_firmware.Pd.{
  PdMsg, obj_at, numobj_get, pdo_type, pdo_type_fixed, pdo_type_augmented, apdo_type, apdo_type_pps,
  src_fixed_current_get, src_fixed_voltage_get, mv2pdv, mv2pav, pps_max_voltage_get,
  pps_min_voltage_get,
}
use usb_pd_firmware.Config.{PdbsConfig}
use usb_pd_firmware.Dpm.{
  flags_hv_preferred, is_in_range, range_up, range_down, dpm_get_range_fixed_pdo_index,
}
use usb_pd_firmware.Dpm.Request.{
  Choice, fixed, pps, range, nothing, is_fixed_match, is_pps_match, match_pdo, or_range, choose,
}

-- What holds of a choice: the PDO is one of the source's, of the right kind, and its voltage and
-- current are those wanted.
abbrev pub Suits : PdMsg → PdbsConfig → ℕ → ℕ → Choice → Type 0
Suits caps scfg voltage current (fixed i) =
    (i < numobj_get caps)
    × (pdo_type (obj_at caps i) ≡ pdo_type_fixed)
    × (src_fixed_voltage_get (obj_at caps i) ≡ mv2pdv voltage)
    × (current ≤ src_fixed_current_get (obj_at caps i))
Suits caps scfg voltage current (pps i) =
    (i < numobj_get caps)
    × (pdo_type (obj_at caps i) ≡ pdo_type_augmented)
    × (apdo_type (obj_at caps i) ≡ apdo_type_pps)
    × (pps_min_voltage_get (obj_at caps i) ≤ mv2pav scfg.v)
    × (mv2pav scfg.v ≤ pps_max_voltage_get (obj_at caps i))
Suits caps scfg voltage current (range i) =
    (i < numobj_get caps)
    × (pdo_type (obj_at caps i) ≡ pdo_type_fixed)
    × (mv2pdv scfg.vmin ≤ src_fixed_voltage_get (obj_at caps i))
    × (src_fixed_voltage_get (obj_at caps i) ≤ mv2pdv scfg.vmax)
Suits caps scfg voltage current nothing = Unit

match_pdo-Suits :
    (caps : PdMsg) (scfg : PdbsConfig) (voltage current n i : ℕ)
    → i + n ≡ numobj_get caps
    → Suits caps scfg voltage current (match_pdo caps scfg voltage current n i)
unfolding match_pdo
match_pdo-Suits caps scfg voltage current zero i h = tt
match_pdo-Suits caps scfg voltage current (suc n) i h =
    let rest = match_pdo-Suits caps scfg voltage current n (i + 1) (omega arith) in
    elim (Bool-cases (is_fixed_match voltage current (obj_at caps i))) [
      | inl is_fixed ↦ rw (is_fixed, match_pdo) (ground arith)
      | inr not_fixed ↦ elim (Bool-cases (is_pps_match scfg current (obj_at caps i))) [
        | inl is_pps ↦ rw (not_fixed, is_pps, match_pdo) (ground arith)
        | inr not_pps ↦ rw (not_fixed, not_pps, match_pdo) rest
      ]
    ]

-- What the search of the voltage range finds, in either direction.
abbrev InRange : PdMsg → PdbsConfig → Option ℕ → Type 0
InRange caps scfg none = Unit
InRange caps scfg (some i) = Suits caps scfg 0 0 (range i)

is_in_range-InRange :
    (caps : PdMsg) (scfg : PdbsConfig) (i : ℕ)
    → i < numobj_get caps
    → is_in_range caps scfg i ≡ some true
    → InRange caps scfg (some i)
unfolding is_in_range
is_in_range-InRange caps scfg i lt h = ground arith

-- One round of either loop.
round-InRange :
    (caps : PdMsg) (scfg : PdbsConfig) (i : ℕ) (rest : Option (Option ℕ)) (at : Option ℕ)
    → i < numobj_get caps
    → (rest ≡ some at → InRange caps scfg at)
    → (is_in_range caps scfg i >>= λ found. if found then some (some i) else rest) ≡ some at
    → InRange caps scfg at
round-InRange caps scfg i rest at lt later e =
    let made = >>=-eq-some (is_in_range caps scfg i) _ e in
    elim (Bool-cases made.0) [
      | inl here ↦
          let same : some i ≡ at = ground (arith, made.2, here) in
          subst (InRange caps scfg) same
            (is_in_range-InRange caps scfg i lt (made.1 ∙ ap some here))
      | inr there ↦ later (ground (arith, made.2, there))
    ]

range_up-InRange :
    (caps : PdMsg) (scfg : PdbsConfig) (n i : ℕ) (at : Option ℕ)
    → i + n ≡ numobj_get caps
    → range_up caps scfg n i ≡ some at
    → InRange caps scfg at
unfolding range_up
range_up-InRange caps scfg zero i none h e = tt
range_up-InRange caps scfg zero i (some j) h e = cc
range_up-InRange caps scfg (suc n) i at h e =
    round-InRange caps scfg i (range_up caps scfg n (i + 1)) at (omega arith)
      (range_up-InRange caps scfg n (i + 1) at (omega arith)) e

range_down-InRange :
    (caps : PdMsg) (scfg : PdbsConfig) (i : ℕ) (at : Option ℕ)
    → i ≤ numobj_get caps
    → range_down caps scfg i ≡ some at
    → InRange caps scfg at
unfolding range_down
range_down-InRange caps scfg zero none h e = tt
range_down-InRange caps scfg zero (some j) h e = cc
range_down-InRange caps scfg (suc i) at h e =
    round-InRange caps scfg i (range_down caps scfg i) at h
      (range_down-InRange caps scfg i at (omega arith)) e

-- An index that `dpm_get_range_fixed_pdo_index` returns is that of a fixed PDO of the source with
-- its voltage in the configured range, whichever way it looks.
pub range_index-InRange :
    (caps : PdMsg) (scfg : PdbsConfig) (at : Option ℕ)
    → dpm_get_range_fixed_pdo_index caps scfg ≡ some at
    → InRange caps scfg at
unfolding dpm_get_range_fixed_pdo_index
range_index-InRange caps scfg at h = elim (Bool-cases (flags_hv_preferred scfg)) [
  | inl high ↦
      range_down-InRange caps scfg (numobj_get caps) at (omega arith) (ground (arith, high))
  | inr low ↦ range_up-InRange caps scfg (numobj_get caps) 0 at (omega arith) (ground (arith, low))
]

or_range-Suits :
    (caps : PdMsg) (scfg : PdbsConfig) (voltage current : ℕ) (m c : Choice)
    → Suits caps scfg voltage current m
    → or_range caps scfg m ≡ some c
    → Suits caps scfg voltage current c
unfolding or_range
or_range-Suits caps scfg voltage current (fixed i) c h e =
    let same : fixed i ≡ c = cc in subst (Suits caps scfg voltage current) same h
or_range-Suits caps scfg voltage current (pps i) c h e =
    let same : pps i ≡ c = cc in subst (Suits caps scfg voltage current) same h
or_range-Suits caps scfg voltage current (range i) c h e =
    let same : range i ≡ c = cc in subst (Suits caps scfg voltage current) same h
or_range-Suits caps scfg voltage current nothing c h e =
    let made = >>=-eq-some (dpm_get_range_fixed_pdo_index caps scfg) _ e in
    elim (Option-cases made.0) [
      | inl none_found ↦
          let same : nothing ≡ c = ground (arith, made.2, none_found) in
          subst (Suits caps scfg voltage current) same tt
      | inr (i, found) ↦
          let same : range i ≡ c = ground (arith, made.2, found) in
          subst (Suits caps scfg voltage current) same
            (range_index-InRange caps scfg (some i) (made.1 ∙ ap some found))
    ]

-- Whatever is chosen suits: a match is a PDO that the source offers, of the profile's voltage (a
-- fixed one) or with the configured voltage in its limits (a PPS APDO); else it is a fixed PDO in
-- the configured range.
pub choose-Suits :
    (caps : PdMsg) (scfg : PdbsConfig) (voltage current : ℕ) (c : Choice)
    → choose caps (some scfg) true voltage current ≡ some c
    → Suits caps scfg voltage current c
unfolding choose
choose-Suits caps scfg voltage current c e =
    or_range-Suits caps scfg voltage current _ c
      (match_pdo-Suits caps scfg voltage current (numobj_get caps) 0 (omega arith)) e
