-- ===== src/Shell/Range.antt =====
-- The settings that the commands of src/shell.c accept, and that each keeps to them.
use mathlib.Core.Option
use usb_pd_firmware.Prelude.{
  ℕ, ◌*◌, ◌≤◌, ◌<◌, ◌%◌, ◌^◌, bit_or, ◌≡◌, refl, ◌∙◌, List, [], ◌∷◌, ◌⊎◌, inl, inr, true, false,
  Bool, ltb, Bool-cases, Option-cases, some, arith,
}
use usb_pd_firmware.Bits.{field, field-bit_or_right}
use usb_pd_firmware.Pd.{ma2pdi, mw2cw, mo2co, mv_max, ma_max, mw_max, mo_min, mo_max}
use usb_pd_firmware.Config.{PdbsConfig, FlashHw, status_valid}
use usb_pd_firmware.Dpm.{current_defn}
use usb_pd_firmware.Shell.{
  Libc, cmd_clear_flags, cmd_toggle_giveback, cmd_toggle_hv_preferred, cmd_set_v, cmd_set_vrange,
  cmd_set_i, cmd_set_p, cmd_set_r, Long, pos, negsuc, number, clear_field, toggle, set_voltage,
  set_range, set_current,
}

-- A current up to 5 A, a power up to 100 W, or a resistance from 0.5 ohms.
abbrev pub Limits : ℕ → ℕ → Type 0
Limits defn n =
    ((defn ≡ 0) × (n ≤ 500)) ⊎ ((defn ≡ 1) × (n ≤ 10000)) ⊎ ((defn ≡ 2) × (50 ≤ n) × (n ≤ 65535))

pub record InRange (c : PdbsConfig) : Type 0 where
  pub valid : c.status ≡ status_valid
  pub voltage : c.v ≤ 21000
  pub ordered : c.vmin ≤ c.vmax
  pub highest : c.vmax ≤ 21000
  pub current : Limits (current_defn c) c.i

-- The argument that a range check lets through.
number-some : (lo hi : ℕ) (l : Long × Bool) (n : ℕ) → number lo hi l ≡ some n → (lo ≤ n) × (n ≤ hi)
number-some lo hi (pos m, true) n h = ground arith
number-some lo hi (pos m, false) n h = ground arith
number-some lo hi (negsuc m, r) n h = cc

-- Toggling or clearing one of the low three bits leaves the two above them.
toggle_defn :
    (x : ℕ) → (field (toggle x 0) 3 2 ≡ field x 3 2) × (field (toggle x 2) 3 2 ≡ field x 3 2)
toggle_defn x = (ground arith, ground arith)

clear_defn : (x : ℕ) → field (clear_field x 0 3) 3 2 ≡ field x 3 2
clear_defn x = omega arith

cleared_defn : (x : ℕ) → field (clear_field x 3 2) 3 2 ≡ 0
cleared_defn x = omega arith

set_defn : (x d : ℕ) → d < 3 → field (bit_or (clear_field x 3 2) (d * 2 ^ 3)) 3 2 ≡ d
set_defn x d h =
    field-bit_or_right (clear_field x 3 2) (d * 2 ^ 3) 3 2 (cleared_defn x) ∙ omega arith

set_voltage-InRange :
    (l : Long × Bool) (c : PdbsConfig) → InRange c → InRange (set_voltage (number 0 mv_max l) c)
set_voltage-InRange l c ok = elim (Option-cases (number 0 mv_max l)) [
  | inl bad ↦ rw bad ok
  | inr (n, good) ↦
      let bounds : (0 ≤ n) × (n ≤ mv_max) = number-some 0 mv_max l n good in
      rw good (record {
        valid = ok.valid;
        voltage = omega (arith, bounds.1);
        ordered = ok.ordered;
        highest = ok.highest;
        current = ok.current;
      })
]

set_range-InRange :
    (l m : Long × Bool) (c : PdbsConfig)
    → InRange c
    → InRange (set_range (number 0 mv_max l) (number 0 mv_max m) c)
set_range-InRange l m c ok = elim (Option-cases (number 0 mv_max l)) [
  | inl bad ↦ rw bad ok
  | inr (lo, low) ↦ elim (Option-cases (number 0 mv_max m)) [
    | inl bad ↦ rw (low, bad) ok
    | inr (hi, high) ↦
        rw (low, high)
          (elim (Bool-cases (ltb hi lo)) [
            | inl crossed ↦ rw crossed ok
            | inr fine ↦
                let top : (0 ≤ hi) × (hi ≤ mv_max) = number-some 0 mv_max m hi high in
                let sorted : lo ≤ hi = ground arith in
                rw fine (record {
                  valid = ok.valid;
                  voltage = ok.voltage;
                  ordered = omega (arith, top.1);
                  highest = omega (arith, top.1);
                  current = ok.current;
                })
          ])
  ]
]

-- A command that converts its number to the unit of the current's kind.
set_current-InRange :
    (d lo hi : ℕ) (unit : ℕ → ℕ) (l : Long × Bool) (c : PdbsConfig)
    → d < 3
    → ((n : ℕ) → lo ≤ n → n ≤ hi → Limits d (unit n % 2 ^ 16))
    → InRange c
    → InRange (set_current d (Option.map unit (number lo hi l)) c)
set_current-InRange d lo hi unit l c small fits ok = elim (Option-cases (number lo hi l)) [
  | inl bad ↦ rw bad ok
  | inr (n, good) ↦
      let bounds : (lo ≤ n) × (n ≤ hi) = number-some lo hi l n good in
      rw good (record {
        valid = ok.valid;
        voltage = ok.voltage;
        ordered = ok.ordered;
        highest = ok.highest;
        current = rw (set_defn c.flags d small) (fits n bounds.0 bounds.1);
      })
]

with_flags-InRange :
    (x : ℕ) (c : PdbsConfig)
    → field x 3 2 ≡ current_defn c
    → InRange c
    → InRange (record c { flags = x })
with_flags-InRange x c same ok = record {
  valid = ok.valid;
  voltage = ok.voltage;
  ordered = ok.ordered;
  highest = ok.highest;
  current = rw same ok.current;
}

-- The commands on the buffer.
module _ {Arg : Type 0} (libc : Libc Arg) (hw : FlashHw) where
  pub set_i-InRange :
      (args : List Arg) (c : PdbsConfig) → InRange c → InRange (cmd_set_i libc hw args c)
  unfolding cmd_set_i
  set_i-InRange (a ∷ []) c ok =
      set_current-InRange 0 0 ma_max ma2pdi (libc.strtol a) c (omega arith)
        (λ n lo hi. inl (refl, omega arith)) ok
  set_i-InRange [] c ok = ok
  set_i-InRange (a ∷ b ∷ rest) c ok = ok

  pub set_p-InRange :
      (args : List Arg) (c : PdbsConfig) → InRange c → InRange (cmd_set_p libc hw args c)
  unfolding cmd_set_p
  set_p-InRange (a ∷ []) c ok =
      set_current-InRange 1 0 mw_max mw2cw (libc.strtol a) c (omega arith)
        (λ n lo hi. inr (inl (refl, omega arith))) ok
  set_p-InRange [] c ok = ok
  set_p-InRange (a ∷ b ∷ rest) c ok = ok

  pub set_r-InRange :
      (args : List Arg) (c : PdbsConfig) → InRange c → InRange (cmd_set_r libc hw args c)
  unfolding cmd_set_r
  set_r-InRange (a ∷ []) c ok =
      set_current-InRange 2 mo_min mo_max mo2co (libc.strtol a) c (omega arith)
        (λ n lo hi. inr (inr (refl, omega arith, omega arith))) ok
  set_r-InRange [] c ok = ok
  set_r-InRange (a ∷ b ∷ rest) c ok = ok

  pub set_v-InRange :
      (args : List Arg) (c : PdbsConfig) → InRange c → InRange (cmd_set_v libc hw args c)
  unfolding cmd_set_v
  set_v-InRange (a ∷ []) c ok = set_voltage-InRange (libc.strtol a) c ok
  set_v-InRange [] c ok = ok
  set_v-InRange (a ∷ b ∷ rest) c ok = ok

  pub set_vrange-InRange :
      (args : List Arg) (c : PdbsConfig) → InRange c → InRange (cmd_set_vrange libc hw args c)
  unfolding cmd_set_vrange
  set_vrange-InRange (a ∷ b ∷ []) c ok = set_range-InRange (libc.strtol a) (libc.strtol b) c ok
  set_vrange-InRange [] c ok = ok
  set_vrange-InRange (a ∷ []) c ok = ok
  set_vrange-InRange (a ∷ b ∷ d ∷ rest) c ok = ok

  pub clear_flags-InRange :
      (args : List Arg) (c : PdbsConfig) → InRange c → InRange (cmd_clear_flags libc hw args c)
  unfolding cmd_clear_flags
  clear_flags-InRange [] c ok = with_flags-InRange _ c (clear_defn c.flags) ok
  clear_flags-InRange (a ∷ rest) c ok = ok

  pub giveback-InRange :
      (args : List Arg) (c : PdbsConfig) → InRange c → InRange (cmd_toggle_giveback libc hw args c)
  unfolding cmd_toggle_giveback
  giveback-InRange [] c ok = with_flags-InRange _ c (toggle_defn c.flags).0 ok
  giveback-InRange (a ∷ rest) c ok = ok

  pub hv_preferred-InRange :
      (args : List Arg) (c : PdbsConfig)
      → InRange c
      → InRange (cmd_toggle_hv_preferred libc hw args c)
  unfolding cmd_toggle_hv_preferred
  hv_preferred-InRange [] c ok = with_flags-InRange _ c (toggle_defn c.flags).1 ok
  hv_preferred-InRange (a ∷ rest) c ok = ok
