-- ===== src/Shell/Print/ReadBack.antt =====
-- The text that src/shell.c prints of a power data object tells the object.
use usb_pd_firmware.Prelude.{
  ℕ, ◌+◌, ◌*◌, ◌/◌, ◌^◌, ◌<◌, ◌≡◌, refl, ap, ◌∙◌, inl, inr, ◌&&◌, ltb, ◌==◌, Bool-cases, if_cases,
  if◌then◌else◌, List, [], ◌∷◌, ◌++◌, arith,
}
use usb_pd_firmware.Bits.{field}
use usb_pd_firmware.Pd.{pdo_type, pdo_type_fixed, pdo_type_augmented, apdo_type, apdo_type_pps}
use usb_pd_firmware.Shell.Print.{
  Item, pdo_label, fixed_supply, pps_supply, hex8, dual_role_pwr, usb_suspend, unconstrained_pwr,
  usb_comms, dual_role_data, unchunked_ext_msg, peak_i, volts, min_volts, max_volts, amperes,
  if_set, print_src_fixed_pdo, print_src_pps_apdo, print_src_pdo,
}

-- The bits that a text stands for, in a fixed supply: volts in units of 50 mV, amperes of 10 mA.
abbrev pub fixed_bits : Item → ℕ
fixed_bits (dual_role_pwr n) = n * 2 ^ 29
fixed_bits (usb_suspend n) = n * 2 ^ 28
fixed_bits (unconstrained_pwr n) = n * 2 ^ 27
fixed_bits (usb_comms n) = n * 2 ^ 26
fixed_bits (dual_role_data n) = n * 2 ^ 25
fixed_bits (unchunked_ext_msg n) = n * 2 ^ 24
fixed_bits (peak_i n) = n * 2 ^ 20
fixed_bits (volts w c) = (w * 100 + c) / 5 * 2 ^ 10
fixed_bits (amperes w c) = w * 100 + c
fixed_bits item = 0

-- In a programmable supply: volts in units of 100 mV, amperes of 50 mA.
abbrev pub pps_bits : Item → ℕ
pps_bits (min_volts w c) = (w * 100 + c) / 10 * 2 ^ 8
pps_bits (max_volts w c) = (w * 100 + c) / 10 * 2 ^ 17
pps_bits (amperes w c) = (w * 100 + c) / 5
pps_bits item = 0

pub total : (Item → ℕ) → List Item → ℕ
total bits [] = 0
total bits (x ∷ xs) = bits x + total bits xs

unfoldable pub read_back : List Item → ℕ
unfolding total
read_back (pdo_label i ∷ rest) = read_back rest
read_back (fixed_supply ∷ rest) = total fixed_bits rest
read_back (pps_supply ∷ rest) = 3 * 2 ^ 30 + total pps_bits rest
read_back (hex8 n ∷ rest) = n
read_back rest = 0

-- The bits that are not printed: the reserved ones, and in a programmable supply bit 27.
abbrev pub spare : ℕ → ℕ
spare pdo =
    if pdo_type pdo == pdo_type_fixed
    then field pdo 22 2 * 2 ^ 22
    else if pdo_type pdo == pdo_type_augmented && apdo_type pdo == apdo_type_pps
    then field pdo 25 3 * 2 ^ 25 + field pdo 16 1 * 2 ^ 16 + field pdo 7 1 * 2 ^ 7
    else 0

total-if_set :
    (bits : Item → ℕ) (item : ℕ → Item) (n k : ℕ) (rest : List Item)
    → bits (item n) ≡ n * k
    → total bits (if_set n item ++ rest) ≡ n * k + total bits rest
unfolding total
total-if_set bits item n k rest e = elim (Bool-cases (ltb 0 n)) [
  | inl set ↦ rw (set, e)
  | inr clear ↦ ground arith
]

read_fixed :
    (pdo : ℕ)
    → pdo < 2 ^ 32
    → pdo_type pdo ≡ pdo_type_fixed
    → read_back (print_src_fixed_pdo pdo) + field pdo 22 2 * 2 ^ 22 ≡ pdo
unfolding read_back print_src_fixed_pdo total
read_fixed pdo word kind =
    rw
      (
        total-if_set fixed_bits dual_role_pwr (field pdo 29 1) (2 ^ 29) _ refl,
        total-if_set fixed_bits usb_suspend (field pdo 28 1) (2 ^ 28) _ refl,
        total-if_set fixed_bits unconstrained_pwr (field pdo 27 1) (2 ^ 27) _ refl,
        total-if_set fixed_bits usb_comms (field pdo 26 1) (2 ^ 26) _ refl,
        total-if_set fixed_bits dual_role_data (field pdo 25 1) (2 ^ 25) _ refl,
        total-if_set fixed_bits unchunked_ext_msg (field pdo 24 1) (2 ^ 24) _ refl,
        total-if_set fixed_bits peak_i (field pdo 20 2) (2 ^ 20) _ refl,
      )
      (omega arith)

read_pps :
    (pdo : ℕ)
    → pdo < 2 ^ 32
    → pdo_type pdo ≡ pdo_type_augmented
    → apdo_type pdo ≡ apdo_type_pps
    → read_back (print_src_pps_apdo pdo)
        + (field pdo 25 3 * 2 ^ 25 + field pdo 16 1 * 2 ^ 16 + field pdo 7 1 * 2 ^ 7)
      ≡ pdo
unfolding read_back print_src_pps_apdo total
read_pps pdo word kind type = omega arith

read_hex : (pdo : ℕ) → read_back (hex8 pdo ∷ []) + 0 ≡ pdo
unfolding read_back
read_hex pdo = omega arith

read_back-if_set :
    (index : ℕ) (items : List Item) → read_back (if_set index pdo_label ++ items) ≡ read_back items
unfolding read_back
read_back-if_set index items =
    if_cases (λ label. read_back (label ++ items) ≡ read_back items) (ltb 0 index) (λ _. refl)
      (λ _. refl)

-- What is printed of a power data object, at any index, tells every bit of it that is not spare:
-- for a fixed supply, for a programmable one, and, as a number, for any other.
pub read_back-print_src_pdo :
    (pdo index : ℕ) → pdo < 2 ^ 32 → read_back (print_src_pdo pdo index) + spare pdo ≡ pdo
unfolding print_src_pdo
read_back-print_src_pdo pdo index word =
    ap (λ bits. bits + spare pdo) (read_back-if_set index _)
    ∙ elim (Bool-cases (pdo_type pdo == pdo_type_fixed)) [
      | inl fixed ↦ rw fixed (read_fixed pdo word (ground arith))
      | inr other ↦
          elim (Bool-cases (pdo_type pdo == pdo_type_augmented && apdo_type pdo == apdo_type_pps)) [
            | inl pps ↦ rw (other, pps) (read_pps pdo word (ground arith) (ground arith))
            | inr unknown ↦ rw (other, unknown) (read_hex pdo)
          ]
    ]
