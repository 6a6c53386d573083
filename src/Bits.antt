-- ===== src/Bits.antt =====
-- Bit fields of machine words, as the shift and mask macros of lib/include/pd.h use them, and the
-- law by which a field of `a | b` is read.
pub mod Xor
use Prim.Native.Nat.{digits, bit_or-bitwise}
use native.Mathlib.Nat.{div-one, pow-succ', div-div-eq-div-mul, mod-one, mod-add-div}
use mathlib.Core.Path.{ap₂}
use usb_pd_firmware.Prelude.{
  sym, ℕ, zero, suc, ◌+◌, ◌*◌, ◌/◌, ◌%◌, ◌^◌, ◌≤◌, max, bit_or, ◌≡◌, refl, ap, ◌∙◌, arith, Bool,
  ◌==◌,
}

-- `(x & MASK) >> SHIFT` for the mask of `w` ones at `k`.
abbrev pub field : ℕ → ℕ → ℕ → ℕ
field x k w = x / 2 ^ k % 2 ^ w

-- `(v << SHIFT) & MASK`.
abbrev pub place : ℕ → ℕ → ℕ → ℕ
place v k w = v % 2 ^ w * 2 ^ k

-- `x & (1 << k)` as a condition.
abbrev pub flag : ℕ → ℕ → Bool
flag x k = field x k 1 == 1

abbrev or_digits : ℕ → ℕ → ℕ → ℕ
or_digits n a b = digits (λ b. b) max n a b

or_digits_fuel : (n m a b : ℕ) → a ≤ n → a ≤ m → or_digits n a b ≡ or_digits m a b
or_digits_fuel zero zero a b p q = refl
or_digits_fuel zero (suc m) zero b p q = refl
or_digits_fuel zero (suc m) (suc a) b p q = absurd (omega arith)
or_digits_fuel (suc n) zero zero b p q = refl
or_digits_fuel (suc n) zero (suc a) b p q = absurd (omega arith)
or_digits_fuel (suc n) (suc m) zero b p q = refl
or_digits_fuel (suc n) (suc m) (suc a) b p q =
    omega (arith, or_digits_fuel n m (suc a / 2) (b / 2) (omega arith) (omega arith))

pub zero-bit_or : (b : ℕ) → bit_or 0 b ≡ b
zero-bit_or b = bit_or-bitwise 0 b

bit_or_step : (a b : ℕ) → bit_or a b ≡ bit_or (a / 2) (b / 2) * 2 + max (a % 2) (b % 2)
bit_or_step zero b = omega (arith, zero-bit_or b, zero-bit_or (b / 2))
bit_or_step (suc a) b = omega (
  arith,
  bit_or-bitwise (suc a) b,
  bit_or-bitwise (suc a / 2) (b / 2),
  or_digits_fuel a (suc a / 2) (suc a / 2) (b / 2) (omega arith) (omega arith),
)

bit_or-zero_fuel : (n a : ℕ) → a ≤ n → bit_or a 0 ≡ a
bit_or-zero_fuel n zero h = refl
bit_or-zero_fuel zero (suc a) h = absurd (omega arith)
bit_or-zero_fuel (suc n) (suc a) h =
    omega (arith, bit_or_step (suc a) 0, bit_or-zero_fuel n (suc a / 2) (omega arith))

pub bit_or-zero : (a : ℕ) → bit_or a 0 ≡ a
bit_or-zero a = bit_or-zero_fuel a a (omega arith)

div-pow-suc : (a k : ℕ) → a / 2 ^ suc k ≡ a / 2 / 2 ^ k
div-pow-suc a k = rw (pow-succ' 2 k) (sym (div-div-eq-div-mul a 2 (2 ^ k)))

mod-pow-suc : (a k : ℕ) → a % 2 ^ suc k ≡ a / 2 % 2 ^ k * 2 + a % 2
mod-pow-suc a k = omega (arith, whole, mod-add-div (a / 2) (2 ^ k))
  where
    whole : a % 2 ^ suc k + 2 * 2 ^ k * (a / 2 / 2 ^ k) ≡ a
    whole = rw (← div-pow-suc a k, ← pow-succ' 2 k) (mod-add-div a (2 ^ suc k))

mod-pow-suc_half : (a k : ℕ) → a % 2 ^ suc k / 2 ≡ a / 2 % 2 ^ k
mod-pow-suc_half a k = omega (arith, mod-pow-suc a k)

bit_or-div : (k a b : ℕ) → bit_or a b / 2 ^ k ≡ bit_or (a / 2 ^ k) (b / 2 ^ k)
bit_or-div zero a b = div-one (bit_or a b) ∙ sym (ap₂ bit_or (div-one a) (div-one b))
bit_or-div (suc k) a b =
    rw
      (div-pow-suc a k, div-pow-suc b k, div-pow-suc (bit_or a b) k, ← bit_or-div k (a / 2) (b / 2))
      (ap (λ t. t / 2 ^ k) (omega (arith, bit_or_step a b)))

bit_or-mod : (k a b : ℕ) → bit_or a b % 2 ^ k ≡ bit_or (a % 2 ^ k) (b % 2 ^ k)
bit_or-mod zero a b =
    mod-one (bit_or a b) ∙ sym (ap₂ bit_or (mod-one a) (mod-one b) ∙ zero-bit_or 0)
bit_or-mod (suc k) a b = omega (
  arith,
  mod-pow-suc (bit_or a b) k,
  bit_or_step a b,
  ap (λ (t : ℕ). t % 2 ^ k) halves,
  bit_or-mod k (a / 2) (b / 2),
  mod-pow-suc a k,
  mod-pow-suc b k,
  masked,
)
  where
    halves : bit_or a b / 2 ≡ bit_or (a / 2) (b / 2)
    halves = omega (arith, bit_or_step a b)

    masked :
        bit_or (a % 2 ^ suc k) (b % 2 ^ suc k)
        ≡ bit_or (a / 2 % 2 ^ k) (b / 2 % 2 ^ k) * 2 + max (a % 2 ^ suc k % 2) (b % 2 ^ suc k % 2)
    masked =
        rw (← mod-pow-suc_half a k, ← mod-pow-suc_half b k)
          (bit_or_step (a % 2 ^ suc k) (b % 2 ^ suc k))

-- A field of `a | b` is the `|` of the fields.
pub field-bit_or : (a b k w : ℕ) → field (bit_or a b) k w ≡ bit_or (field a k w) (field b k w)
field-bit_or a b k w = rw (bit_or-div k a b) (bit_or-mod w (a / 2 ^ k) (b / 2 ^ k))

-- Reading a field that only one side of `|` has bits in.
pub field-bit_or_left : (a b k w : ℕ) → field b k w ≡ 0 → field (bit_or a b) k w ≡ field a k w
field-bit_or_left a b k w h = rw (field-bit_or a b k w, h) (bit_or-zero (field a k w))

pub field-bit_or_right : (a b k w : ℕ) → field a k w ≡ 0 → field (bit_or a b) k w ≡ field b k w
field-bit_or_right a b k w h = rw (field-bit_or a b k w, h) (zero-bit_or (field b k w))
