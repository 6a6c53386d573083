-- ===== src/Bits/Xor.antt =====
-- The exclusive or of machine words, as the exchange of two of them uses it.
use Prim.Native.Nat.{digits, differ, bit_xor, bit_xor-bitwise}
use usb_pd_firmware.Prelude.{
  ℕ, zero, suc, ◌+◌, ◌*◌, ◌/◌, ◌%◌, ◌≤◌, ◌<◌, ◌≡◌, ◌⊎◌, inl, inr, refl, ◌∙◌, arith,
}

abbrev xor_digits : ℕ → ℕ → ℕ → ℕ
xor_digits n a b = digits (λ b. b) differ n a b

xor_digits_fuel : (n m a b : ℕ) → a ≤ n → a ≤ m → xor_digits n a b ≡ xor_digits m a b
xor_digits_fuel zero zero a b p q = refl
xor_digits_fuel zero (suc m) zero b p q = refl
xor_digits_fuel zero (suc m) (suc a) b p q = absurd (omega arith)
xor_digits_fuel (suc n) zero zero b p q = refl
xor_digits_fuel (suc n) zero (suc a) b p q = absurd (omega arith)
xor_digits_fuel (suc n) (suc m) zero b p q = refl
xor_digits_fuel (suc n) (suc m) (suc a) b p q =
    omega (arith, xor_digits_fuel n m (suc a / 2) (b / 2) (omega arith) (omega arith))

zero-bit_xor : (b : ℕ) → bit_xor 0 b ≡ b
zero-bit_xor b = bit_xor-bitwise 0 b

bit_cases : (a : ℕ) → (a % 2 ≡ 0) ⊎ (a % 2 ≡ 1)
bit_cases a = ground arith

bit_xor_step : (a b : ℕ) → bit_xor a b ≡ bit_xor (a / 2) (b / 2) * 2 + differ (a % 2) (b % 2)
bit_xor_step zero b = omega (arith, zero-bit_xor b, zero-bit_xor (b / 2))
bit_xor_step (suc a) b = omega (
  arith,
  bit_xor-bitwise (suc a) b,
  bit_xor-bitwise (suc a / 2) (b / 2),
  xor_digits_fuel a (suc a / 2) (suc a / 2) (b / 2) (omega arith) (omega arith),
)

differ_small : (a b : ℕ) → differ (a % 2) (b % 2) < 2
differ_small a b = elim (bit_cases a) [
  | inl x ↦ rw x (omega arith)
  | inr x ↦ elim (bit_cases b) [ inl y ↦ rw (x, y) (omega arith) | inr y ↦ rw (x, y) (omega arith) ]
]

differ_back : (a b : ℕ) → differ (b % 2) (differ (a % 2) (b % 2)) ≡ a % 2
differ_back a b = elim (bit_cases a) [
  | inl x ↦ elim (bit_cases b) [ inl y ↦ rw (x, y) refl | inr y ↦ rw (x, y) refl ]
  | inr x ↦ elim (bit_cases b) [ inl y ↦ rw (x, y) refl | inr y ↦ rw (x, y) refl ]
]

differ_comm : (a b : ℕ) → differ (a % 2) (b % 2) ≡ differ (b % 2) (a % 2)
differ_comm a b = elim (bit_cases a) [
  | inl x ↦ elim (bit_cases b) [ inl y ↦ rw (x, y) refl | inr y ↦ rw (x, y) refl ]
  | inr x ↦ elim (bit_cases b) [ inl y ↦ rw (x, y) refl | inr y ↦ rw (x, y) refl ]
]

comm_fuel : (n a b : ℕ) → a ≤ n → b ≤ n → bit_xor a b ≡ bit_xor b a
comm_fuel zero zero zero p q = refl
comm_fuel zero (suc a) b p q = absurd (omega arith)
comm_fuel zero zero (suc b) p q = absurd (omega arith)
comm_fuel (suc n) a b p q = omega (
  arith,
  bit_xor_step a b,
  bit_xor_step b a,
  differ_comm a b,
  comm_fuel n (a / 2) (b / 2) (omega arith) (omega arith),
)

pub bit_xor_comm : (a b : ℕ) → bit_xor a b ≡ bit_xor b a
bit_xor_comm a b = comm_fuel (a + b) a b (omega arith) (omega arith)

back_fuel : (n a b : ℕ) → a ≤ n → b ≤ n → bit_xor b (bit_xor a b) ≡ a
back_fuel zero zero zero p q = refl
back_fuel zero (suc a) b p q = absurd (omega arith)
back_fuel zero zero (suc b) p q = absurd (omega arith)
back_fuel (suc n) a b p q =
    bit_xor_step b (bit_xor a b)
    ∙ rw (half, low, differ_back a b)
        (omega (arith, back_fuel n (a / 2) (b / 2) (omega arith) (omega arith)))
  where
    half : bit_xor a b / 2 ≡ bit_xor (a / 2) (b / 2)
    half = omega (arith, bit_xor_step a b, differ_small a b)

    low : bit_xor a b % 2 ≡ differ (a % 2) (b % 2)
    low = omega (arith, bit_xor_step a b, differ_small a b)

-- A second exclusive or takes the first back.
pub bit_xor_back : (a b : ℕ) → bit_xor b (bit_xor a b) ≡ a
bit_xor_back a b = back_fuel (a + b) a b (omega arith) (omega arith)

pub bit_xor_back_left : (a b : ℕ) → bit_xor (bit_xor a b) a ≡ b
bit_xor_back_left a b = bit_xor_comm (bit_xor a b) a ∙ rw (bit_xor_comm a b) (bit_xor_back b a)
