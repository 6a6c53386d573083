-- ===== src/Prelude/Fault.antt =====
-- Code that may reach undefined behaviour: `none` is a read through NULL or through a freed
-- pointer, or a division by zero.
use mathlib.Core.Path.{◌≡◌, refl}
use mathlib.Core.Bool.{Bool, true, false}
use mathlib.Core.Option.{Option, none, some}
use usb_pd_firmware.Prelude.Tests.{if◌then◌else◌}

infixl 5 ◌>>=◌
abbrev pub ◌>>=◌ {ℓ κ} : {A : Type ℓ} {B : Type κ} → Option A → (A → Option B) → Option B
none >>= f = none
some a >>= f = f a

-- Inversion of a sequence that did not fail.
pub >>=-eq-some {ℓ κ} :
    {A : Type ℓ} {B : Type κ} (m : Option A) (f : A → Option B) {b : B}
    → (m >>= f) ≡ some b
    → (a : A) × (m ≡ some a) × (f a ≡ some b)
>>=-eq-some none f h = elim (none-ne-some h) [ ]
  where
    none-ne-some : {B : Type κ} {b : B} → none ≡ some b → ⊥
    none-ne-some h = cc
>>=-eq-some (some a) f h = (a, refl, h)

-- What follows a value fails, whatever the value.
pub >>=-none {ℓ κ} :
    {A : Type ℓ} {B : Type κ} (m : Option A) (f : A → Option B)
    → ((a : A) → f a ≡ none)
    → (m >>= f) ≡ none
>>=-none none f h = refl
>>=-none (some a) f h = h a

-- The code returns, and what it returns is so.
abbrev pub Ends {ℓ} : {A : Type ℓ} → (A → Type 0) → Option A → Type 0
Ends P none = ⊥
Ends P (some a) = P a

pub Ends->>= {ℓ κ} :
    {A : Type ℓ} {B : Type κ} (P : A → Type 0) (Q : B → Type 0) (m : Option A) (f : A → Option B)
    → Ends P m
    → ((a : A) → P a → Ends Q (f a))
    → Ends Q (m >>= f)
Ends->>= P Q none f h k = elim h [ ]
Ends->>= P Q (some a) f h k = k a h

pub Ends-eq {ℓ} :
    {A : Type ℓ} (P : A → Type 0) (m : Option A) → Ends P m → (a : A) × (m ≡ some a) × P a
Ends-eq P none h = elim h [ ]
Ends-eq P (some a) h = (a, refl, h)

pub Ends-map {ℓ} :
    {A : Type ℓ} (P Q : A → Type 0) (m : Option A) → ((a : A) → P a → Q a) → Ends P m → Ends Q m
Ends-map P Q none f h = h
Ends-map P Q (some a) f h = f a h

-- A test with both branches so.
pub Ends-if {ℓ} :
    {A : Type ℓ} (P : A → Type 0) (b : Bool) (m n : Option A)
    → Ends P m
    → Ends P n
    → Ends P (if b then m else n)
Ends-if P true m n h k = h
Ends-if P false m n h k = k

-- If the code returns, what it returns is so.
abbrev pub Allows {ℓ} : {A : Type ℓ} → (A → Type 0) → Option A → Type 0
Allows P none = Unit
Allows P (some a) = P a

pub Allows->>= {ℓ κ} :
    {A : Type ℓ} {B : Type κ} (P : A → Type 0) (Q : B → Type 0) (m : Option A) (f : A → Option B)
    → Allows P m
    → ((a : A) → P a → Allows Q (f a))
    → Allows Q (m >>= f)
Allows->>= P Q none f h k = tt
Allows->>= P Q (some a) f h k = k a h

pub Ends-Allows {ℓ} :
    {A : Type ℓ} (P Q : A → Type 0) (m : Option A) → Ends P m → Allows Q m → Ends (λ a. P a × Q a) m
Ends-Allows P Q none h k = elim h [ ]
Ends-Allows P Q (some a) h k = (h, k)

pub Allows-if {ℓ} :
    {A : Type ℓ} (P : A → Type 0) (b : Bool) (m n : Option A)
    → Allows P m
    → Allows P n
    → Allows P (if b then m else n)
Allows-if P true m n h k = h
Allows-if P false m n h k = k

pub Allows-after {ℓ κ} :
    {A : Type ℓ} {B : Type κ} (Q : B → Type 0) (m : Option A) (f : A → Option B)
    → ((a : A) → Allows Q (f a))
    → Allows Q (m >>= f)
Allows-after Q none f k = tt
Allows-after Q (some a) f k = k a
