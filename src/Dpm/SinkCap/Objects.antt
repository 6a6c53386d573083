-- ===== src/Dpm/SinkCap/Objects.antt =====
-- The data objects of the Sink_Capabilities message of src/device_policy_manager.c, step by step.
use usb_pd_firmware.Prelude.{
  ℕ, zero, suc, ◌*◌, ◌/◌, ◌^◌, ◌≤◌, ◌<◌, ◌≡◌, ◌⊎◌, inl, inr, refl, ◌∙◌, bit_or, ◌&&◌, ◌==◌, ltb,
  Option, none, some, [], ◌∷◌, length, get_or, length-set, get_or-set_self, get_or-set_ne,
  Bool-cases, arith,
}
use usb_pd_firmware.Bits.{field, place, field-bit_or_left}
use usb_pd_firmware.Bits.Xor.{bit_xor_back, bit_xor_back_left}
use usb_pd_firmware.Pd.{PdMsg, obj_at, pdo_type, pdo_type_fixed, src_fixed_voltage_get, mv2pdv}
use usb_pd_firmware.Dpm.SinkCap.{
  Objects, add_pdo, change, sink_fixed_pdo, replace_current, swap_last, sort_last, add_range_pdo,
  higher_cap, use_range,
}

-- A fixed supply of 5 V.
pub record IsVsafe5v (pdo : ℕ) : Type 0 where
  pub kind : pdo_type pdo ≡ pdo_type_fixed
  pub volts : src_fixed_voltage_get pdo ≡ mv2pdv 5000

-- Between one object and `k`, the first of them a fixed supply of 5 V.
pub record Begun (k : ℕ) (o : Objects) : Type 0 where
  pub room : length (o.0) ≡ 7
  pub some_pdo : 1 ≤ o.1
  pub few : o.1 ≤ k
  pub first : IsVsafe5v (get_or (o.0) 0 0)

-- With three objects, the last two are sorted by voltage.
abbrev pub Sorted : Objects → Type 0
Sorted o =
    (o.1 ≤ 2)
    ⊎ (src_fixed_voltage_get (get_or (o.0) 1 0) ≤ src_fixed_voltage_get (get_or (o.0) 2 0))

pub fixed_pdo_lem : (v i : ℕ) → v ≡ mv2pdv 5000 → IsVsafe5v (sink_fixed_pdo v i)
unfolding sink_fixed_pdo
fixed_pdo_lem v i h = record {
  kind = field-bit_or_left (place v 10 10) (place i 0 10) 30 2 (omega arith) ∙ omega (arith, h);
  volts = field-bit_or_left (place v 10 10) (place i 0 10) 10 10 (omega arith) ∙ omega (arith, h);
}

replace_current_lem : (i pdo : ℕ) → IsVsafe5v pdo → IsVsafe5v (replace_current i pdo)
unfolding replace_current
replace_current_lem i pdo h = record {
  kind =
      field-bit_or_left (pdo / 2 ^ 10 * 2 ^ 10) (place i 0 10) 30 2 (omega arith)
      ∙ omega (arith, h.kind);
  volts =
      field-bit_or_left (pdo / 2 ^ 10 * 2 ^ 10) (place i 0 10) 10 10 (omega arith)
      ∙ omega (arith, h.volts);
}

-- A flag above the voltage and below the type.
pub flag_lem :
    (w pdo : ℕ) → field w 30 2 ≡ 0 → field w 10 10 ≡ 0 → IsVsafe5v pdo → IsVsafe5v (bit_or pdo w)
flag_lem w pdo high low h = record {
  kind = field-bit_or_left pdo w 30 2 high ∙ h.kind;
  volts = field-bit_or_left pdo w 10 10 low ∙ h.volts;
}

pub change-Begun :
    (k : ℕ) (f : ℕ → ℕ) (o : Objects)
    → ((pdo : ℕ) → IsVsafe5v pdo → IsVsafe5v (f pdo))
    → Begun k o
    → Begun k (change 0 f o)
unfolding change
change-Begun k f (os, n) keeps h = record {
  room = length-set os 0 _ ∙ h.room;
  some_pdo = h.some_pdo;
  few = h.few;
  first =
      rw (get_or-set_self os 0 (f (get_or os 0 0)) 0 (omega (arith, h.room)))
        (keeps (get_or os 0 0) h.first);
}

change-Sorted : (f : ℕ → ℕ) (o : Objects) → Sorted o → Sorted (change 0 f o)
unfolding change
change-Sorted f (os, n) h =
    rw
      (
        get_or-set_ne os 0 1 (f (get_or os 0 0)) 0 (λ e. omega (arith, e)),
        get_or-set_ne os 0 2 (f (get_or os 0 0)) 0 (λ e. omega (arith, e)),
      )
      h

pub add_pdo-Begun : (k pdo : ℕ) (o : Objects) → k < 7 → Begun k o → Begun (suc k) (add_pdo pdo o)
unfolding add_pdo
add_pdo-Begun k pdo (os, n) fits h = record {
  room = length-set os n pdo ∙ h.room;
  some_pdo = omega arith;
  few = omega (arith, h.few);
  first = rw (get_or-set_ne os n 0 pdo 0 (λ e. omega (arith, e, h.some_pdo))) h.first;
}

-- The exchange.
record Swapped (o o' : Objects) : Type 0 where
  room : length (o'.0) ≡ length (o.0)
  same_count : o'.1 ≡ o.1
  at_0 : get_or (o'.0) 0 0 ≡ get_or (o.0) 0 0
  at_1 : get_or (o'.0) 1 0 ≡ get_or (o.0) 2 0
  at_2 : get_or (o'.0) 2 0 ≡ get_or (o.0) 1 0

swap_last-Swapped : (o : Objects) → length (o.0) ≡ 7 → Swapped o (swap_last o)
unfolding swap_last change
swap_last-Swapped (a ∷ b ∷ c ∷ os, n) h = record {
  room = refl;
  same_count = refl;
  at_0 = refl;
  at_1 = rw (bit_xor_back b c) (bit_xor_back_left b c);
  at_2 = bit_xor_back b c;
}
swap_last-Swapped ([], n) h = absurd (omega (arith, h))
swap_last-Swapped (a ∷ [], n) h = absurd (omega (arith, h))
swap_last-Swapped (a ∷ b ∷ [], n) h = absurd (omega (arith, h))

sort_last-Begun : (o : Objects) → Begun 3 o → Begun 3 (sort_last o)
unfolding sort_last
sort_last-Begun (os, n) h =
    elim (Bool-cases (
      n == 3
      && ltb (src_fixed_voltage_get (get_or os 2 0)) (src_fixed_voltage_get (get_or os 1 0)))) [
        | inl swap ↦ rw swap (record {
          room = s.room ∙ h.room;
          some_pdo = rw s.same_count h.some_pdo;
          few = rw s.same_count h.few;
          first = rw s.at_0 h.first;
        })
        | inr keep ↦ rw keep h
      ]
  where
    s : Swapped (os, n) (swap_last (os, n))
    s = swap_last-Swapped (os, n) h.room

sort_last-Sorted : (o : Objects) → Begun 3 o → Sorted (sort_last o)
unfolding sort_last
sort_last-Sorted (os, n) h =
    elim (Bool-cases (
      n == 3
      && ltb (src_fixed_voltage_get (get_or os 2 0)) (src_fixed_voltage_get (get_or os 1 0)))) [
        | inl swap ↦ rw swap (inr (rw (s.at_1, s.at_2) (ground (arith, swap))))
        | inr keep ↦ rw keep (ground (arith, keep, h.few))
      ]
  where
    s : Swapped (os, n) (swap_last (os, n))
    s = swap_last-Swapped (os, n) h.room

pub Begun-more : (k : ℕ) (o : Objects) → Begun k o → Begun (suc k) o
Begun-more k o h = record {
  room = h.room;
  some_pdo = h.some_pdo;
  few = omega (arith, h.few);
  first = h.first;
}

add_range_pdo-Begun :
    (caps : PdMsg) (v : ℕ) (at : Option ℕ) (o : Objects)
    → Begun 2 o
    → Begun 3 (add_range_pdo caps v at o)
unfolding add_range_pdo
add_range_pdo-Begun caps v none o h = Begun-more 2 o h
add_range_pdo-Begun caps v (some zero) o h = Begun-more 2 o h
add_range_pdo-Begun caps v (some (suc i)) o h =
    elim (Bool-cases (src_fixed_voltage_get (obj_at caps (suc i)) == mv2pdv v)) [
      | inl same ↦ rw same (Begun-more 2 o h)
      | inr other ↦ rw other (add_pdo-Begun 2 _ o (omega arith) h)
    ]

higher_cap-Begun : (v : ℕ) (o : Objects) → Begun 2 o → Begun 2 (higher_cap v o)
unfolding higher_cap
higher_cap-Begun v o h = elim (Bool-cases (mv2pdv v == mv2pdv 5000)) [
  | inl same ↦ rw same h
  | inr other ↦ rw other (change-Begun 2 _ o (λ pdo. flag_lem (2 ^ 28) pdo refl refl) h)
]

pub use_range-Begun :
    (caps : PdMsg) (v i : ℕ) (at : Option ℕ) (o : Objects)
    → Begun 2 o
    → Begun 3 (use_range caps v i at o) × Sorted (use_range caps v i at o)
unfolding use_range
use_range-Begun caps v i (some zero) o h =
    let kept = change-Begun 2 (replace_current i) o (replace_current_lem i) h in
    (Begun-more 2 _ kept, inl kept.few)
use_range-Begun caps v i none o h =
    let begun = add_range_pdo-Begun caps v none _ (higher_cap-Begun v o h) in
    (sort_last-Begun _ begun, sort_last-Sorted _ begun)
use_range-Begun caps v i (some (suc j)) o h =
    let begun = add_range_pdo-Begun caps v (some (suc j)) _ (higher_cap-Begun v o h) in
    (sort_last-Begun _ begun, sort_last-Sorted _ begun)
