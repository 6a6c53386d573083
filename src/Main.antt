-- ===== src/Main.antt =====
-- src/main.c: `sink`, which starts the firmware and steps through the power profiles with the
-- button, beside the device policy manager, which reads the profile's number.
mod Tests
use mathlib.Core.Path.{subst}
use usb_pd_firmware.Prelude.{
  ℕ, zero, suc, ◌+◌, ◌%◌, ◌^◌, ◌≤◌, ◌<◌, ◌≡◌, refl, sym, ap, ◌∙◌, ◌⊎◌, inl, inr, Bool, true, false,
  ltb, ◌==◌, if_cases, if◌then◌else◌, List, [], ◌∷◌, get_or, arith,
}
use usb_pd_firmware.Dpm.Request.{pd_profiles, select_voltage}

-- `pdb_config.state`, `_cnt`, whether the inner loop waits for the button's release, and how often
-- PDB_EVT_PE_NEW_POWER was signalled.
pub record ButtonLoop : Type 0 where
  pub state : ℕ
  pub cnt : ℕ
  pub pressed : Bool
  pub new_power : ℕ

-- What happens next: the button's line is read (high where it is pressed), or the device policy
-- manager evaluates a source's capabilities.
pub data Event : Type 0 where
  read_line : Bool → Event
  evaluate : Event

-- Up to the loop.
abbrev pub button_init : ButtonLoop
button_init = record { state = 0; cnt = 1; pressed = false; new_power = 1 }

-- The outer loop: `pdb_config.state = ++_cnt; if (_cnt > 3) _cnt = 0;` on a `uint8_t`.
unfoldable pub press : ButtonLoop → ButtonLoop
press s =
    let cnt' = (s.cnt + 1) % 2 ^ 8 in
    record s { state = cnt'; cnt = if ltb 3 cnt' then 0 else cnt'; pressed = true }

-- One reading of the line, by the outer loop or by the inner one.
unfoldable pub read_button : Bool → ButtonLoop → ButtonLoop
unfolding press
read_button high s =
    if s.pressed
    then (if high then s else record s { pressed = false; new_power = s.new_power + 1 })
    else (if high then press s else s)

unfoldable pub button_step : Event → ButtonLoop → ButtonLoop
unfolding read_button select_voltage
button_step (read_line high) s = read_button high s
button_step evaluate s = record s { state = (select_voltage s.state).1 }

unfoldable pub button_run : List Event → ButtonLoop → ButtonLoop
unfolding button_step
button_run [] s = s
button_run (e ∷ es) s = button_run es (button_step e s)

-- How often the line rises.
pub presses : Bool → List Event → ℕ
presses high [] = 0
presses high (evaluate ∷ es) = presses high es
presses false (read_line true ∷ es) = suc (presses true es)
presses false (read_line false ∷ es) = presses false es
presses true (read_line high ∷ es) = presses high es

-- How often it falls.
pub releases : Bool → List Event → ℕ
releases high [] = 0
releases high (evaluate ∷ es) = releases high es
releases true (read_line false ∷ es) = suc (releases false es)
releases true (read_line true ∷ es) = releases true es
releases false (read_line high ∷ es) = releases high es

-- The profile after so many presses: the first goes from 5 V to 15 V, and each later one to the next
-- in the cycle of 5, 9, 15 and 20 V.
abbrev pub profile : ℕ → ℕ
profile n = if n == 0 then 0 else (n + 1) % 4

record IsAt (n : ℕ) (high : Bool) (k : ℕ) (s : ButtonLoop) : Type 0 where
  counted : s.cnt ≡ (n + 1) % 4
  chosen : (s.state ≡ profile n) ⊎ ((s.state ≡ 4) × (profile n ≡ 0))
  line : s.pressed ≡ high
  signalled : s.new_power ≡ k

press-IsAt : (n k : ℕ) (s : ButtonLoop) → IsAt n false k s → IsAt (n + 1) true k (press s)
unfolding press
press-IsAt n k s at = record {
  counted = ground (arith, at.counted);
  chosen = ground (arith, at.counted);
  line = refl;
  signalled = at.signalled;
}

evaluate-IsAt :
    (n k : ℕ) (high : Bool) (s : ButtonLoop)
    → IsAt n high k s
    → IsAt n high k (button_step evaluate s)
unfolding button_step
evaluate-IsAt n k high s at = record {
  counted = at.counted;
  chosen = ground (arith, at.chosen);
  line = at.line;
  signalled = at.signalled;
}

same_counts :
    (n n' k k' : ℕ) (high : Bool) (s : ButtonLoop)
    → n ≡ n'
    → k ≡ k'
    → IsAt n high k s
    → IsAt n' high k' s
same_counts n n' k k' high s p q at =
    subst (λ m. IsAt m high k' s) p (subst (λ j. IsAt n high j s) q at)

release-IsAt :
    (n k : ℕ) (s : ButtonLoop)
    → IsAt n true k s
    → IsAt n false (k + 1) (record s { pressed = false; new_power = s.new_power + 1 })
release-IsAt n k s at = record {
  counted = at.counted;
  chosen = at.chosen;
  line = refl;
  signalled = ap (λ k. k + 1) at.signalled;
}

-- The state after any events, counted from one in which so many were counted.
Reached : ℕ → ℕ → ButtonLoop → Type 0
Reached n k s = (high : Bool) × IsAt n high k s

button_run-Reached :
    (es : List Event) (n k : ℕ) (high : Bool) (s : ButtonLoop)
    → IsAt n high k s
    → Reached (n + presses high es) (k + releases high es) (button_run es s)
unfolding button_run button_step read_button presses releases Reached
button_run-Reached [] n k high s at =
    (high, same_counts n _ k _ high s (omega arith) (omega arith) at)
button_run-Reached (evaluate ∷ es) n k high s at =
    button_run-Reached es n k high (button_step evaluate s) (evaluate-IsAt n k high s at)
button_run-Reached (read_line true ∷ es) n k true s at =
    simp (at.line) (button_run-Reached es n k true s at)
button_run-Reached (read_line false ∷ es) n k true s at =
    rw at.line (counts (button_run-Reached es n (k + 1) false _ (release-IsAt n k s at)))
  where
    counts :
        {t : ButtonLoop}
        → Reached (n + presses false es) (k + 1 + releases false es) t
        → Reached (n + presses false es) (k + suc (releases false es)) t
    counts {t} r = (r.0, same_counts _ _ _ _ r.0 t refl (omega arith) r.1)
button_run-Reached (read_line true ∷ es) n k false s at =
    rw at.line (counts (button_run-Reached es (n + 1) k true _ (press-IsAt n k s at)))
  where
    counts :
        {t : ButtonLoop}
        → Reached (n + 1 + presses true es) (k + releases true es) t
        → Reached (n + suc (presses true es)) (k + releases true es) t
    counts {t} r = (r.0, same_counts _ _ _ _ r.0 t (omega arith) refl r.1)
button_run-Reached (read_line false ∷ es) n k false s at =
    simp (at.line) (button_run-Reached es n k false s at)

select_voltage_lem : (m : ℕ) → m ≤ 3 → (select_voltage m).0 ≡ get_or pd_profiles m 0
unfolding select_voltage
select_voltage_lem m h = ground arith

IsAt-voltage :
    {n k : ℕ} {high : Bool} {s : ButtonLoop}
    → IsAt n high k s
    → (select_voltage s.state).0 ≡ get_or pd_profiles (profile n) 0
unfolding select_voltage
IsAt-voltage {n} at = elim at.chosen [
  | inl e ↦ ap (λ m. (select_voltage m).0) e ∙ select_voltage_lem (profile n) (ground arith)
  | inr (e, p) ↦ ap (λ m. (select_voltage m).0) e ∙ ap (λ m. get_or pd_profiles m 0) (sym p)
]

-- For any readings of the button's line, with evaluations by the device policy manager anywhere
-- between them: the profile that is in use is that of 5 V before the first press, that of 15 V after
-- it, and after each later one the next in the cycle of 5, 9, 15 and 20 V; the policy engine was
-- asked to negotiate once at the start and once after each release.
pub button_run-profile :
    (es : List Event)
    → ((select_voltage (button_run es button_init).state).0
        ≡ get_or pd_profiles (profile (presses false es)) 0)
      × ((button_run es button_init).new_power ≡ 1 + releases false es)
unfolding Reached
button_run-profile es = (
  IsAt-voltage (
      same_counts (0 + presses false es) (presses false es) (1 + releases false es)
        (1 + releases false es) reached.0 _ (omega arith) refl reached.1),
  reached.1.signalled,
)
  where
    reached : Reached (0 + presses false es) (1 + releases false es) (button_run es button_init)
    reached =
        button_run-Reached es 0 1 false button_init
          (record { counted = refl; chosen = inl refl; line = refl; signalled = refl })
