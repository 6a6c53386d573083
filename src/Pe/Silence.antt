-- ===== src/Pe/Silence.antt =====
-- What lib/src/policy_engine.c does when the source never answers.
use usb_pd_firmware.Prelude.{
  Bool, ℕ, suc, ◌+◌, ◌-◌, ◌*◌, ◌≤◌, ◌≡◌, refl, List, [], ◌∷◌, length, Ends, Ends->>=, Ends-map,
  Option-cases, inl, inr, arith,
}
use usb_pd_firmware.Pe.{
  PeState, no_events, DpmCallbacks, Pe, Input, startup, discovery, wait_cap, eval_cap, select_cap,
  transition_sink, ready, get_source_cap, give_sink_cap, hard_reset, transition_default, soft_reset,
  send_soft_reset, send_not_supported, chunk_received, not_supported_received, source_unresponsive,
  pe_init,
}
use usb_pd_firmware.Pe.Handlers.{
  pe_sink_startup, pe_sink_discovery, pe_sink_wait_cap, pe_sink_hard_reset,
  pe_sink_transition_default, pe_sink_source_unresponsive, note_match,
}
use usb_pd_firmware.Pe.Step.{pe_step, pe_run, pe_thread}
use usb_pd_firmware.Pe.Invariant.{DpmLaws, resets}

-- Every wait runs out.
abbrev pub AllSilent : List Input → Type 0
AllSilent [] = Unit
AllSilent (i ∷ is) = (i.pending ≡ no_events) × AllSilent is

-- The rounds that are left until the source counts as unresponsive, after `c` hard resets.
abbrev Waits : ℕ → PeState → ℕ → Type 0
Waits n startup c = (c ≤ 3) × (4 + 5 * (3 - c) ≤ n)
Waits n discovery c = (c ≤ 3) × (3 + 5 * (3 - c) ≤ n)
Waits n wait_cap c = (c ≤ 3) × (2 + 5 * (3 - c) ≤ n)
Waits n hard_reset c = (c ≤ 3) × (1 + 5 * (3 - c) ≤ n)
Waits n transition_default c = (c ≤ 3) × (5 + 5 * (3 - c) ≤ n)
Waits n source_unresponsive c = c ≡ 3
Waits n _ c = ⊥

-- The rounds left, with every hard reset counted and a DPM that is `S`.
Left : {D : Type 0} → (D → Type 0) → ℕ → PeState × Pe D → Type 0
Left S n r =
    Waits n (r.0) ((r.1).hard_reset_counter)
    × (resets (r.1).signals ≡ (r.1).hard_reset_counter)
    × S (r.1).dpm

module _ (dpm : DpmCallbacks) (laws : DpmLaws dpm) where
  note_match-Left :
      (n : ℕ) (p : Pe dpm.State) (a : Bool × dpm.State)
      → Left laws.Sound (suc n) (source_unresponsive, p)
      → laws.Sound (a.1)
      → Ends (Left laws.Sound n) (note_match dpm p a)
  unfolding Left note_match
  note_match-Left n p a h sound = ground (arith, laws.typec_sound (a.1) sound)

  unresponsive-Left :
      (n : ℕ) (i : Input) (p : Pe dpm.State)
      → Left laws.Sound (suc n) (source_unresponsive, p)
      → Ends (Left laws.Sound n) (pe_sink_source_unresponsive dpm i p)
  unfolding pe_sink_source_unresponsive Left
  unresponsive-Left n i p h = elim (Option-cases dpm.evaluate_typec_current) [
    | inl absent ↦ ground (arith, absent)
    | inr (f, there) ↦ rw there (
        Ends->>= (λ a. laws.Sound (a.1)) (Left laws.Sound n) (f i.typec_current p.dpm)
          (note_match dpm p) (laws.typec f i.typec_current p.dpm there (h.2))
          (λ a sound. note_match-Left n p a h sound))
  ]

  step-Left :
      (n : ℕ) (i : Input) (st : PeState) (p : Pe dpm.State)
      → i.pending ≡ no_events
      → Left laws.Sound (suc n) (st, p)
      → Ends (Left laws.Sound n) (pe_step dpm i st p)
  unfolding Left pe_step pe_sink_startup pe_sink_discovery pe_sink_wait_cap pe_sink_hard_reset
      pe_sink_transition_default
  step-Left n i startup p quiet h = elim (Option-cases dpm.pd_start) [
    | inl absent ↦ ground (arith, absent)
    | inr (f, there) ↦ ground (arith, there, laws.start_sound f p.dpm there (h.2))
  ]
  step-Left n i discovery p quiet h = ground arith
  step-Left n i wait_cap p quiet h = ground (arith, quiet)
  step-Left n i hard_reset p quiet h = ground arith
  step-Left n i transition_default p quiet h = ground (arith, laws.default_sound p.dpm (h.2))
  step-Left n i source_unresponsive p quiet h = unresponsive-Left n i p h
  step-Left n i eval_cap p quiet h = elim (h.0) [ ]
  step-Left n i select_cap p quiet h = elim (h.0) [ ]
  step-Left n i transition_sink p quiet h = elim (h.0) [ ]
  step-Left n i ready p quiet h = elim (h.0) [ ]
  step-Left n i get_source_cap p quiet h = elim (h.0) [ ]
  step-Left n i give_sink_cap p quiet h = elim (h.0) [ ]
  step-Left n i soft_reset p quiet h = elim (h.0) [ ]
  step-Left n i send_soft_reset p quiet h = elim (h.0) [ ]
  step-Left n i send_not_supported p quiet h = elim (h.0) [ ]
  step-Left n i chunk_received p quiet h = elim (h.0) [ ]
  step-Left n i not_supported_received p quiet h = elim (h.0) [ ]

  run-Left :
      (is : List Input) (st : PeState) (p : Pe dpm.State)
      → AllSilent is
      → Left laws.Sound (length is) (st, p)
      → Ends (Left laws.Sound 0) (pe_run dpm is st p)
  unfolding pe_run
  run-Left [] st p quiet h = h
  run-Left (i ∷ is) st p quiet h =
      Ends->>= (Left laws.Sound (length is)) (Left laws.Sound 0) (pe_step dpm i st p) _
        (step-Left (length is) i st p (quiet.0) h) (λ r k. run-Left is (r.0) (r.1) (quiet.1) k)

Left-arrived :
    {D : Type 0} (S : D → Type 0) (st : PeState) (p : Pe D)
    → Left S 0 (st, p)
    → (st ≡ source_unresponsive) × (resets p.signals ≡ 3)
unfolding Left
Left-arrived S startup p h = ground arith
Left-arrived S discovery p h = ground arith
Left-arrived S wait_cap p h = ground arith
Left-arrived S eval_cap p h = elim (h.0) [ ]
Left-arrived S select_cap p h = elim (h.0) [ ]
Left-arrived S transition_sink p h = elim (h.0) [ ]
Left-arrived S ready p h = elim (h.0) [ ]
Left-arrived S get_source_cap p h = elim (h.0) [ ]
Left-arrived S give_sink_cap p h = elim (h.0) [ ]
Left-arrived S hard_reset p h = ground arith
Left-arrived S transition_default p h = ground arith
Left-arrived S soft_reset p h = elim (h.0) [ ]
Left-arrived S send_soft_reset p h = elim (h.0) [ ]
Left-arrived S send_not_supported p h = elim (h.0) [ ]
Left-arrived S chunk_received p h = elim (h.0) [ ]
Left-arrived S not_supported_received p h = elim (h.0) [ ]
Left-arrived S source_unresponsive p h = ground arith

-- A source that never answers: with a DPM that keeps to its interface, nineteen or more rounds in
-- which every wait runs out leave the thread in PESinkSourceUnresponsive, after exactly three hard
-- resets.
pub silent_source :
    (dpm : DpmCallbacks) (laws : DpmLaws dpm) (is : List Input) (d : dpm.State)
    → laws.Sound d
    → AllSilent is
    → 19 ≤ length is
    → Ends (λ r. (r.0 ≡ source_unresponsive) × (resets (r.1).signals ≡ 3)) (pe_thread dpm is d)
unfolding pe_thread pe_init Left
silent_source dpm laws is d sound quiet enough =
    Ends-map (Left laws.Sound 0) _ (pe_run dpm is startup (pe_init d))
      (λ r. Left-arrived laws.Sound (r.0) (r.1))
      (run-Left dpm laws is startup (pe_init d) quiet ((omega arith, enough), refl, sound))
