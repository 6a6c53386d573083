-- ===== src/Pe/Agreement/Runs.antt =====
-- Runs of lib/src/policy_engine.c: an explicit contract is what the source agreed to.
use mathlib.Core.Path.{◌∙◌, subst}
use usb_pd_firmware.Prelude.{
  true, ◌≡◌, refl, inl, inr, Option, some, none, List, [], ◌∷◌, Ends, ◌>>=◌, Ends-Allows, Allows,
  Allows-after, Option-cases, arith,
}
use usb_pd_firmware.Pd.{PdMsg}
use usb_pd_firmware.Pe.{
  PeState, DpmCallbacks, Pe, Input, startup, discovery, wait_cap, eval_cap, select_cap,
  transition_sink, ready, get_source_cap, give_sink_cap, hard_reset, transition_default, soft_reset,
  send_soft_reset, send_not_supported, chunk_received, not_supported_received, source_unresponsive,
  pe_init,
}
use usb_pd_firmware.Pe.Handlers.{
  pe_sink_startup, pe_sink_discovery, pe_sink_select_cap, select_cap_sent, select_cap_response,
  set_pps_timer, pe_sink_transition_sink, pe_sink_transition_default,
}
use usb_pd_firmware.Pe.Messages.{pe_sink_not_supported_received}
use usb_pd_firmware.Pe.Ready.{goto_min, goto_min_answer, ready_message, drop_message, pe_sink_ready}
use usb_pd_firmware.Pe.Runs.{AllFits}
use usb_pd_firmware.Pe.Safety.{step-Inv}
use usb_pd_firmware.Pe.Agreement.{Round, Agreed, Backed, history}
use usb_pd_firmware.Pe.Agreement.Handlers.{
  Elsewhere, Kept, wait_cap-Kept, eval_cap-Kept, get_source_cap-Kept, give_sink_cap-Kept,
  hard_reset-Kept, soft_reset-Kept, send_soft_reset-Kept, not_supported-Kept, chunk_received-Kept,
  source_unresponsive-Kept,
}
use usb_pd_firmware.Pe.Step.{pe_step, pe_run, pe_thread}
use usb_pd_firmware.Pe.Invariant.{DpmLaws, Inv, Keeps}

module _ (dpm : DpmCallbacks) where
  open dpm use {State}

  Backs : List Round → PeState × Pe State → Type 0
  Backs h r = Backed h (r.0) (r.1).explicit_contract

  select_cap-Backs :
      (h : List Round) (i : Input) (p : Pe State)
      → Backs h (select_cap, p)
      → Allows (Backs ((select_cap, i) ∷ h)) (pe_sink_select_cap dpm i p)
  unfolding Backs pe_sink_select_cap select_cap_sent select_cap_response set_pps_timer
  select_cap-Backs h i p b = Allows-after _ p.last_dpm_request _ (λ r.
      elim (Option-cases i.fetched) [
        | inl empty ↦ ground (arith, empty, b.0)
        | inr (m, got) ↦ ground (arith, got, b.0)
      ])

  transition_sink-Backs :
      (h : List Round) (i : Input) (p : Pe State)
      → Backs h (transition_sink, p)
      → Allows (Backs ((transition_sink, i) ∷ h)) (pe_sink_transition_sink dpm i p)
  unfolding Backs pe_sink_transition_sink
  transition_sink-Backs h i p b = elim (Option-cases i.fetched) [
    | inl empty ↦ ground (arith, empty, b.0)
    | inr (m, got) ↦ ground (arith, got, b.0, b.1 refl)
  ]

  Same : Pe State → PeState × Pe State → Type 0
  Same p r = (r.1).explicit_contract ≡ p.explicit_contract

  goto_min-Same : (p : Pe State) → Allows (Same p) (goto_min dpm p)
  unfolding Same goto_min goto_min_answer
  goto_min-Same p = elim (Option-cases dpm.giveback_enabled) [
    | inl absent ↦ ground (arith, absent)
    | inr (f, there) ↦
        rw there (Allows-after (Same p) (f p.dpm) (goto_min_answer dpm p) (λ a. ground arith))
  ]

  ready_message-Same : (m : PdMsg) (p : Pe State) → Allows (Same p) (ready_message dpm m p)
  unfolding Same ready_message
  ready_message-Same m p = ground (arith, goto_min-Same p)

  ready-Same : (i : Input) (p : Pe State) → Allows (Same p) (pe_sink_ready dpm i p)
  unfolding Same pe_sink_ready drop_message
  ready-Same i p = elim (Option-cases i.fetched) [
    | inl empty ↦ ground (arith, empty)
    | inr (m, got) ↦ ground (arith, got, ready_message-Same m p)
  ]

  Kept-Backs :
      (h h' : List Round) (p : Pe State) (o : Option (PeState × Pe State))
      → (Agreed h → Agreed h')
      → (p.explicit_contract ≡ true → Agreed h)
      → Allows (Kept dpm p) o
      → Allows (Backs h') o
  unfolding Kept Backs
  Kept-Backs h h' p none keeps old k = tt
  Kept-Backs h h' p (some (st, p')) keeps old k =
      (λ c. keeps (old (k.1 c)), λ e. elim (subst Elsewhere e (k.0)) [ ])

  ready-Backs :
      (h h' : List Round) (p : Pe State) (o : Option (PeState × Pe State))
      → Agreed h'
      → p.explicit_contract ≡ true
      → Allows (Same p) o
      → Allows (Backs h') o
  unfolding Same Backs
  ready-Backs h h' p none agreed c same = tt
  ready-Backs h h' p (some r) agreed c same = (λ _. agreed, λ _. inl (same ∙ c))

  module _ (laws : DpmLaws dpm) where
    step-Backs :
        (h : List Round) (i : Input) (st : PeState) (p : Pe State)
        → Inv dpm laws st p
        → Backs h (st, p)
        → Allows (Backs ((st, i) ∷ h)) (pe_step dpm i st p)
    unfolding Backs pe_step pe_sink_startup pe_sink_discovery pe_sink_transition_default
        pe_sink_not_supported_received
    step-Backs h i startup p inv b = ground arith
    step-Backs h i discovery p inv b = ground (arith, b.0)
    step-Backs h i wait_cap p inv b =
        Kept-Backs h ((wait_cap, i) ∷ h) p _ (λ a. a) (b.0) (wait_cap-Kept dpm i p)
    step-Backs h i eval_cap p inv b =
        Kept-Backs h ((eval_cap, i) ∷ h) p _ (λ a. a) (b.0) (eval_cap-Kept dpm i p)
    step-Backs h i select_cap p inv b = select_cap-Backs h i p b
    step-Backs h i transition_sink p inv b = transition_sink-Backs h i p b
    step-Backs h i ready p inv b =
        ready-Backs h ((ready, i) ∷ h) p _ (b.0 inv.contract) inv.contract (ready-Same i p)
    step-Backs h i get_source_cap p inv b =
        Kept-Backs h ((get_source_cap, i) ∷ h) p _ (λ a. a) (b.0) (get_source_cap-Kept dpm i p)
    step-Backs h i give_sink_cap p inv b =
        Kept-Backs h ((give_sink_cap, i) ∷ h) p _ (λ a. a) (b.0) (give_sink_cap-Kept dpm i p)
    step-Backs h i hard_reset p inv b =
        Kept-Backs h ((hard_reset, i) ∷ h) p _ (λ a. a) (b.0) (hard_reset-Kept dpm p)
    step-Backs h i transition_default p inv b = ground arith
    step-Backs h i soft_reset p inv b =
        Kept-Backs h ((soft_reset, i) ∷ h) p _ (λ a. a) (b.0) (soft_reset-Kept dpm i p)
    step-Backs h i send_soft_reset p inv b =
        Kept-Backs h ((send_soft_reset, i) ∷ h) p _ (λ a. a) (b.0) (send_soft_reset-Kept dpm i p)
    step-Backs h i send_not_supported p inv b =
        Kept-Backs h ((send_not_supported, i) ∷ h) p _ (λ a. a) (b.0) (not_supported-Kept dpm i p)
    step-Backs h i chunk_received p inv b =
        Kept-Backs h ((chunk_received, i) ∷ h) p _ (λ a. a) (b.0) (chunk_received-Kept dpm i p)
    step-Backs h i not_supported_received p inv b = ground (arith, b.0)
    step-Backs h i source_unresponsive p inv b =
        Kept-Backs h ((source_unresponsive, i) ∷ h) p _ (λ a. a) (b.0)
          (source_unresponsive-Kept dpm i p)

    -- The rest of a run, after the round that ended with `o`.
    rest-Agreed :
        (is : List Input) (h : List Round) (o : Option (PeState × Pe State))
        → ((r : PeState × Pe State)
            → Keeps dpm laws r
            → Backs h r
            → Ends
                (λ r'. (r'.1).explicit_contract ≡ true → Agreed (history dpm is (r.0) (r.1) h))
                (pe_run dpm is (r.0) (r.1)))
        → Ends (λ r. Keeps dpm laws r × Backs h r) o
        → Ends
            (λ r'.
              (r'.1).explicit_contract ≡ true
              → Agreed (elim o [ none ↦ h | some r ↦ history dpm is (r.0) (r.1) h ]))
            (o >>= λ (st', p'). pe_run dpm is st' p')
    rest-Agreed is h none k kept = elim kept [ ]
    rest-Agreed is h (some r) k kept = k r (kept.0) (kept.1)

    run-Agreed :
        (is : List Input) (st : PeState) (p : Pe State) (h : List Round)
        → AllFits dpm laws is
        → Inv dpm laws st p
        → Backs h (st, p)
        → Ends
            (λ r. (r.1).explicit_contract ≡ true → Agreed (history dpm is st p h))
            (pe_run dpm is st p)
    unfolding pe_run history Backs
    run-Agreed [] st p h fits inv b = b.0
    run-Agreed (i ∷ is) st p h fits inv b =
        rest-Agreed is ((st, i) ∷ h) (pe_step dpm i st p)
          (λ r inv' b'. run-Agreed is (r.0) (r.1) ((st, i) ∷ h) (fits.1) inv' b')
          (Ends-Allows (Keeps dpm laws) (Backs ((st, i) ∷ h)) (pe_step dpm i st p)
            (step-Inv dpm laws i st p (fits.0) inv) (step-Backs h i st p inv b))

-- With a DPM that keeps to its interface, a buffer in the pool for each round, and no Get_Sink_Cap
-- message for a DPM that cannot answer one, the thread returns, and if it then takes a contract to
-- be in place, the source agreed to one: among the rounds since the last start or reset there is one
-- in PESinkSelectCap whose request was sent and answered with Accept, and the next round was one in
-- PESinkTransitionSink that got a PS_RDY message.
pub thread-Agreed :
    (dpm : DpmCallbacks) (laws : DpmLaws dpm) (is : List Input) (d : dpm.State)
    → laws.Sound d
    → AllFits dpm laws is
    → Ends
        (λ r. (r.1).explicit_contract ≡ true → Agreed (history dpm is startup (pe_init d) []))
        (pe_thread dpm is d)
unfolding pe_thread pe_init Backs
thread-Agreed dpm laws is d sound fits =
    run-Agreed dpm laws is startup (pe_init d) [] fits
      (record { template = inl refl; sound = sound; few_resets = omega arith; counted = refl })
      (ground arith)
