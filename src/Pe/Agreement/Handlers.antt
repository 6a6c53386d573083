-- ===== src/Pe/Agreement/Handlers.antt =====
-- The handlers of lib/src/policy_engine.c that neither make a contract nor go to
-- PESinkTransitionSink.
use mathlib.Core.Path.{sym, ◌∙◌}
use usb_pd_firmware.Prelude.{
  true, ◌≡◌, refl, inl, inr, Allows, Allows->>=, Allows-after, Option-cases, arith,
}
use usb_pd_firmware.Pe.{
  PeState, Ptr, null, live, dangling, DpmCallbacks, Pe, Input, transition_sink,
}
use usb_pd_firmware.Pe.Handlers.{
  pe_sink_wait_cap, wait_cap_message, pe_sink_eval_cap, note_capabilities, request_buffer,
  keep_request, pe_sink_hard_reset, pe_sink_transition_default, pe_sink_source_unresponsive,
  note_match,
}
use usb_pd_firmware.Pe.Messages.{
  pe_sink_get_source_cap, pe_sink_give_sink_cap, pe_sink_soft_reset, pe_sink_send_soft_reset,
  pe_sink_send_not_supported, pe_sink_chunk_received, readable, send_sink_cap,
}

abbrev pub Elsewhere : PeState → Type 0
Elsewhere transition_sink = ⊥
Elsewhere _ = Unit

module _ (dpm : DpmCallbacks) where
  open dpm use {State}

  -- The round leaves the contract or ends it, and goes to no transition.
  unfoldable pub Kept : Pe State → PeState × Pe State → Type 0
  Kept p r = Elsewhere (r.0) × ((r.1).explicit_contract ≡ true → p.explicit_contract ≡ true)

  pub wait_cap-Kept : (i : Input) (p : Pe State) → Allows (Kept p) (pe_sink_wait_cap dpm i p)
  unfolding Kept pe_sink_wait_cap wait_cap_message
  wait_cap-Kept i p = elim (Option-cases i.fetched) [
    | inl empty ↦ ground (arith, empty)
    | inr (m, got) ↦ ground (arith, got)
  ]

  pub transition_default-Kept : (p : Pe State) → Allows (Kept p) (pe_sink_transition_default dpm p)
  unfolding Kept pe_sink_transition_default
  transition_default-Kept p = ground arith

  pub hard_reset-Kept : (p : Pe State) → Allows (Kept p) (pe_sink_hard_reset dpm p)
  unfolding Kept pe_sink_hard_reset
  hard_reset-Kept p = ground arith

  pub send_soft_reset-Kept :
      (i : Input) (p : Pe State) → Allows (Kept p) (pe_sink_send_soft_reset dpm i p)
  unfolding Kept pe_sink_send_soft_reset
  send_soft_reset-Kept i p = Allows-after (Kept p) i.buffer _ (λ b. elim (Option-cases i.fetched) [
    | inl empty ↦ ground (arith, empty)
    | inr (m, got) ↦ ground (arith, got)
  ])

  pub soft_reset-Kept : (i : Input) (p : Pe State) → Allows (Kept p) (pe_sink_soft_reset dpm i p)
  unfolding Kept pe_sink_soft_reset
  soft_reset-Kept i p = Allows-after (Kept p) i.buffer _ (λ b. ground arith)

  pub not_supported-Kept :
      (i : Input) (p : Pe State) → Allows (Kept p) (pe_sink_send_not_supported dpm i p)
  unfolding Kept pe_sink_send_not_supported
  not_supported-Kept i p = Allows-after (Kept p) i.buffer _ (λ b. ground arith)

  pub get_source_cap-Kept :
      (i : Input) (p : Pe State) → Allows (Kept p) (pe_sink_get_source_cap dpm i p)
  unfolding Kept pe_sink_get_source_cap
  get_source_cap-Kept i p = Allows-after (Kept p) i.buffer _ (λ b. ground arith)

  pub chunk_received-Kept :
      (i : Input) (p : Pe State) → Allows (Kept p) (pe_sink_chunk_received dpm i p)
  unfolding Kept pe_sink_chunk_received
  chunk_received-Kept i p = ground arith

  pub give_sink_cap-Kept :
      (i : Input) (p : Pe State) → Allows (Kept p) (pe_sink_give_sink_cap dpm i p)
  unfolding Kept pe_sink_give_sink_cap send_sink_cap
  give_sink_cap-Kept i p = Allows-after (Kept p) i.buffer _ (λ b.
      Allows-after (Kept p) (readable p.message) _ (λ m.
        Allows-after (Kept p) (dpm.get_sink_capability p.hdr_template m b p.dpm) _
          (λ made. ground arith)))

  request_buffer-Same :
      (i : Input) (p : Pe State)
      → Allows (λ got. (got.1).explicit_contract ≡ p.explicit_contract) (request_buffer dpm i p)
  unfolding request_buffer
  request_buffer-Same i p = elim (Option-cases p.last_dpm_request) [
    | inl empty ↦ rw empty (Allows-after _ i.buffer _ (λ b. refl))
    | inr (r, held) ↦ rw held refl
  ]

  note_capabilities-Same :
      (m : Ptr) (p : Pe State)
      → Allows (λ got. (got.1).explicit_contract ≡ p.explicit_contract) (note_capabilities dpm m p)
  unfolding note_capabilities
  note_capabilities-Same null p = refl
  note_capabilities-Same (live m) p = refl
  note_capabilities-Same dangling p = tt

  pub eval_cap-Kept : (i : Input) (p : Pe State) → Allows (Kept p) (pe_sink_eval_cap dpm i p)
  unfolding Kept pe_sink_eval_cap keep_request
  eval_cap-Kept i p =
      Allows->>= _ (Kept p) (note_capabilities dpm p.message p) _
        (note_capabilities-Same p.message p)
        (λ noted e.
          Allows->>= _ (Kept p) (request_buffer dpm i (noted.1)) _ (request_buffer-Same i (noted.1))
            (λ got e'.
              Allows-after (Kept p) (dpm.evaluate_capability p.hdr_template (noted.0) (got.0) p.dpm)
                _ (λ answer. (tt, λ c. sym e ∙ (sym e' ∙ c)))))

  pub source_unresponsive-Kept :
      (i : Input) (p : Pe State) → Allows (Kept p) (pe_sink_source_unresponsive dpm i p)
  unfolding Kept pe_sink_source_unresponsive note_match
  source_unresponsive-Kept i p = elim (Option-cases dpm.evaluate_typec_current) [
    | inl absent ↦ ground (arith, absent)
    | inr (f, there) ↦
        rw there
          (Allows-after (Kept p) (f i.typec_current p.dpm) (note_match dpm p) (λ a. (tt, λ c. c)))
  ]
