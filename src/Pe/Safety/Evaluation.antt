-- ===== src/Pe/Safety/Evaluation.antt =====
-- `pe_sink_eval_cap` of lib/src/policy_engine.c keeps the invariant.
use usb_pd_firmware.Prelude.{◌≤◌, ◌≡◌, inl, inr, Bool, Option, Option-cases, arith, Ends, Ends->>=}
use usb_pd_firmware.Pd.{PdMsg}
use usb_pd_firmware.Pe.{Ptr, null, live, dangling, DpmCallbacks, Pe, Input}
use usb_pd_firmware.Pe.Handlers.{note_capabilities, request_buffer, keep_request, pe_sink_eval_cap}
use usb_pd_firmware.Pe.Invariant.{
  DpmLaws, IsNegotiated, Held, Held-eq, resets, Evaluable, Evaluating, Keeps,
}

module _ (dpm : DpmCallbacks) (laws : DpmLaws dpm) where
  open dpm use {State}

  -- What the two steps before the evaluation leave.
  Ready : Pe State → Type 0
  Ready p =
      (p.hard_reset_counter ≤ 3)
      × (resets p.signals ≡ p.hard_reset_counter)
      × IsNegotiated p.hdr_template

  -- What a request that was evaluated leaves.
  keep_request_safe :
      (p : Pe State) (a : Bool × PdMsg × State)
      → Ready p
      → laws.Fed (a.2)
      → Ends (Keeps dpm laws) (keep_request dpm p a)
  unfolding keep_request Ready
  keep_request_safe p a ok fed = ground arith

  request_buffer_safe :
      (i : Input) (p : Pe State)
      → Held i.buffer
      → Ready p
      → Ends (λ got. Ready (got.1)) (request_buffer dpm i p)
  unfolding request_buffer Ready
  request_buffer_safe i p room ok = elim (Option-cases p.last_dpm_request) [
    | inl empty ↦ ground (arith, empty, (Held-eq i.buffer room).1)
    | inr (r, there) ↦ ground (arith, there)
  ]

  Noted : Pe State → Option PdMsg × Pe State → Type 0
  Noted p noted =
      Ready (noted.1)
      × ((b : PdMsg)
          → Ends (λ a. laws.Fed (a.2)) (dpm.evaluate_capability p.hdr_template (noted.0) b p.dpm))

  note_capabilities_safe :
      (q : Ptr) (p : Pe State)
      → Evaluable dpm laws q p
      → laws.Sound p.dpm
      → Ready p
      → Ends (Noted p) (note_capabilities dpm q p)
  unfolding note_capabilities Noted Ready
  note_capabilities_safe null p h sound ok =
      (ok, λ b. laws.evaluate_old p.hdr_template b p.dpm (ok.2) h)
  note_capabilities_safe (live m) p h sound ok =
      (ok, λ b. laws.evaluate_new p.hdr_template m b p.dpm (ok.2) sound)
  note_capabilities_safe dangling p h sound ok = elim h [ ]

  pub eval_cap_safe :
      (i : Input) (p : Pe State)
      → Held i.buffer
      → Evaluating dpm laws p
      → Ends (Keeps dpm laws) (pe_sink_eval_cap dpm i p)
  unfolding pe_sink_eval_cap Noted Ready
  eval_cap_safe i p room h =
      Ends->>= (Noted p) (Keeps dpm laws) (note_capabilities dpm p.message p) _
        (note_capabilities_safe p.message p h.evaluable h.sound
          (h.few_resets, h.counted, h.negotiated))
        (λ noted ok.
          Ends->>= (λ got. Ready (got.1)) (Keeps dpm laws) (request_buffer dpm i (noted.1)) _
            (request_buffer_safe i (noted.1) room (ok.0))
            (λ got fine.
              Ends->>= (λ a. laws.Fed (a.2)) (Keeps dpm laws)
                (dpm.evaluate_capability p.hdr_template (noted.0) (got.0) p.dpm) _ (ok.1 (got.0))
                (λ a fed. keep_request_safe (got.1) a fine fed)))
