-- ===== src/Pe/Safety/Contract.antt =====
-- `pe_sink_ready` of lib/src/policy_engine.c keeps the invariant.
use mathlib.Core.Path.{subst}
use usb_pd_firmware.Prelude.{
  some, refl, ◌≡◌, ◌⊎◌, inl, inr, Bool, true, false, if◌then◌else◌, Option-cases, arith, Ends,
  Ends->>=, Ends-if,
}
use usb_pd_firmware.Pd.{PdMsg, is_control, is_data}
use usb_pd_firmware.Pd.MsgType
use usb_pd_firmware.Pe.{
  PeState, null, live, startup, discovery, wait_cap, eval_cap, select_cap, transition_sink, ready,
  get_source_cap, give_sink_cap, hard_reset, transition_default, soft_reset, send_soft_reset,
  send_not_supported, chunk_received, not_supported_received, source_unresponsive, is_pd_3_0,
  DpmCallbacks, Pe, Input,
}
use usb_pd_firmware.Pe.Ready.{
  is_ignored, is_unsupported, is_multi_chunk, other_message, goto_min, goto_min_answer,
  ready_message, drop_message, pe_sink_ready,
}
use usb_pd_firmware.Pe.Invariant.{DpmLaws, Contracted, Keeps, NotAsked, Fits}

-- Where a message leads that is neither evaluated nor a GotoMin, with `A` for an answer to
-- Get_Sink_Cap.
abbrev Follows : Type 0 → PeState → Type 0
Follows A give_sink_cap = A
Follows A soft_reset = Unit
Follows A send_soft_reset = Unit
Follows A chunk_received = Unit
Follows A not_supported_received = Unit
Follows A ready = Unit
Follows A send_not_supported = Unit
Follows A _ = ⊥

Follows-if :
    (A : Type 0) (b : Bool) (st st' : PeState)
    → (b ≡ true → Follows A st)
    → Follows A st'
    → Follows A (if b then st else st')
Follows-if A true st st' h k = h refl
Follows-if A false st st' h k = k

module _ (dpm : DpmCallbacks) (laws : DpmLaws dpm) where
  open dpm use {State}

  -- The message was given back to the pool, and another state handles the rest.
  freed-Keeps :
      (st : PeState) (p : Pe State)
      → Follows laws.Answers st
      → Contracted dpm laws p
      → Keeps dpm laws (st, record p { message = null })
  freed-Keeps startup p f h = elim f [ ]
  freed-Keeps discovery p f h = elim f [ ]
  freed-Keeps wait_cap p f h = elim f [ ]
  freed-Keeps eval_cap p f h = elim f [ ]
  freed-Keeps select_cap p f h = elim f [ ]
  freed-Keeps transition_sink p f h = elim f [ ]
  freed-Keeps ready p f h = ground arith
  freed-Keeps get_source_cap p f h = elim f [ ]
  freed-Keeps give_sink_cap p f h = ground (arith, f)
  freed-Keeps hard_reset p f h = elim f [ ]
  freed-Keeps transition_default p f h = elim f [ ]
  freed-Keeps soft_reset p f h = ground (arith, laws.fed_sound p.dpm h.requested.fed)
  freed-Keeps send_soft_reset p f h = ground (arith, laws.fed_sound p.dpm h.requested.fed)
  freed-Keeps send_not_supported p f h = ground arith
  freed-Keeps chunk_received p f h = ground arith
  freed-Keeps not_supported_received p f h = ground arith
  freed-Keeps source_unresponsive p f h = elim f [ ]

  asked :
      (m : PdMsg)
      → laws.Answers ⊎ (is_control m MsgType.get_sink_cap ≡ false)
      → is_control m MsgType.get_sink_cap ≡ true
      → laws.Answers
  asked m (inl answers) e = answers
  asked m (inr never) e = absurd (ground (arith, never, e))

  other_message-Follows :
      (b : Bool) (m : PdMsg)
      → laws.Answers ⊎ (is_control m MsgType.get_sink_cap ≡ false)
      → Follows laws.Answers (other_message b m)
  unfolding other_message
  other_message-Follows b m may =
      let F = Follows-if laws.Answers in
      F (is_control m MsgType.get_sink_cap) _ _ (asked m may) (
        F (is_control m MsgType.soft_reset) _ _ (λ _. tt)
          (F b _ _
            (λ _.
              F (is_multi_chunk m) _ _ (λ _. tt)
                (F (is_control m MsgType.not_supported) _ _ (λ _. tt) tt))
            tt))

  goto_min_answer_safe :
      (a : Bool × State) (p : Pe State)
      → Contracted dpm laws p
      → laws.Fed (a.1)
      → Ends (Keeps dpm laws) (goto_min_answer dpm p a)
  unfolding goto_min_answer
  goto_min_answer_safe a p h fed = ground (arith, laws.min_fed (a.1) fed)

  goto_min_safe : (p : Pe State) → Contracted dpm laws p → Ends (Keeps dpm laws) (goto_min dpm p)
  unfolding goto_min
  goto_min_safe p h = elim (Option-cases dpm.giveback_enabled) [
    | inl absent ↦ ground (arith, absent)
    | inr (f, there) ↦ rw there (
        Ends->>= (λ a. laws.Fed (a.1)) (Keeps dpm laws) (f p.dpm) (goto_min_answer dpm p)
          (laws.giveback f p.dpm there h.requested.fed) (λ a fed. goto_min_answer_safe a p h fed))
  ]

  evaluable :
      (m : PdMsg) (p : Pe State)
      → Contracted dpm laws p
      → Keeps dpm laws (eval_cap, record p { message = live m })
  evaluable m p h = ground (arith, laws.fed_sound p.dpm h.requested.fed)

  ready_message_safe :
      (m : PdMsg) (p : Pe State)
      → laws.Answers ⊎ (is_control m MsgType.get_sink_cap ≡ false)
      → Contracted dpm laws p
      → Ends (Keeps dpm laws) (ready_message dpm m p)
  unfolding ready_message
  ready_message_safe m p may h =
      Ends-if (Keeps dpm laws) (is_ignored m) _ _ (freed-Keeps ready p tt h) (
        Ends-if (Keeps dpm laws) (is_unsupported m) _ _ (freed-Keeps send_not_supported p tt h) (
          Ends-if (Keeps dpm laws) (is_control m MsgType.gotomin) _ _ (goto_min_safe p h) (
            Ends-if (Keeps dpm laws) (is_data m MsgType.source_capabilities) _ _ (evaluable m p h)
              (freed-Keeps (other_message (is_pd_3_0 p) m) p (other_message-Follows _ m may) h))))

  fetched_may :
      (i : Input) (m : PdMsg)
      → Fits dpm laws i
      → i.fetched ≡ some m
      → laws.Answers ⊎ (is_control m MsgType.get_sink_cap ≡ false)
  fetched_may i m fits got = subst (λ o. laws.Answers ⊎ NotAsked dpm laws o) got (fits.1)

  pub ready_safe :
      (i : Input) (p : Pe State)
      → Fits dpm laws i
      → Contracted dpm laws p
      → Ends (Keeps dpm laws) (pe_sink_ready dpm i p)
  unfolding pe_sink_ready drop_message
  ready_safe i p fits h =
      let sound = laws.fed_sound p.dpm h.requested.fed in
      elim (Option-cases i.fetched) [
        | inl empty ↦ ground (arith, empty, h.requested.no_message, sound)
        | inr (m, got) ↦ ground (
          arith,
          got,
          ready_message_safe m p (fetched_may i m fits got) h,
          h.requested.no_message,
          sound,
        )
      ]
