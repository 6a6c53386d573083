-- ===== src/Pe/Safety/Handlers.antt =====
-- The handlers of lib/src/policy_engine.c on the way to a contract and of the resets keep the
-- invariant.
use usb_pd_firmware.Prelude.{ℕ, inl, inr, Bool, Option-cases, arith, Ends, Ends->>=}
use usb_pd_firmware.Pd.{PdMsg}
use usb_pd_firmware.Pe.{DpmCallbacks, Pe, Input}
use usb_pd_firmware.Pe.Handlers.{
  choose_specrev, wait_cap_message, note_match, pe_sink_startup, pe_sink_wait_cap,
  pe_sink_select_cap, pe_sink_transition_sink, pe_sink_hard_reset, pe_sink_transition_default,
  pe_sink_source_unresponsive,
}
use usb_pd_firmware.Pe.Invariant.{DpmLaws, IsTemplate, IsNegotiated, Basic, Requested, Keeps}

-- A revision is chosen with the first capabilities, and stays.
choose_specrev-IsNegotiated : (t : ℕ) (m : PdMsg) → IsTemplate t → IsNegotiated (choose_specrev t m)
unfolding choose_specrev
choose_specrev-IsNegotiated t m h = ground arith

module _ (dpm : DpmCallbacks) (laws : DpmLaws dpm) where
  open dpm use {State}

  pub startup_safe :
      (p : Pe State) → Basic dpm laws p → Ends (Keeps dpm laws) (pe_sink_startup dpm p)
  unfolding pe_sink_startup
  startup_safe p h = elim (Option-cases dpm.pd_start) [
    | inl absent ↦ ground (arith, absent)
    | inr (f, there) ↦ ground (arith, there, laws.start_sound f p.dpm there h.sound)
  ]

  wait_cap_message_safe :
      (m : PdMsg) (p : Pe State)
      → Basic dpm laws p
      → Ends (Keeps dpm laws) (wait_cap_message dpm m p)
  unfolding wait_cap_message
  wait_cap_message_safe m p h = ground (arith, choose_specrev-IsNegotiated p.hdr_template m)

  pub wait_cap_safe :
      (i : Input) (p : Pe State)
      → Basic dpm laws p
      → Ends (Keeps dpm laws) (pe_sink_wait_cap dpm i p)
  unfolding pe_sink_wait_cap
  wait_cap_safe i p h = elim (Option-cases i.fetched) [
    | inl empty ↦ ground (arith, empty)
    | inr (m, got) ↦ ground (arith, got, choose_specrev-IsNegotiated p.hdr_template m)
  ]

  pub hard_reset_safe :
      (p : Pe State) → Basic dpm laws p → Ends (Keeps dpm laws) (pe_sink_hard_reset dpm p)
  unfolding pe_sink_hard_reset
  hard_reset_safe p h = ground arith

  pub transition_default_safe :
      (p : Pe State) → Basic dpm laws p → Ends (Keeps dpm laws) (pe_sink_transition_default dpm p)
  unfolding pe_sink_transition_default
  transition_default_safe p h = ground (arith, laws.default_sound p.dpm h.sound)

  note_match_safe :
      (a : Bool × State) (p : Pe State)
      → Basic dpm laws p
      → laws.Sound (a.1)
      → Ends (Keeps dpm laws) (note_match dpm p a)
  unfolding note_match
  note_match_safe a p h sound = ground (arith, laws.typec_sound (a.1) sound)

  pub source_unresponsive_safe :
      (i : Input) (p : Pe State)
      → Basic dpm laws p
      → Ends (Keeps dpm laws) (pe_sink_source_unresponsive dpm i p)
  unfolding pe_sink_source_unresponsive
  source_unresponsive_safe i p h = elim (Option-cases dpm.evaluate_typec_current) [
    | inl absent ↦ ground (arith, absent)
    | inr (f, there) ↦ rw there (
        Ends->>= (λ a. laws.Sound (a.1)) (Keeps dpm laws) (f i.typec_current p.dpm)
          (note_match dpm p) (laws.typec f i.typec_current p.dpm there h.sound)
          (λ a sound. note_match_safe a p h sound))
  ]

  pub select_cap_safe :
      (i : Input) (p : Pe State)
      → Requested dpm laws p
      → Ends (Keeps dpm laws) (pe_sink_select_cap dpm i p)
  unfolding pe_sink_select_cap
  select_cap_safe i p h = elim (Option-cases i.fetched) [
    | inl empty ↦ ground (arith, empty, laws.fed_sound p.dpm h.fed)
    | inr (m, got) ↦
        let standby = laws.standby_fed p.dpm h.fed in
        ground (
          arith,
          got,
          standby,
          laws.fed_sound p.dpm h.fed,
          laws.fed_sound (dpm.transition_standby p.dpm) standby,
        )
  ]

  pub transition_sink_safe :
      (i : Input) (p : Pe State)
      → Requested dpm laws p
      → Ends (Keeps dpm laws) (pe_sink_transition_sink dpm i p)
  unfolding pe_sink_transition_sink
  transition_sink_safe i p h = elim (Option-cases i.fetched) [
    | inl empty ↦ ground (arith, empty, laws.fed_sound p.dpm h.fed)
    | inr (m, got) ↦
        let sound = laws.fed_sound p.dpm h.fed in
        ground (arith, got, laws.requested_fed p.dpm h.fed, sound, laws.default_sound p.dpm sound)
  ]
