-- ===== src/Firmware/Safety.antt =====
-- The threads of src/main.c that negotiate: the policy engine with the device policy manager.
use usb_pd_firmware.Prelude.{
  ◌≡◌, refl, inl, inr, true, none, some, List, [], ◌∷◌, Option-cases, arith, Ends,
}
use usb_pd_firmware.Pd.{PdMsg, is_control}
use usb_pd_firmware.Pd.MsgType
use usb_pd_firmware.Config.{PdbsConfig, config_read}
use usb_pd_firmware.Dpm.{Sink}
use usb_pd_firmware.Dpm.SinkCap.{get_sink_capability_null}
use usb_pd_firmware.Pe.{null, no_events, Pe, Input, ready, give_sink_cap}
use usb_pd_firmware.Pe.Messages.{readable, pe_sink_give_sink_cap}
use usb_pd_firmware.Pe.Ready.{other_message, ready_message, pe_sink_ready}
use usb_pd_firmware.Pe.Step.{pe_step, pe_run, pe_thread}
use usb_pd_firmware.Pe.Invariant.{DpmLaws, Held, Keeps, NotAsked}
use usb_pd_firmware.Pe.Runs.{AllFits, thread-Keeps}
use usb_pd_firmware.Firmware.{pdb_config_dpm}
use usb_pd_firmware.Firmware.Laws.{
  Configured, HasCaps, evaluate-HasCaps, giveback-HasCaps, typec-Configured, Same-Configured,
  transitions-Same, Same-HasCaps,
}

-- The laws, for a board with a configuration; nothing answers a Get_Sink_Cap.
unfoldable pub pdb_config_laws : DpmLaws pdb_config_dpm
pdb_config_laws = record {
  Sound = λ s. Configured s.flash;
  Fed = λ s. HasCaps s;
  Answers = ⊥;
  fed_sound = λ s h. h.configured;
  evaluate_new = λ t m b s n h. evaluate-HasCaps t (some m) b s h (inl tt);
  evaluate_old = λ t b s n h. evaluate-HasCaps t none b s h.configured (inr h.capabilities);
  sink_capability = λ t b s never h. elim never [ ];
  giveback = λ f s e h. rw (← some-inj e) (giveback-HasCaps s h);
  typec = λ f tcc s e h. rw (← some-inj e) (typec-Configured tcc s h);
  start_sound = λ f s e h. rw (← some-inj e) (Same-Configured s _ ((transitions-Same s).0) h);
  default_sound = λ s h. Same-Configured s _ ((transitions-Same s).1) h;
  typec_sound = λ s h. Same-Configured s _ ((transitions-Same s).5) h;
  min_fed = λ s h. Same-HasCaps s _ ((transitions-Same s).2) h;
  standby_fed = λ s h. Same-HasCaps s _ ((transitions-Same s).3) h;
  requested_fed = λ s h. Same-HasCaps s _ ((transitions-Same s).4) h;
  not_supported_fed = λ f s e h. none-ne-some e;
}
  where
    some-inj : {A : Type 0} {a b : A} → some a ≡ some b → a ≡ b
    some-inj e = cc

    none-ne-some : {A : Type 0} {B : Type 0} {a : A} → none ≡ some a → B
    none-ne-some e = absurd cc

-- Each input has a buffer, and none has a Get_Sink_Cap message.
abbrev pub AllServed : List Input → Type 0
AllServed [] = Unit
AllServed (i ∷ is) =
    (Held i.buffer × NotAsked pdb_config_dpm pdb_config_laws i.fetched) × AllServed is

pub served_fits : (is : List Input) → AllServed is → AllFits pdb_config_dpm pdb_config_laws is
served_fits [] h = tt
served_fits (i ∷ is) h = ((h.0.0, inr (h.0.1)), served_fits is h.1)

-- The policy engine of the firmware, with its device policy manager and a stored configuration
-- whose current takes no division by a voltage or by zero: while no Get_Sink_Cap message comes and
-- the pool has buffers, no run faults, for any source, and each is left in a state that satisfies
-- the engine's invariant.
pub thread-Keeps_firmware :
    (is : List Input) (s : Sink)
    → Configured s.flash
    → AllServed is
    → Ends (Keeps pdb_config_dpm pdb_config_laws) (pe_thread pdb_config_dpm is s)
unfolding pdb_config_laws
thread-Keeps_firmware is s h served =
    thread-Keeps pdb_config_dpm pdb_config_laws is s h (served_fits is served)

to_give_sink_cap :
    (i : Input) (m : PdMsg) (p : Pe Sink)
    → i.pending ≡ record no_events { msg_rx = true }
    → i.fetched ≡ some m
    → is_control m MsgType.get_sink_cap ≡ true
    → pe_step pdb_config_dpm i ready p ≡ some (give_sink_cap, record p { message = null })
unfolding pe_step pe_sink_ready ready_message other_message
to_give_sink_cap i m p woken got asked = ground (arith, woken, got, asked)

-- A Get_Sink_Cap message to the firmware with any stored configuration, however its current is
-- defined: the round in which PESinkReady receives it and the next one end in a fault, for every
-- such message, source and state.
pub run_get_sink_cap :
    (i j : Input) (m : PdMsg) (p : Pe Sink) (scfg : PdbsConfig)
    → (config_read p.dpm.flash).0 ≡ some scfg
    → i.pending ≡ record no_events { msg_rx = true }
    → i.fetched ≡ some m
    → is_control m MsgType.get_sink_cap ≡ true
    → pe_run pdb_config_dpm (i ∷ j ∷ []) ready p ≡ none
unfolding pe_run pe_step pe_sink_give_sink_cap readable
run_get_sink_cap i j m p scfg stored woken got asked =
    rw (to_give_sink_cap i m p woken got asked) (elim (Option-cases j.buffer) [
      | inl full ↦ rw full refl
      | inr (b, there) ↦
          rw (there, get_sink_capability_null p.hdr_template b p.dpm scfg stored) refl
    ])
