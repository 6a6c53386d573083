-- ===== src/Pe/Tests.antt =====
-- Runs of the policy engine with a DPM that only remembers whether it was given capabilities, and
-- requests 5 V.
use usb_pd_firmware.Prelude.{
  ℕ, zero, suc, ◌≤◌, ◌≡◌, refl, inl, Bool, true, false, Option, none, some, List, [], ◌∷◌, Ends,
  arith, replicate,
}
use usb_pd_firmware.Pd.{PdMsg}
use usb_pd_firmware.Pe.{no_events, DpmCallbacks, Input, startup, source_unresponsive, pe_init}
use usb_pd_firmware.Pe.Invariant.{DpmLaws, Keeps, resets}
use usb_pd_firmware.Pe.Step.{pe_thread, pe_run, pe_step}
use usb_pd_firmware.Pe.Runs.{AllFits, thread-Keeps, thread_resets}
use usb_pd_firmware.Pe.Agreement.{Agreed, history}
use usb_pd_firmware.Pe.Agreement.Runs.{thread-Agreed}
use usb_pd_firmware.Pe.Handlers.{
  pe_sink_startup, pe_sink_discovery, pe_sink_wait_cap, wait_cap_message, choose_specrev,
  pe_sink_eval_cap, note_capabilities, find_pps, request_buffer, keep_request, pe_sink_select_cap,
  set_pps_timer, select_cap_sent, select_cap_response, pe_sink_transition_sink,
}
use usb_pd_firmware.Pe.Silence.{AllSilent, silent_source}

abbrev test_evaluate : ℕ → Option PdMsg → PdMsg → Bool → Option (Bool × PdMsg × Bool)
test_evaluate t (some m) b s = some (true, record { hdr = 0x1042; obj = 0x1001900a ∷ [] }, true)
test_evaluate t none b true = some (true, record { hdr = 0x1042; obj = 0x1001900a ∷ [] }, true)
test_evaluate t none b false = none

abbrev test_dpm : DpmCallbacks
test_dpm = record {
  State = Bool;
  evaluate_capability = test_evaluate;
  get_sink_capability = λ t m b s. some (b, s);
  giveback_enabled = some (λ s. some (true, s));
  evaluate_typec_current = some (λ tcc s. some (false, s));
  pd_start = none;
  transition_default = λ s. s;
  transition_min = λ s. s;
  transition_standby = λ s. s;
  transition_requested = λ s. s;
  transition_typec = λ s. s;
  not_supported_received = none;
}

old_fed :
    (t : ℕ) (b : PdMsg) (s : Bool) → s ≡ true → Ends (λ a. a.2 ≡ true) (test_evaluate t none b s)
old_fed t b true h = refl
old_fed t b false h = ground arith

giveback_fed :
    (f : Bool → Option (Bool × Bool)) (s : Bool)
    → some (λ t. some (true, t)) ≡ some f
    → s ≡ true
    → Ends (λ a. a.1 ≡ true) (f s)
giveback_fed f s e h =
    let same : ◌≡◌ {A = Bool → Option (Bool × Bool)} (λ t. some (true, t)) f = cc in rw (← same) h

typec-Ends :
    (f : ℕ → Bool → Option (Bool × Bool)) (tcc : ℕ) (s : Bool)
    → some (λ t u. some (false, u)) ≡ some f
    → Unit {0}
    → Ends (λ _. Unit {0}) (f tcc s)
typec-Ends f tcc s e sound =
    let same : ◌≡◌ {A = ℕ → Bool → Option (Bool × Bool)} (λ t u. some (false, u)) f = cc in
    rw (← same) _

no_callback : (f : Bool → Bool) (s : Bool) → none ≡ some f → f s ≡ true
no_callback f s e = absurd cc

abbrev test_laws : DpmLaws test_dpm
test_laws = record {
  Sound = λ s. Unit;
  Fed = λ s. s ≡ true;
  Answers = Unit;
  fed_sound = λ s h. tt;
  evaluate_new = λ t m b s ok sound. refl;
  evaluate_old = λ t b s ok h. old_fed t b s h;
  sink_capability = λ t b s answers h. h;
  giveback = giveback_fed;
  typec = typec-Ends;
  start_sound = λ f s e h. tt;
  default_sound = λ s h. tt;
  typec_sound = λ s h. tt;
  min_fed = λ s h. h;
  standby_fed = λ s h. h;
  requested_fed = λ s h. h;
  not_supported_fed = λ f s e h. no_callback f s e;
}

abbrev quiet : Input
quiet = record {
  pending = no_events;
  pending_later = no_events;
  fetched = none;
  buffer = some (record { hdr = 0; obj = 0 ∷ [] });
  typec_current = 1;
}

abbrev received : PdMsg → Input
received m = record quiet {
  pending = record no_events { msg_rx = true; tx_done = true };
  pending_later = record no_events { msg_rx = true };
  fetched = some m;
}

-- Source_Capabilities with 5 V at 3 A, Accept, PS_RDY.
abbrev negotiation : List Input
negotiation =
    quiet
    ∷ quiet
    ∷ received (record { hdr = 0x1181; obj = 0x0801912c ∷ [] })
    ∷ quiet
    ∷ received (record { hdr = 0x0183; obj = [] })
    ∷ received (record { hdr = 0x0186; obj = [] })
    ∷ []

abbrev silence : List Input
silence = replicate 19 quiet

all_quiet : (n : ℕ) → AllSilent (replicate n quiet)
all_quiet zero = _
all_quiet (suc n) = (refl, all_quiet n)

fits_negotiation : AllFits test_dpm test_laws negotiation
fits_negotiation = (
  (tt, inl tt),
  ((tt, inl tt), ((tt, inl tt), ((tt, inl tt), ((tt, inl tt), ((tt, inl tt), tt))))),
)

fits_silence : (n : ℕ) → AllFits test_dpm test_laws (replicate n quiet)
fits_silence zero = tt
fits_silence (suc n) = ((tt, inl tt), fits_silence n)

thread-Keeps_example : Ends (Keeps test_dpm test_laws) (pe_thread test_dpm negotiation false)
thread-Keeps_example = thread-Keeps test_dpm test_laws negotiation false tt fits_negotiation

thread_resets_example :
    Ends
      (λ r. (resets (r.1).signals ≤ 3) × (resets (r.1).signals ≡ (r.1).hard_reset_counter))
      (pe_thread test_dpm silence false)
thread_resets_example = thread_resets test_dpm test_laws silence false tt (fits_silence 19)

silent_source_example :
    Ends
      (λ r. (r.0 ≡ source_unresponsive) × (resets (r.1).signals ≡ 3))
      (pe_thread test_dpm silence false)
silent_source_example =
    silent_source test_dpm test_laws silence false tt (all_quiet 19) (omega arith)

thread-Agreed_example :
    Ends
      (λ r.
        (r.1).explicit_contract ≡ true
        → Agreed (history test_dpm negotiation startup (pe_init false) []))
      (pe_thread test_dpm negotiation false)
thread-Agreed_example = thread-Agreed test_dpm test_laws negotiation false tt fits_negotiation

-- This run has a contract.
contract_made : Ends (λ r. (r.1).explicit_contract ≡ true) (pe_thread test_dpm negotiation false)
unfolding pe_thread pe_run pe_step pe_init pe_sink_startup pe_sink_discovery pe_sink_wait_cap
    wait_cap_message choose_specrev pe_sink_eval_cap note_capabilities find_pps request_buffer
    keep_request pe_sink_select_cap set_pps_timer select_cap_sent select_cap_response
    pe_sink_transition_sink
contract_made = refl
