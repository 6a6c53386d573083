-- ===== src/Pe/Invariant.antt =====
-- What holds of the policy engine between two rounds of its loop, state by state, and what it
-- needs of the device policy manager.
use usb_pd_firmware.Prelude.{
  false, ℕ, ◌≤◌, ◌≡◌, ◌⊎◌, Bool, true, Option, none, some, refl, Ends, List, [], ◌∷◌, ◌+◌,
}
use usb_pd_firmware.Pd.{PdMsg, is_control}
use usb_pd_firmware.Pd.MsgType
use usb_pd_firmware.Pe.{
  PeState, Signal, start_ams, msg_tx, hardrst_reset, hardrst_done, Ptr, null, live, dangling,
  DpmCallbacks, Pe, Input, startup, discovery, wait_cap, eval_cap, select_cap, transition_sink,
  ready, get_source_cap, give_sink_cap, hard_reset, transition_default, soft_reset, send_soft_reset,
  send_not_supported, chunk_received, not_supported_received, source_unresponsive,
}

-- The header template is that of a sink: only the revision may be set.
abbrev pub IsTemplate : ℕ → Type 0
IsTemplate t = (t ≡ 0) ⊎ ((t ≡ 0x40) ⊎ (t ≡ 0x80))

-- A revision was chosen.
abbrev pub IsNegotiated : ℕ → Type 0
IsNegotiated t = (t ≡ 0x40) ⊎ (t ≡ 0x80)

-- What the engine relies on. `Sound` is what the DPM keeps at all times, `Fed` its promise that it
-- was given capabilities, which the interface asks for before it evaluates none. No callback
-- faults, and those that the engine calls with a contract in place keep the promise. A DPM that
-- makes no Sink_Capabilities message from no message leaves `Answers` empty.
pub record DpmLaws (dpm : DpmCallbacks) : Type 1 where
  pub Sound : dpm.State → Type 0
  pub Fed : dpm.State → Type 0
  pub Answers : Type 0
  pub fed_sound : (s : dpm.State) → Fed s → Sound s
  pub evaluate_new :
      (t : ℕ) (m b : PdMsg) (s : dpm.State)
      → IsNegotiated t
      → Sound s
      → Ends (λ a. Fed (a.2)) (dpm.evaluate_capability t (some m) b s)
  pub evaluate_old :
      (t : ℕ) (b : PdMsg) (s : dpm.State)
      → IsNegotiated t
      → Fed s
      → Ends (λ a. Fed (a.2)) (dpm.evaluate_capability t none b s)
  pub sink_capability :
      (t : ℕ) (b : PdMsg) (s : dpm.State)
      → Answers
      → Fed s
      → Ends (λ a. Fed (a.1)) (dpm.get_sink_capability t none b s)
  pub giveback :
      (f : dpm.State → Option (Bool × dpm.State)) (s : dpm.State)
      → dpm.giveback_enabled ≡ some f
      → Fed s
      → Ends (λ a. Fed (a.1)) (f s)
  pub typec :
      (f : ℕ → dpm.State → Option (Bool × dpm.State)) (tcc : ℕ) (s : dpm.State)
      → dpm.evaluate_typec_current ≡ some f
      → Sound s
      → Ends (λ a. Sound (a.1)) (f tcc s)
  pub start_sound :
      (f : dpm.State → dpm.State) (s : dpm.State) → dpm.pd_start ≡ some f → Sound s → Sound (f s)
  pub default_sound : (s : dpm.State) → Sound s → Sound (dpm.transition_default s)
  pub typec_sound : (s : dpm.State) → Sound s → Sound (dpm.transition_typec s)
  pub min_fed : (s : dpm.State) → Fed s → Fed (dpm.transition_min s)
  pub standby_fed : (s : dpm.State) → Fed s → Fed (dpm.transition_standby s)
  pub requested_fed : (s : dpm.State) → Fed s → Fed (dpm.transition_requested s)
  pub not_supported_fed :
      (f : dpm.State → dpm.State) (s : dpm.State)
      → dpm.not_supported_received ≡ some f
      → Fed s
      → Fed (f s)

abbrev pub Held {ℓ} : {A : Type ℓ} → Option A → Type 0
Held o = Ends (λ _. Unit {0}) o

-- How many hard resets were asked for.
abbrev pub resets : List Signal → ℕ
resets [] = 0
resets (start_ams ∷ es) = resets es
resets (msg_tx _ ∷ es) = resets es
resets (hardrst_reset ∷ es) = resets es + 1
resets (hardrst_done ∷ es) = resets es

pub Held-eq {ℓ} : {A : Type ℓ} (o : Option A) → Held o → (a : A) × (o ≡ some a)
Held-eq none h = elim h [ ]
Held-eq (some a) h = (a, refl)

module _ (dpm : DpmCallbacks) (laws : DpmLaws dpm) where
  open dpm use {State}
  open laws use {Sound, Fed, Answers}

  -- In every state: at most three hard resets were asked for, and each was counted.
  pub record Basic (p : Pe State) : Type 0 where
    pub template : IsTemplate p.hdr_template
    pub sound : Sound p.dpm
    pub few_resets : p.hard_reset_counter ≤ 3
    pub counted : resets p.signals ≡ p.hard_reset_counter

  -- With capabilities evaluated: no message is held, and there is a request.
  pub record Requested (p : Pe State) : Type 0 where
    pub few_resets : p.hard_reset_counter ≤ 3
    pub counted : resets p.signals ≡ p.hard_reset_counter
    pub negotiated : IsNegotiated p.hdr_template
    pub no_message : p.message ≡ null
    pub request : Held p.last_dpm_request
    pub fed : Fed p.dpm

  -- With a contract.
  pub record Contracted (p : Pe State) : Type 0 where
    pub requested : Requested p
    pub contract : p.explicit_contract ≡ true

  -- A message to evaluate, or none and a DPM that has capabilities.
  abbrev pub Evaluable : Ptr → Pe State → Type 0
  Evaluable (live m) p = Unit
  Evaluable null p = Fed p.dpm
  Evaluable dangling p = ⊥

  pub record Evaluating (p : Pe State) : Type 0 where
    pub few_resets : p.hard_reset_counter ≤ 3
    pub counted : resets p.signals ≡ p.hard_reset_counter
    pub negotiated : IsNegotiated p.hdr_template
    pub evaluable : Evaluable p.message p
    pub sound : Sound p.dpm

  abbrev pub Inv : PeState → Pe State → Type 0
  Inv startup p = Basic p
  Inv discovery p = Basic p
  Inv wait_cap p = Basic p
  Inv eval_cap p = Evaluating p
  Inv select_cap p = Requested p
  Inv transition_sink p = Requested p
  Inv ready p = Contracted p
  Inv get_source_cap p = Contracted p
  Inv give_sink_cap p = Answers × Contracted p
  Inv hard_reset p = Basic p
  Inv transition_default p = Basic p
  Inv soft_reset p = Basic p
  Inv send_soft_reset p = Basic p
  Inv send_not_supported p = Contracted p
  Inv chunk_received p = Contracted p
  Inv not_supported_received p = Contracted p
  Inv source_unresponsive p = Basic p

  abbrev pub Keeps : PeState × Pe State → Type 0
  Keeps r = Inv (r.0) (r.1)

  -- No Get_Sink_Cap message is at the head of the mailbox.
  abbrev pub NotAsked : Option PdMsg → Type 0
  NotAsked none = Unit
  NotAsked (some m) = is_control m MsgType.get_sink_cap ≡ false

  -- The pool has a buffer; a Get_Sink_Cap message comes only to a DPM that answers it.
  abbrev pub Fits : Input → Type 0
  Fits i = Held i.buffer × (Answers ⊎ NotAsked i.fetched)
