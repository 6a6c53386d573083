-- ===== src/Pe/Agreement.antt =====
-- What lib/src/policy_engine.c calls an explicit contract: the rounds of the loop in which the source
-- agreed to a request.
pub mod Handlers
pub mod Runs
use mathlib.Core.Path.{sym, ◌∙◌}
use usb_pd_firmware.Prelude.{
  ℕ, Bool, true, false, ◌≡◌, refl, ◌⊎◌, inl, inr, Option, some, none, List, [], ◌∷◌, ◌&&◌, ◌>>=◌,
  Ends, Ends-map, Ends-Allows, Allows, Allows->>=, Allows-after, Option-cases, arith, if◌then◌else◌,
}
use usb_pd_firmware.Pd.{PdMsg, is_control}
use usb_pd_firmware.Pd.MsgType
use usb_pd_firmware.Pe.{
  PeState, Ptr, null, live, dangling, DpmCallbacks, Pe, Input, startup, discovery, wait_cap,
  eval_cap, select_cap, transition_sink, ready, get_source_cap, give_sink_cap, hard_reset,
  transition_default, soft_reset, send_soft_reset, send_not_supported, chunk_received,
  not_supported_received, source_unresponsive, pe_init,
}
use usb_pd_firmware.Pe.Handlers.{
  pe_sink_startup, pe_sink_discovery, pe_sink_wait_cap, wait_cap_message, pe_sink_eval_cap,
  note_capabilities, request_buffer, keep_request, pe_sink_select_cap, pe_sink_transition_sink,
  pe_sink_hard_reset, pe_sink_transition_default, pe_sink_source_unresponsive, note_match,
}
use usb_pd_firmware.Pe.Messages.{
  pe_sink_get_source_cap, pe_sink_give_sink_cap, pe_sink_soft_reset, pe_sink_send_soft_reset,
  pe_sink_send_not_supported, pe_sink_chunk_received, pe_sink_not_supported_received, readable,
  send_sink_cap,
}
use usb_pd_firmware.Pe.Ready.{pe_sink_ready}
use usb_pd_firmware.Pe.Step.{pe_step, pe_run, pe_thread}
use usb_pd_firmware.Pe.Invariant.{DpmLaws, Inv, Keeps}

-- A round of the loop: the state it starts in, and what the handler is given.
abbrev pub Round : Type 0
Round = PeState × Input

abbrev pub fetches : ℕ → Input → Bool
fetches type i = elim i.fetched [ some m ↦ is_control m type | none ↦ false ]

-- The latest round, of those given latest first, sent a request and got an Accept for it.
abbrev pub Accepted : List Round → Type 0
Accepted ((select_cap, i) ∷ h) = (i.pending.tx_done ≡ true) × (fetches MsgType.accept i ≡ true)
Accepted _ = ⊥

-- Since the last start or reset, the source accepted a request and then, in the next round, said
-- that the power is there.
abbrev pub Agreed : List Round → Type 0
Agreed [] = ⊥
Agreed ((startup, i) ∷ h) = ⊥
Agreed ((transition_default, i) ∷ h) = ⊥
Agreed ((transition_sink, i) ∷ h) = ((fetches MsgType.ps_rdy i ≡ true) × Accepted h) ⊎ Agreed h
Agreed ((_, i) ∷ h) = Agreed h

-- What holds between two rounds of the contract `c` and the state: a transition without a contract
-- follows an Accept.
abbrev pub Backed : List Round → PeState → Bool → Type 0
Backed h st c = (c ≡ true → Agreed h) × (st ≡ transition_sink → (c ≡ true) ⊎ Accepted h)

module _ (dpm : DpmCallbacks) where
  open dpm use {State}

  -- The rounds of a run, before those of `h`, the latest first.
  unfoldable pub history : List Input → PeState → Pe State → List Round → List Round
  unfolding pe_step
  history [] st p h = h
  history (i ∷ is) st p h = elim (pe_step dpm i st p) [
    | none ↦ (st, i) ∷ h
    | some r ↦ history is (r.0) (r.1) ((st, i) ∷ h)
  ]
