-- ===== src/Pe.antt =====
-- lib/include/pdb_pe.h, lib/include/pdb_dpm.h and lib/src/policy_engine.c: the sink policy engine.
-- This file has its state and what it exchanges with the other threads; the handlers, one for each
-- state of the machine, are in the children.
pub mod Handlers
pub mod Messages
pub mod Ready
pub mod Step
pub mod Invariant
pub mod Safety
pub mod Runs
pub mod Silence
pub mod Agreement
mod Tests
use usb_pd_firmware.Prelude.{ℕ, Bool, false, not, ◌||◌, Option, none, some, List, [], ◌∷◌, ◌==◌}
use usb_pd_firmware.Pd.{PdMsg, specrev_get, specrev_3_0}

-- `enum policy_engine_state`.
pub data PeState : Type 0 where
  startup discovery wait_cap eval_cap select_cap transition_sink ready : PeState
  get_source_cap give_sink_cap hard_reset transition_default soft_reset : PeState
  send_soft_reset send_not_supported chunk_received not_supported_received : PeState
  source_unresponsive : PeState

-- Event flags of the policy engine's thread.
pub record Events : Type 0 where
  pub reset : Bool
  pub msg_rx : Bool
  pub tx_done : Bool
  pub tx_err : Bool
  pub hard_sent : Bool
  pub i_ovrtemp : Bool
  pub pps_request : Bool
  pub get_source_cap : Bool
  pub new_power : Bool

abbrev pub no_events : Events
no_events = record {
  reset = false;
  msg_rx = false;
  tx_done = false;
  tx_err = false;
  hard_sent = false;
  i_ovrtemp = false;
  pps_request = false;
  get_source_cap = false;
  new_power = false;
}

-- `evt == 0`: a wait with a timeout ran out.
abbrev pub is_timeout : Events → Bool
is_timeout e = not (
    e.reset || e.msg_rx || e.tx_done || e.tx_err || e.hard_sent || e.i_ovrtemp || e.pps_request
    || e.get_source_cap || e.new_power)

-- A pointer to a message: a message that was given back to the pool leaves it dangling.
pub data Ptr : Type 0 where
  null : Ptr
  live : PdMsg → Ptr
  dangling : Ptr

-- `chPoolFree`: anything but a live message is a fault.
abbrev pub free : Ptr → Option PdMsg
free (live m) = some m
free _ = none

-- `struct pdb_dpm_callbacks`, over the DPM's own state. The callbacks that read `struct
-- pdb_config` are given the header template and the message in it that they read. `none` is a
-- fault; a callback that may be NULL is an option.
pub record DpmCallbacks : Type 1 where
  pub State : Type 0
  pub evaluate_capability : ℕ → Option PdMsg → PdMsg → State → Option (Bool × PdMsg × State)
  pub get_sink_capability : ℕ → Option PdMsg → PdMsg → State → Option (PdMsg × State)
  pub giveback_enabled : Option (State → Option (Bool × State))
  pub evaluate_typec_current : Option (ℕ → State → Option (Bool × State))
  pub pd_start : Option (State → State)
  pub transition_default : State → State
  pub transition_min : State → State
  pub transition_standby : State → State
  pub transition_requested : State → State
  pub transition_typec : State → State
  pub not_supported_received : Option (State → State)

-- What the engine tells the other threads.
pub data Signal : Type 0 where
  start_ams : Signal
  msg_tx : PdMsg → Signal
  hardrst_reset : Signal
  hardrst_done : Signal

-- `struct pdb_pe`, with the DPM's state, whether SinkPPSPeriodicTimer runs, and the signals sent,
-- the latest first. `_old_tcc_match` starts at -1, which is `none`.
pub record Pe (D : Type 0) : Type 0 where
  pub hdr_template : ℕ
  pub message : Ptr
  pub last_dpm_request : Option PdMsg
  pub explicit_contract : Bool
  pub min_power : Bool
  pub hard_reset_counter : ℕ
  pub old_tcc_match : Option Bool
  pub pps_index : ℕ
  pub last_pps : ℕ
  pub pps_timer : Bool
  pub dpm : D
  pub signals : List Signal

-- What the other threads and the chip give a handler: the flags with which its first and its second
-- wait return, the message at the head of the mailbox, the buffer that the pool hands out, and the
-- Type-C current level. `none` is an empty mailbox or pool. A wait for a transmission has no
-- timeout and returns with one of its flags at least; the handlers are defined for all flags.
pub record Input : Type 0 where
  pub pending : Events
  pub pending_later : Events
  pub fetched : Option PdMsg
  pub buffer : Option PdMsg
  pub typec_current : ℕ

module _ {D : Type 0} where
  abbrev pub signal : Signal → Pe D → Pe D
  signal s p = record p { signals = s ∷ p.signals }

  -- `(cfg->pe.hdr_template & PD_HDR_SPECREV) == PD_SPECREV_3_0`.
  abbrev pub is_pd_3_0 : Pe D → Bool
  is_pd_3_0 p = specrev_get p.hdr_template == specrev_3_0

  -- The initializations at the start of the thread; the other fields are static and so zero.
  unfoldable pub pe_init : D → Pe D
  pe_init d = record {
    hdr_template = 0;
    message = null;
    last_dpm_request = none;
    explicit_contract = false;
    min_power = false;
    hard_reset_counter = 0;
    old_tcc_match = none;
    pps_index = 8;
    last_pps = 8;
    pps_timer = false;
    dpm = d;
    signals = [];
  }
