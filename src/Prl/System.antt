-- ===== src/Prl/System.antt =====
-- The threads of the protocol layer beside each other: lib/src/protocol_rx.c, protocol_tx.c,
-- hard_reset.c and int_n.c, with the signals that lib/src/policy_engine.c sends them. Any order of
-- their steps is a run.
pub mod Invariant
pub mod Steps
use usb_pd_firmware.Prelude.{
  ℕ, Bool, true, ◌&&◌, ◌||◌, Option, some, List, [], ◌∷◌, if◌then◌else◌, ◌>>=◌, ltb, length,
}
use usb_pd_firmware.Bits.{flag}
use usb_pd_firmware.Pd.{PdMsg}
use usb_pd_firmware.Pe.{Ptr, null, live, dangling}
use usb_pd_firmware.Prl.{pdb_msg_pool_size, Prl, i_ovrtemp, tell_pe, prl_init}
use usb_pd_firmware.Prl.Rx.{RxState, rx_step}
use usb_pd_firmware.Prl.Rx
use usb_pd_firmware.Prl.Tx.{TxState, TxInput, tx_step}
use usb_pd_firmware.Prl.Tx
use usb_pd_firmware.Prl.HardReset.{HrState, reset_layer, hr_step}

-- The bytes of `union fusb_status` that the poll reads.
pub record FusbStatus : Type 0 where
  pub interrupta : ℕ
  pub interruptb : ℕ
  pub status1 : ℕ

-- A round of IntNPoll with INT_N low: every interrupt flag is passed to its thread.
unfoldable pub int_n_poll : FusbStatus → Prl → Prl
int_n_poll status p =
    let signalled = record p {
      rx_events = record p.rx_events {
        i_gcrcsent = p.rx_events.i_gcrcsent || flag status.interruptb 0;
      };
      tx_events = record p.tx_events {
        i_retryfail = p.tx_events.i_retryfail || flag status.interrupta 4;
        i_txsent = p.tx_events.i_txsent || flag status.interrupta 2;
      };
      hr_events = record p.hr_events {
        i_hardrst = p.hr_events.i_hardrst || flag status.interrupta 0;
        i_hardsent = p.hr_events.i_hardsent || flag status.interrupta 3;
      };
    } in
    if flag status.interrupta 7 && flag status.status1 1
    then tell_pe i_ovrtemp signalled
    else signalled

-- The message at the end of a mailbox.
unfoldable pub posted : List Ptr → Ptr → List Ptr
posted [] m = m ∷ []
posted (x ∷ xs) m = x ∷ posted xs m

-- The policy engine's `chMBPostTimeout` to the transmit mailbox, which leaves a full mailbox as it is,
-- and its signal.
unfoldable pub pe_send : PdMsg → Prl → Prl
unfolding posted
pe_send m p = record p {
  tx_mailbox =
      if ltb (length p.tx_mailbox) pdb_msg_pool_size
      then posted p.tx_mailbox (live m)
      else p.tx_mailbox;
  tx_events = record p.tx_events { msg_tx = true };
}

-- The message that the policy engine last put into the mailbox, and the message in transmission, as
-- seen by the transmitter after the engine gave that message back.
unfoldable pub given_back : List Ptr → List Ptr
given_back [] = []
given_back (q ∷ []) = dangling ∷ []
given_back (q ∷ r ∷ rest) = q ∷ given_back (r ∷ rest)

abbrev pub lost_pointer : Ptr → Ptr
lost_pointer null = null
lost_pointer (live m) = dangling
lost_pointer dangling = dangling

-- `chPoolFree` in a handler of the policy engine, of the message that it last put into the mailbox. A
-- message that the transmitter has answered is not in its hands any more.
unfoldable pub take_back : Prl → Prl
unfolding given_back
take_back p = elim p.tx_mailbox [
  | [] ↦ record p { tx_message = lost_pointer p.tx_message }
  | q ∷ rest ↦ record p { tx_mailbox = given_back (q ∷ rest) }
]

pub record Sys : Type 0 where
  pub rx : RxState
  pub tx : TxState
  pub hr : HrState
  pub prl : Prl

-- Who runs next.
pub data Action : Type 0 where
  run_rx : Option PdMsg → Action
  run_tx : TxInput → Action
  run_hr : Bool → Action
  poll : FusbStatus → Action
  send_message : PdMsg → Action
  start_ams ask_hard_reset hard_reset_done free_message : Action

unfoldable pub sys_init : Sys
unfolding prl_init
sys_init = record {
  rx = Rx.RxState.wait_phy;
  tx = Tx.TxState.phy_reset;
  hr = reset_layer;
  prl = prl_init;
}

unfoldable pub sys_step : Action → Sys → Option Sys
unfolding rx_step tx_step hr_step int_n_poll pe_send take_back
sys_step (run_rx buffer) s =
    rx_step buffer s.rx s.prl >>= λ r. some (record s { rx = r.0; prl = r.1 })
sys_step (run_tx i) s = tx_step i s.tx s.prl >>= λ r. some (record s { tx = r.0; prl = r.1 })
sys_step (run_hr timed_out) s =
    let r = hr_step timed_out s.hr s.prl in some (record s { hr = r.0; prl = r.1 })
sys_step (poll status) s = some (record s { prl = int_n_poll status s.prl })
sys_step (send_message m) s = some (record s { prl = pe_send m s.prl })
sys_step free_message s = some (record s { prl = take_back s.prl })
sys_step start_ams s =
    some
      (record s { prl = record s.prl { tx_events = record s.prl.tx_events { start_ams = true } } })
sys_step ask_hard_reset s =
    some (record s { prl = record s.prl { hr_events = record s.prl.hr_events { reset = true } } })
sys_step hard_reset_done s =
    some (record s { prl = record s.prl { hr_events = record s.prl.hr_events { done = true } } })

unfoldable pub sys_run : List Action → Sys → Option Sys
sys_run [] s = some s
sys_run (a ∷ rest) s = sys_step a s >>= λ s'. sys_run rest s'
