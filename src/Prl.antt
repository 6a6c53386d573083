-- ===== src/Prl.antt =====
-- lib/include/pdb_prl.h: the protocol layer. Its three threads share the record below. The handlers
-- of lib/src/protocol_rx.c, protocol_tx.c and hard_reset.c are in the children, System interleaves
-- the threads.
pub mod Rx
pub mod Tx
pub mod HardReset
pub mod System
pub mod Accounts
pub mod Delivery
pub mod Filter
pub mod Transmission
mod Tests
use usb_pd_firmware.Prelude.{ℕ, Bool, true, false, Option, none, some, List, [], ◌∷◌}
use usb_pd_firmware.Pd.{PdMsg}
use usb_pd_firmware.Pe.{Ptr, null, live, dangling}

-- Event flags of the three threads, those that are pending.
pub record RxEvents : Type 0 where
  pub reset : Bool
  pub i_gcrcsent : Bool

pub record TxEvents : Type 0 where
  pub reset : Bool
  pub discard : Bool
  pub msg_tx : Bool
  pub start_ams : Bool
  pub i_txsent : Bool
  pub i_retryfail : Bool

pub record HrEvents : Type 0 where
  pub reset : Bool
  pub i_hardrst : Bool
  pub i_hardsent : Bool
  pub done : Bool

-- What the policy engine is told, and what the chip is told to do.
pub data ToPe : Type 0 where
  msg_rx : PdMsg → ToPe
  tx_done tx_err reset hard_sent i_ovrtemp : ToPe

pub data ToPhy : Type 0 where
  fusb_reset fusb_send_hardrst : ToPhy
  fusb_send_message : PdMsg → ToPhy

-- `struct pdb_prl`, with the flags that are pending, what was signalled to the policy engine and to
-- the chip (the latest first), and how many messages were taken from the pool and given back. A
-- stored MessageID of -1 is `none`. NULL in `_rx_message` is `none`. The transmitter's pointers are to
-- messages that the policy engine owns, and dangle once it has given them back to the pool.
pub record Prl : Type 0 where
  pub rx_messageid : Option ℕ
  pub rx_message : Option PdMsg
  pub tx_messageidcounter : ℕ
  pub tx_message : Ptr
  pub tx_mailbox : List Ptr
  pub rx_events : RxEvents
  pub tx_events : TxEvents
  pub hr_events : HrEvents
  pub to_pe : List ToPe
  pub to_phy : List ToPhy
  pub allocated : ℕ
  pub freed : ℕ

abbrev pub no_rx_events : RxEvents
no_rx_events = record { reset = false; i_gcrcsent = false }

abbrev pub no_tx_events : TxEvents
no_tx_events = record {
  reset = false;
  discard = false;
  msg_tx = false;
  start_ams = false;
  i_txsent = false;
  i_retryfail = false;
}

abbrev pub no_hr_events : HrEvents
no_hr_events = record { reset = false; i_hardrst = false; i_hardsent = false; done = false }

-- `pdb_prlrx_run` sets the stored MessageID; the rest is static and so zero.
unfoldable pub prl_init : Prl
prl_init = record {
  rx_messageid = none;
  rx_message = none;
  tx_messageidcounter = 0;
  tx_message = null;
  tx_mailbox = [];
  rx_events = no_rx_events;
  tx_events = no_tx_events;
  hr_events = no_hr_events;
  to_pe = [];
  to_phy = [];
  allocated = 0;
  freed = 0;
}

abbrev pub tell_pe : ToPe → Prl → Prl
tell_pe e p = record p { to_pe = e ∷ p.to_pe }

abbrev pub tell_phy : ToPhy → Prl → Prl
tell_phy e p = record p { to_phy = e ∷ p.to_phy }

-- What a pointer points to: a read through NULL, or of a message that was given back, is a fault.
abbrev pub pointee : Ptr → Option PdMsg
pointee null = none
pointee (live m) = some m
pointee dangling = none

-- `PDB_MSG_POOL_SIZE`: the buffers of the pool, and the places of a mailbox.
abbrev pub pdb_msg_pool_size : ℕ
pdb_msg_pool_size = 4

-- `chEvtSignal` of one flag.
abbrev pub signal_rx_reset : Prl → Prl
signal_rx_reset p = record p { rx_events = record p.rx_events { reset = true } }

abbrev pub signal_tx_reset : Prl → Prl
signal_tx_reset p = record p { tx_events = record p.tx_events { reset = true } }

abbrev pub signal_tx_discard : Prl → Prl
signal_tx_discard p = record p { tx_events = record p.tx_events { discard = true } }
