-- ===== src/Prl/Delivery.antt =====
-- Which messages reach the policy engine, and which requests reach the transmitter
-- (lib/src/protocol_rx.c, protocol_tx.c and hard_reset.c).
use usb_pd_firmware.Prelude.{
  Ends, ℕ, zero, suc, ◌+◌, ◌≡◌, true, false, Option, none, some, [], ◌∷◌, arith, ◌>>=◌,
}
use usb_pd_firmware.Pd.{PdMsg, messageid_get, is_control}
use usb_pd_firmware.Pd.MsgType
use usb_pd_firmware.Prl.{Prl, no_rx_events, no_tx_events, msg_rx}
use usb_pd_firmware.Pe.{null, live, dangling}
use usb_pd_firmware.Prl
use usb_pd_firmware.Prl.Rx
use usb_pd_firmware.Prl.Rx.{
  RxState, is_stored, rx_step, protocol_rx_wait_phy, protocol_rx_reset, protocol_rx_reset_yielded,
  protocol_rx_check_messageid, protocol_rx_store_messageid, protocol_rx_store_yielded,
}
use usb_pd_firmware.Prl.Tx
use usb_pd_firmware.Prl.Tx.{
  TxState, TxInput, tx_step, protocol_tx_wait_message, protocol_tx_discard_message, fetch_message,
  protocol_tx_phy_reset,
}
use usb_pd_firmware.Prl.HardReset.{reset_layer, hr_step}
use usb_pd_firmware.Prl.System.{pe_send, posted, take_back, given_back}

-- Rounds of the receive thread alone, with the same message in the chip and a buffer in the pool.
unfoldable pub rx_rounds : ℕ → PdMsg → RxState → Prl → Option (RxState × Prl)
rx_rounds zero m r p = some (r, p)
rx_rounds (suc n) m r p = rx_step (some m) r p >>= λ a. rx_rounds n m (a.0) (a.1)

-- Rounds of the transmit thread alone.
unfoldable pub tx_rounds : ℕ → TxInput → TxState → Prl → Option (TxState × Prl)
tx_rounds zero i t p = some (t, p)
tx_rounds (suc n) i t p = tx_step i t p >>= λ a. tx_rounds n i (a.0) (a.1)

-- A message, other than a Soft_Reset, whose MessageID is not the stored one: four undisturbed
-- rounds pass it to the policy engine, store its MessageID and tell the transmitter to discard what
-- it sends.
pub rx_rounds_new :
    (m : PdMsg) (p : Prl)
    → p.rx_events ≡ record { reset = false; i_gcrcsent = true }
    → is_control m MsgType.soft_reset ≡ false
    → is_stored p.rx_messageid m ≡ false
    → rx_rounds 4 m Rx.RxState.wait_phy p
      ≡ some (
        Rx.RxState.wait_phy,
        record p {
          rx_events = no_rx_events;
          rx_message = some m;
          rx_messageid = some (messageid_get m);
          allocated = p.allocated + 1;
          to_pe = msg_rx m ∷ p.to_pe;
          tx_events = record p.tx_events { discard = true };
        },
      )
unfolding rx_rounds rx_step protocol_rx_wait_phy protocol_rx_check_messageid
    protocol_rx_store_messageid protocol_rx_store_yielded
rx_rounds_new m p woken other new = ground (arith, woken, other, new)

-- A retransmission, whose MessageID is the stored one: two undisturbed rounds give it back to the
-- pool and leave all else, the policy engine included.
pub rx_rounds_again :
    (m : PdMsg) (p : Prl)
    → p.rx_events ≡ record { reset = false; i_gcrcsent = true }
    → is_control m MsgType.soft_reset ≡ false
    → is_stored p.rx_messageid m ≡ true
    → rx_rounds 2 m Rx.RxState.wait_phy p
      ≡ some (
        Rx.RxState.wait_phy,
        record p {
          rx_events = no_rx_events;
          rx_message = none;
          allocated = p.allocated + 1;
          freed = p.freed + 1;
        },
      )
unfolding rx_rounds rx_step protocol_rx_wait_phy protocol_rx_check_messageid
rx_rounds_again m p woken other again = ground (arith, woken, other, again)

-- A Soft_Reset is passed on whatever MessageID is stored, since both IDs are cleared first, and
-- the transmitter is told to reset.
pub rx_rounds-soft_reset :
    (m : PdMsg) (p : Prl)
    → p.rx_events ≡ record { reset = false; i_gcrcsent = true }
    → is_control m MsgType.soft_reset ≡ true
    → rx_rounds 6 m Rx.RxState.wait_phy p
      ≡ some (
        Rx.RxState.wait_phy,
        record p {
          rx_events = no_rx_events;
          rx_message = some m;
          rx_messageid = some (messageid_get m);
          tx_messageidcounter = 0;
          allocated = p.allocated + 1;
          to_pe = msg_rx m ∷ p.to_pe;
          tx_events = record p.tx_events { discard = true; reset = true };
        },
      )
unfolding rx_rounds rx_step protocol_rx_wait_phy protocol_rx_reset protocol_rx_reset_yielded
    protocol_rx_check_messageid protocol_rx_store_messageid protocol_rx_store_yielded
rx_rounds-soft_reset m p woken soft = ground (arith, woken, soft)

-- The first round of a hard reset, and the round in which the receive thread takes its flag.
unfoldable pub after_hard_reset : PdMsg → Prl → Option (RxState × Prl)
after_hard_reset m p = rx_step (some m) Rx.RxState.wait_phy ((hr_step false reset_layer p).1)

-- A request that is posted while a discard is pending: the transmit thread clears both flags, and
-- three rounds later it waits again with no flag of its wait pending, the message still in the
-- mailbox, and nothing signalled to the policy engine.
pub tx_rounds_lost :
    (i : TxInput) (m : PdMsg) (p : Prl)
    → p.tx_events ≡ record no_tx_events { discard = true }
    → p.tx_message ≡ null
    → p.tx_mailbox ≡ []
    → tx_rounds 3 i Tx.TxState.wait_message (pe_send m p)
      ≡ some (
        Tx.TxState.wait_message,
        record p {
          tx_events = no_tx_events;
          tx_mailbox = live m ∷ [];
          to_phy = Prl.ToPhy.fusb_reset ∷ p.to_phy;
        },
      )
unfolding tx_rounds tx_step pe_send posted protocol_tx_wait_message protocol_tx_discard_message
    protocol_tx_phy_reset
tx_rounds_lost i m p pending idle empty = ground (arith, pending, idle, empty)

-- A request that is posted to an idle transmitter with an empty mailbox while a discard is pending:
-- three rounds later the transmit thread has not faulted, and when the policy engine then gives the
-- message back, as it does after a reset, the mailbox still points to it; with the next request the
-- thread reads the message that was given back, a fault. So it is for all messages.
pub tx_rounds_freed :
    (i : TxInput) (m m' : PdMsg) (p : Prl)
    → p.tx_events ≡ record no_tx_events { discard = true }
    → p.tx_message ≡ null
    → p.tx_mailbox ≡ []
    → Ends
        (λ a.
          let freed = take_back (a.1) in
          (freed.tx_mailbox ≡ dangling ∷ []) × (tx_rounds 1 i (a.0) (pe_send m' freed) ≡ none))
        (tx_rounds 3 i Tx.TxState.wait_message (pe_send m p))
unfolding tx_rounds tx_step pe_send posted take_back given_back protocol_tx_wait_message
    fetch_message protocol_tx_discard_message protocol_tx_phy_reset
tx_rounds_freed i m m' p pending idle empty = ground (arith, pending, idle, empty)
