-- ===== src/Prl/Transmission.antt =====
-- A transmission of lib/src/protocol_tx.c from the policy engine's request to its answer.
use usb_pd_firmware.Prelude.{
  ℕ, ◌+◌, ◌%◌, ◌≡◌, Bool, true, false, ◌&&◌, Option, some, [], ◌∷◌, ◌==◌, arith, ◌>>=◌,
  if◌then◌else◌,
}
use usb_pd_firmware.Pd.{PdMsg, messageid_get, is_control}
use usb_pd_firmware.Pd.MsgType
use usb_pd_firmware.Pe.{null}
use usb_pd_firmware.Prl.{Prl, no_tx_events, tx_done, tx_err, fusb_send_message}
use usb_pd_firmware.Prl.Tx
use usb_pd_firmware.Prl.Tx.{
  TxState, TxInput, set_messageid, tx_step, fetch_message, protocol_tx_wait_message,
  protocol_tx_construct_message, send_or_await, protocol_tx_wait_response,
  protocol_tx_match_messageid, protocol_tx_transmission_error, protocol_tx_message_sent,
}
use usb_pd_firmware.Prl.System.{pe_send, posted}
use usb_pd_firmware.Prl.Delivery.{tx_rounds}

-- The chip's answer: it sent the message and got a GoodCRC, or it gave up.
abbrev pub answered : Bool → Prl → Prl
answered sent p = record p {
  tx_events = record p.tx_events { i_txsent = sent; i_retryfail = if sent then false else true };
}

-- The GoodCRC that the chip received is for the message with this MessageID.
abbrev pub is_acknowledged : ℕ → PdMsg → Bool
is_acknowledged id reply = is_control reply MsgType.goodcrc && messageid_get reply == id

-- The policy engine posts `m`, two rounds of the transmit thread bring it to the chip; the chip
-- answers, and three rounds take the answer.
unfoldable pub transmit : TxInput → Bool → PdMsg → Prl → Option (TxState × Prl)
unfolding pe_send tx_rounds
transmit i sent m p = tx_rounds 2 i Tx.TxState.wait_message (pe_send m p) >>= λ a.
    tx_rounds (if sent then 3 else 2) i (a.0) (answered sent (a.1))

-- A request of the policy engine to an idle transmitter, with a message that is no Soft_Reset, and
-- that starts no AMS of PD 3.0: the chip is told once to send it, with the counter as its MessageID;
-- the policy engine is told TX_DONE if the chip sent it and received a GoodCRC with this MessageID,
-- and TX_ERR if not; in either case the counter goes to the next MessageID, and the thread waits
-- with no message and no flag.
pub transmit-answer :
    (i : TxInput) (sent : Bool) (m : PdMsg) (p : Prl)
    → p.tx_events ≡ no_tx_events
    → p.tx_mailbox ≡ []
    → is_control m MsgType.soft_reset ≡ false
    → transmit i sent m p
      ≡ some (
        Tx.TxState.wait_message,
        record p {
          tx_events = no_tx_events;
          tx_mailbox = [];
          tx_message = null;
          tx_messageidcounter = (p.tx_messageidcounter + 1) % 8;
          to_phy = fusb_send_message (set_messageid p.tx_messageidcounter m) ∷ p.to_phy;
          to_pe =
              (if sent && is_acknowledged p.tx_messageidcounter i.received then tx_done else tx_err)
              ∷ p.to_pe;
        },
      )
unfolding transmit tx_rounds tx_step pe_send posted fetch_message protocol_tx_wait_message
    protocol_tx_construct_message send_or_await protocol_tx_wait_response
    protocol_tx_match_messageid protocol_tx_transmission_error protocol_tx_message_sent
transmit-answer i true m p idle empty other = ground (arith, idle, empty, other)
transmit-answer i false m p idle empty other = ground (arith, idle, empty, other)
