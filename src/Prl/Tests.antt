-- ===== src/Prl/Tests.antt =====
-- The protocol layer on concrete messages.
use usb_pd_firmware.Prelude.{
  ◌≡◌, refl, arith, ◌+◌, ◌%◌, ◌&&◌, if◌then◌else◌, true, none, some, List, [], ◌∷◌, Ends,
}
use usb_pd_firmware.Pd.{PdMsg, messageid_get}
use usb_pd_firmware.Pe.{null, live, dangling}
use usb_pd_firmware.Prl
use usb_pd_firmware.Prl.{
  Prl, no_rx_events, no_tx_events, no_hr_events, prl_init, msg_rx, tx_done, tx_err,
  fusb_send_message,
}
use usb_pd_firmware.Prl.Rx
use usb_pd_firmware.Prl.Rx.{
  rx_step, protocol_rx_wait_phy, protocol_rx_check_messageid, protocol_rx_store_messageid,
  protocol_rx_store_yielded,
}
use usb_pd_firmware.Prl.Tx
use usb_pd_firmware.Prl.Tx.{
  TxInput, set_messageid, tx_step, protocol_tx_phy_reset, protocol_tx_wait_message, fetch_message,
  protocol_tx_construct_message, send_or_await, protocol_tx_wait_response,
  protocol_tx_match_messageid, protocol_tx_message_sent, protocol_tx_discard_message,
}
use usb_pd_firmware.Prl.System.{
  Action, run_rx, run_tx, poll, send_message, free_message, sys_init, sys_step, sys_run, pe_send,
  posted, int_n_poll, take_back,
}
use usb_pd_firmware.Prl.System.Invariant.{Inv, posts, Orderly}
use usb_pd_firmware.Prl.Accounts.{sys_run-Inv}
use usb_pd_firmware.Prl.Filter.{fresh, Filtered, receive, receive-Filtered}
use usb_pd_firmware.Prl.Transmission.{is_acknowledged, transmit, transmit-answer}
use usb_pd_firmware.Prl.Delivery.{
  rx_rounds, tx_rounds, rx_rounds-soft_reset, tx_rounds_lost, tx_rounds_freed,
}

-- Source_Capabilities with MessageID 3 and with 0, a Soft_Reset, a Request.
abbrev caps_3 : PdMsg
caps_3 = record { hdr = 0x1781; obj = 0x0801912c ∷ [] }

abbrev caps_0 : PdMsg
caps_0 = record { hdr = 0x1181; obj = 0x0801912c ∷ [] }

abbrev soft : PdMsg
soft = record { hdr = 0x018d; obj = [] }

abbrev request_5v : PdMsg
request_5v = record { hdr = 0x1042; obj = 0x1001900a ∷ [] }

abbrev idle : Prl
idle = record {
  rx_messageid = some 2;
  rx_message = none;
  tx_messageidcounter = 5;
  tx_message = null;
  tx_mailbox = [];
  rx_events = no_rx_events;
  tx_events = no_tx_events;
  hr_events = no_hr_events;
  to_pe = [];
  to_phy = [];
  allocated = 4;
  freed = 1;
}

abbrev woken : Prl
woken = record idle { rx_events = record no_rx_events { i_gcrcsent = true } }

abbrev seen : Prl
seen = record woken { rx_messageid = some 3 }

abbrev resetting : Prl
resetting = record idle { hr_events = record no_hr_events { reset = true } }

abbrev discarding : Prl
discarding = record idle { tx_events = record no_tx_events { discard = true } }

abbrev chip : TxInput
chip = record {
  hdr_template = 0x40;
  typec_current = 3;
  received = record { hdr = 0x0141; obj = [] };
}

-- A request_5v that is sent and acknowledged, and a message received meanwhile.
abbrev exchange : List Action
exchange =
    run_tx chip
    ∷ send_message request_5v
    ∷ run_tx chip
    ∷ run_tx chip
    ∷ poll (record { interrupta = 0x04; interruptb = 0; status1 = 0 })
    ∷ run_tx chip
    ∷ run_tx chip
    ∷ run_tx chip
    ∷ poll (record { interrupta = 0; interruptb = 1; status1 = 0 })
    ∷ run_rx (some caps_3)
    ∷ run_rx (some caps_3)
    ∷ run_rx (some caps_3)
    ∷ run_rx (some caps_3)
    ∷ run_tx chip
    ∷ free_message
    ∷ []

exchange-Orderly : Orderly exchange sys_init
unfolding Orderly sys_step sys_init prl_init rx_step tx_step pe_send posted int_n_poll take_back
    protocol_rx_wait_phy protocol_rx_check_messageid protocol_rx_store_messageid
    protocol_rx_store_yielded protocol_tx_phy_reset protocol_tx_wait_message fetch_message
    protocol_tx_construct_message set_messageid send_or_await protocol_tx_wait_response
    protocol_tx_match_messageid protocol_tx_message_sent protocol_tx_discard_message
exchange-Orderly = (
  tt,
  (
    omega arith,
    (tt, (tt, (tt, (tt, (tt, (tt, (tt, (tt, (tt, (tt, (tt, (tt, ((refl, refl), tt))))))))))))),
  ),
)

sys_run-Inv_example : Ends (Inv (posts exchange)) (sys_run exchange sys_init)
sys_run-Inv_example = sys_run-Inv exchange exchange-Orderly

rx_rounds-soft_reset_example :
    rx_rounds 6 soft Rx.RxState.wait_phy woken
    ≡ some (
      Rx.RxState.wait_phy,
      record woken {
        rx_events = no_rx_events;
        rx_message = some soft;
        rx_messageid = some (messageid_get soft);
        tx_messageidcounter = 0;
        allocated = woken.allocated + 1;
        to_pe = msg_rx soft ∷ woken.to_pe;
        tx_events = record woken.tx_events { discard = true; reset = true };
      },
    )
rx_rounds-soft_reset_example = rx_rounds-soft_reset soft woken refl refl

tx_rounds_lost_example :
    tx_rounds 3 chip Tx.TxState.wait_message (pe_send request_5v discarding)
    ≡ some (
      Tx.TxState.wait_message,
      record discarding {
        tx_events = no_tx_events;
        tx_mailbox = live request_5v ∷ [];
        to_phy = Prl.ToPhy.fusb_reset ∷ discarding.to_phy;
      },
    )
tx_rounds_lost_example = tx_rounds_lost chip request_5v discarding refl refl refl

-- New, again, a Soft_Reset, and after it the MessageID of the Soft_Reset.
abbrev series : List PdMsg
series = caps_3 ∷ caps_3 ∷ soft ∷ caps_0 ∷ caps_3 ∷ []

receive-Filtered_example : Ends (Filtered idle series) (receive series Rx.RxState.wait_phy idle)
receive-Filtered_example = receive-Filtered series idle refl

-- Three of the five are passed on.
three_passed : fresh (some 2) series ≡ caps_3 ∷ soft ∷ caps_3 ∷ []
unfolding fresh
three_passed = refl

abbrev goodcrc_5 : TxInput
goodcrc_5 = record {
  hdr_template = 0x80;
  typec_current = 3;
  received = record { hdr = 0x0b81; obj = [] };
}

transmit-answer_example :
    transmit goodcrc_5 true request_5v idle
    ≡ some (
      Tx.TxState.wait_message,
      record idle {
        tx_events = no_tx_events;
        tx_mailbox = [];
        tx_message = null;
        tx_messageidcounter = (idle.tx_messageidcounter + 1) % 8;
        to_phy =
            fusb_send_message (set_messageid idle.tx_messageidcounter request_5v) ∷ idle.to_phy;
        to_pe =
            (if true && is_acknowledged idle.tx_messageidcounter goodcrc_5.received
              then tx_done
              else tx_err)
            ∷ idle.to_pe;
      },
    )
transmit-answer_example = transmit-answer goodcrc_5 true request_5v idle refl refl refl

tx_rounds_freed_example :
    Ends
      (λ a.
        let freed = take_back (a.1) in
        (freed.tx_mailbox ≡ dangling ∷ []) × (tx_rounds 1 chip (a.0) (pe_send soft freed) ≡ none))
      (tx_rounds 3 chip Tx.TxState.wait_message (pe_send request_5v discarding))
tx_rounds_freed_example = tx_rounds_freed chip request_5v soft discarding refl refl refl
