-- ===== src/Prl/Tx.antt =====
-- lib/src/protocol_tx.c: the thread that transmits messages.
use usb_pd_firmware.Prelude.{
  ℕ, ◌+◌, ◌-◌, ◌*◌, ◌%◌, bit_or, false, ◌&&◌, Option, some, [], ◌∷◌, ◌==◌, if◌then◌else◌, ◌>>=◌,
}
use usb_pd_firmware.Bits.{field, place}
use usb_pd_firmware.Pd.{PdMsg, messageid_get, specrev_get, specrev_3_0, is_control}
use usb_pd_firmware.Pd.MsgType
use usb_pd_firmware.Pe.{null, live}
use usb_pd_firmware.Prl.{
  Prl, tx_done, tx_err, fusb_reset, fusb_send_message, tell_pe, tell_phy, signal_rx_reset, pointee,
}

-- `enum protocol_tx_state`; `await_sink_tx` is the loop inside protocol_tx_construct_message that
-- sleeps until the source permits a transmission.
pub data TxState : Type 0 where
  phy_reset wait_message reset construct_message await_sink_tx wait_response : TxState
  match_messageid transmission_error message_sent discard_message : TxState

-- What the thread reads elsewhere: the policy engine's header template, the Type-C current level,
-- and the message that the chip has received.
pub record TxInput : Type 0 where
  pub hdr_template : ℕ
  pub typec_current : ℕ
  pub received : PdMsg

abbrev pub fusb_sink_tx_ok : ℕ
fusb_sink_tx_ok = 3

unfoldable pub protocol_tx_phy_reset : Prl → TxState × Prl
protocol_tx_phy_reset p =
    let done = tell_phy fusb_reset p in
    elim p.tx_message [
      | null ↦ (wait_message, done)
      | _ ↦ (wait_message, tell_pe tx_err (record done { tx_message = null }))
    ]

-- `chMBFetchTimeout` of the transmit mailbox, and the test of the message.
unfoldable pub fetch_message : Prl → Option (TxState × Prl)
fetch_message p = elim p.tx_mailbox [
  | [] ↦ pointee p.tx_message >>= λ m.
      some (if is_control m MsgType.soft_reset then reset else construct_message, p)
  | q ∷ rest ↦ pointee q >>= λ m. some (
    if is_control m MsgType.soft_reset then reset else construct_message,
    record p { tx_message = live m; tx_mailbox = rest },
  )
]

-- Flags that the wait returns are cleared, all of them, although only one is acted on. Without one
-- the thread waits.
unfoldable pub protocol_tx_wait_message : Prl → Option (TxState × Prl)
unfolding fetch_message
protocol_tx_wait_message p =
    let evt = p.tx_events in
    let woken = record p {
      tx_events = record evt { reset = false; discard = false; msg_tx = false };
    } in
    if evt.reset
    then some (phy_reset, woken)
    else if evt.discard
    then some (discard_message, woken)
    else if evt.msg_tx
    then fetch_message woken
    else some (wait_message, p)

unfoldable pub protocol_tx_reset : Prl → TxState × Prl
protocol_tx_reset p = (construct_message, signal_rx_reset (record p { tx_messageidcounter = 0 }))

-- `hdr &= ~PD_HDR_MESSAGEID`, then `hdr |= (id % 8) << PD_HDR_MESSAGEID_SHIFT`.
unfoldable pub set_messageid : ℕ → PdMsg → PdMsg
set_messageid id m = record m { hdr = bit_or (m.hdr - field m.hdr 9 3 * 512) (place (id % 8) 9 3) }

abbrev pub send : PdMsg → Prl → TxState × Prl
send m p = (wait_response, tell_phy (fusb_send_message m) p)

-- With PD 3.0 a message that starts an AMS waits for permission.
unfoldable pub send_or_await : TxInput → PdMsg → Prl → TxState × Prl
send_or_await i m p =
    if specrev_get i.hdr_template == specrev_3_0
    then (let asked = record p { tx_events = record p.tx_events { start_ams = false } } in
        if p.tx_events.start_ams then (await_sink_tx, asked) else send m asked)
    else send m p

unfoldable pub protocol_tx_construct_message : TxInput → Prl → Option (TxState × Prl)
unfolding set_messageid send_or_await
protocol_tx_construct_message i p =
    let evt = p.tx_events in
    let woken = record p { tx_events = record evt { reset = false; discard = false } } in
    if evt.reset
    then some (phy_reset, woken)
    else if evt.discard
    then some (discard_message, woken)
    else pointee p.tx_message >>= λ m.
        let m' = set_messageid p.tx_messageidcounter m in
        some (send_or_await i m' (record p { tx_message = live m' }))

unfoldable pub protocol_tx_await_sink_tx : TxInput → Prl → Option (TxState × Prl)
protocol_tx_await_sink_tx i p =
    if i.typec_current == fusb_sink_tx_ok
    then (pointee p.tx_message >>= λ m. some (send m p))
    else some (await_sink_tx, p)

unfoldable pub protocol_tx_wait_response : Prl → TxState × Prl
protocol_tx_wait_response p =
    let evt = p.tx_events in
    let woken = record p {
      tx_events = record evt {
        reset = false;
        discard = false;
        i_txsent = false;
        i_retryfail = false;
      };
    } in
    if evt.reset
    then (phy_reset, woken)
    else if evt.discard
    then (discard_message, woken)
    else if evt.i_txsent
    then (match_messageid, woken)
    else if evt.i_retryfail
    then (transmission_error, woken)
    else (wait_response, p)

unfoldable pub protocol_tx_match_messageid : TxInput → Prl → TxState × Prl
protocol_tx_match_messageid i p = (
  if is_control i.received MsgType.goodcrc && messageid_get i.received == p.tx_messageidcounter
      then message_sent
      else transmission_error,
  p,
)

abbrev pub next_messageid : Prl → Prl
next_messageid p = record p { tx_messageidcounter = (p.tx_messageidcounter + 1) % 8 }

unfoldable pub protocol_tx_transmission_error : Prl → TxState × Prl
protocol_tx_transmission_error p =
    (wait_message, tell_pe tx_err (record (next_messageid p) { tx_message = null }))

unfoldable pub protocol_tx_message_sent : Prl → TxState × Prl
protocol_tx_message_sent p =
    (wait_message, tell_pe tx_done (record (next_messageid p) { tx_message = null }))

unfoldable pub protocol_tx_discard_message : Prl → TxState × Prl
protocol_tx_discard_message p = elim p.tx_message [
  | null ↦ (phy_reset, p)
  | _ ↦ (phy_reset, next_messageid p)
]

-- A round of the thread's loop.
unfoldable pub tx_step : TxInput → TxState → Prl → Option (TxState × Prl)
tx_step i phy_reset p = some (protocol_tx_phy_reset p)
tx_step i wait_message p = protocol_tx_wait_message p
tx_step i reset p = some (protocol_tx_reset p)
tx_step i construct_message p = protocol_tx_construct_message i p
tx_step i await_sink_tx p = protocol_tx_await_sink_tx i p
tx_step i wait_response p = some (protocol_tx_wait_response p)
tx_step i match_messageid p = some (protocol_tx_match_messageid i p)
tx_step i transmission_error p = some (protocol_tx_transmission_error p)
tx_step i message_sent p = some (protocol_tx_message_sent p)
tx_step i discard_message p = some (protocol_tx_discard_message p)
