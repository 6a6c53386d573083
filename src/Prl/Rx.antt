-- ===== src/Prl/Rx.antt =====
-- lib/src/protocol_rx.c: the thread that receives messages.
use usb_pd_firmware.Prelude.{ℕ, ◌+◌, Bool, false, Option, none, some, ◌==◌, if◌then◌else◌, ◌>>=◌}
use usb_pd_firmware.Pd.{PdMsg, messageid_get, is_control}
use usb_pd_firmware.Pd.MsgType
use usb_pd_firmware.Prl.{Prl, no_rx_events, msg_rx, tell_pe, signal_tx_reset, signal_tx_discard}

-- `enum protocol_rx_state`. A handler that yields is two steps, so that another thread can run
-- where the code lets it: `reset_yielded` and `store_yielded` are the points after `chThdYield`.
pub data RxState : Type 0 where
  wait_phy reset reset_yielded check_messageid store_messageid store_yielded : RxState

-- Without a flag the thread waits. `buffer` is that of the pool, after the chip's answer was read into
-- it; with an empty pool the answer is written through NULL.
unfoldable pub protocol_rx_wait_phy : Option PdMsg → Prl → Option (RxState × Prl)
protocol_rx_wait_phy buffer p =
    let evt = p.rx_events in
    let woken = record p { rx_events = no_rx_events } in
    if evt.reset
    then some (wait_phy, woken)
    else if evt.i_gcrcsent
    then (buffer >>= λ m. some (
      if is_control m MsgType.soft_reset then reset else check_messageid,
      record woken { rx_message = some m; allocated = p.allocated + 1 },
    ))
    else some (wait_phy, p)

unfoldable pub protocol_rx_reset : Prl → RxState × Prl
protocol_rx_reset p =
    (reset_yielded, signal_tx_reset (record p { tx_messageidcounter = 0; rx_messageid = none }))

-- `chPoolFree` of the message, which is no longer held.
abbrev pub free_rx_message : Prl → Option (RxState × Prl)
free_rx_message p =
    p.rx_message >>= λ _. some (wait_phy, record p { rx_message = none; freed = p.freed + 1 })

-- `chEvtGetAndClearEvents(PDB_EVT_PRLRX_RESET)`.
abbrev pub clear_rx_reset : Prl → Prl
clear_rx_reset p = record p { rx_events = record p.rx_events { reset = false } }

unfoldable pub protocol_rx_reset_yielded : Prl → Option (RxState × Prl)
protocol_rx_reset_yielded p =
    if p.rx_events.reset then free_rx_message (clear_rx_reset p) else some (check_messageid, p)

-- The stored MessageID is compared with the message's.
abbrev pub is_stored : Option ℕ → PdMsg → Bool
is_stored none m = false
is_stored (some id) m = messageid_get m == id

unfoldable pub protocol_rx_check_messageid : Prl → Option (RxState × Prl)
protocol_rx_check_messageid p =
    if p.rx_events.reset
    then free_rx_message (clear_rx_reset p)
    else p.rx_message >>= λ m.
        if is_stored p.rx_messageid m then free_rx_message p else some (store_messageid, p)

unfoldable pub protocol_rx_store_messageid : Prl → RxState × Prl
protocol_rx_store_messageid p = (store_yielded, signal_tx_discard p)

-- The message belongs to the policy engine from here on; the pointer stays. The engine's mailbox has
-- a place for every buffer of the pool, so that the post to it finds one.
unfoldable pub protocol_rx_store_yielded : Prl → Option (RxState × Prl)
protocol_rx_store_yielded p = p.rx_message >>= λ m.
    some (wait_phy, tell_pe (msg_rx m) (record p { rx_messageid = some (messageid_get m) }))

-- A round of the thread's loop.
unfoldable pub rx_step : Option PdMsg → RxState → Prl → Option (RxState × Prl)
rx_step buffer wait_phy p = protocol_rx_wait_phy buffer p
rx_step buffer reset p = some (protocol_rx_reset p)
rx_step buffer reset_yielded p = protocol_rx_reset_yielded p
rx_step buffer check_messageid p = protocol_rx_check_messageid p
rx_step buffer store_messageid p = some (protocol_rx_store_messageid p)
rx_step buffer store_yielded p = protocol_rx_store_yielded p
