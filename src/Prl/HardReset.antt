-- ===== src/Prl/HardReset.antt =====
-- lib/src/hard_reset.c: the thread that runs hard resets.
use usb_pd_firmware.Prelude.{Bool, false, ◌||◌, some, if◌then◌else◌}
use usb_pd_firmware.Prl.{
  Prl, ToPe, hard_sent, fusb_send_hardrst, tell_pe, tell_phy, signal_rx_reset, signal_tx_reset,
}
use usb_pd_firmware.Prl

-- `enum hardrst_state`; `layer_yielded` is the point in hardrst_reset_layer after its first
-- `chThdYield`, with whether the policy engine asked for the reset.
pub data HrState : Type 0 where
  reset_layer : HrState
  layer_yielded : Bool → HrState
  indicate_hard_reset request_hard_reset wait_phy hard_reset_requested wait_pe complete : HrState

-- The first wait; both stored MessageIDs become 0.
unfoldable pub hardrst_reset_layer : Prl → HrState × Prl
hardrst_reset_layer p =
    let evt = p.hr_events in
    if evt.reset || evt.i_hardrst
    then (
      layer_yielded evt.reset,
      signal_rx_reset (record p {
        hr_events = record evt { reset = false; i_hardrst = false };
        rx_messageid = some 0;
        tx_messageidcounter = 0;
      }),
    )
    else (reset_layer, p)

unfoldable pub hardrst_layer_yielded : Bool → Prl → HrState × Prl
hardrst_layer_yielded requested p =
    (if requested then request_hard_reset else indicate_hard_reset, signal_tx_reset p)

unfoldable pub hardrst_indicate_hard_reset : Prl → HrState × Prl
hardrst_indicate_hard_reset p = (wait_pe, tell_pe Prl.ToPe.reset p)

unfoldable pub hardrst_request_hard_reset : Prl → HrState × Prl
hardrst_request_hard_reset p = (wait_phy, tell_phy fusb_send_hardrst p)

-- The wait ends with the flag or with its timeout.
unfoldable pub hardrst_wait_phy : Bool → Prl → HrState × Prl
hardrst_wait_phy timed_out p =
    if p.hr_events.i_hardsent || timed_out
    then (hard_reset_requested, record p { hr_events = record p.hr_events { i_hardsent = false } })
    else (wait_phy, p)

unfoldable pub hardrst_hard_reset_requested : Prl → HrState × Prl
hardrst_hard_reset_requested p = (wait_pe, tell_pe hard_sent p)

unfoldable pub hardrst_wait_pe : Prl → HrState × Prl
hardrst_wait_pe p =
    if p.hr_events.done
    then (complete, record p { hr_events = record p.hr_events { done = false } })
    else (wait_pe, p)

unfoldable pub hardrst_complete : Prl → HrState × Prl
hardrst_complete p = (reset_layer, p)

-- A round of the thread's loop.
unfoldable pub hr_step : Bool → HrState → Prl → HrState × Prl
hr_step timed_out reset_layer p = hardrst_reset_layer p
hr_step timed_out (layer_yielded requested) p = hardrst_layer_yielded requested p
hr_step timed_out indicate_hard_reset p = hardrst_indicate_hard_reset p
hr_step timed_out request_hard_reset p = hardrst_request_hard_reset p
hr_step timed_out wait_phy p = hardrst_wait_phy timed_out p
hr_step timed_out hard_reset_requested p = hardrst_hard_reset_requested p
hr_step timed_out wait_pe p = hardrst_wait_pe p
hr_step timed_out complete p = hardrst_complete p
