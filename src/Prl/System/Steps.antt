-- ===== src/Prl/System/Steps.antt =====
-- Each step of a thread of the protocol layer keeps the invariant and never faults.
use usb_pd_firmware.Prelude.{
  ℕ, ◌≤◌, ◌≡◌, refl, inl, inr, Bool, false, Option, none, some, length, List, [], ◌∷◌, ◌⊎◌, Ends,
  Bool-cases, arith,
}
use usb_pd_firmware.Pd.{PdMsg}
use usb_pd_firmware.Pe.{Ptr, null, live, dangling}
use usb_pd_firmware.Prl.{Prl, TxEvents}
use usb_pd_firmware.Prl.Rx
use usb_pd_firmware.Prl.Rx.{
  RxState, rx_step, protocol_rx_wait_phy, protocol_rx_reset, protocol_rx_reset_yielded,
  protocol_rx_check_messageid, protocol_rx_store_messageid, protocol_rx_store_yielded,
}
use usb_pd_firmware.Prl.Tx
use usb_pd_firmware.Prl.Tx.{
  TxState, TxInput, tx_step, protocol_tx_phy_reset, fetch_message, protocol_tx_wait_message,
  protocol_tx_reset, send_or_await, protocol_tx_construct_message, protocol_tx_await_sink_tx,
  protocol_tx_wait_response, protocol_tx_match_messageid, protocol_tx_transmission_error,
  protocol_tx_message_sent, protocol_tx_discard_message,
}
use usb_pd_firmware.Prl.HardReset
use usb_pd_firmware.Prl.HardReset.{
  HrState, hr_step, hardrst_reset_layer, hardrst_layer_yielded, hardrst_indicate_hard_reset,
  hardrst_request_hard_reset, hardrst_wait_phy, hardrst_hard_reset_requested, hardrst_wait_pe,
  hardrst_complete,
}
use usb_pd_firmware.Prl.System.{Sys, FusbStatus, int_n_poll, run_rx}
use usb_pd_firmware.Prl.System.Invariant.{Inv, in_hand, held, lost, bad, Allowed}

held-eq : (m : Option PdMsg) → held m ≡ 1 → (x : PdMsg) × (m ≡ some x)
held-eq none h = absurd (omega arith)
held-eq (some x) h = (x, refl)

in_hand-eq : (q : Ptr) → in_hand q ≡ 1 → lost q ≡ 0 → (x : PdMsg) × (q ≡ live x)
in_hand-eq null h k = absurd (omega arith)
in_hand-eq (live x) h k = (x, refl)
in_hand-eq dangling h k = absurd (omega arith)

ptr_cases : (q : Ptr) → lost q ≡ 0 → (q ≡ null) ⊎ ((x : PdMsg) × (q ≡ live x))
ptr_cases null h = inl refl
ptr_cases (live x) h = inr (x, refl)
ptr_cases dangling h = absurd (omega arith)

mail_cases :
    (qs : List Ptr)
    → bad qs ≡ 0
    → 1 ≤ length qs
    → (m : PdMsg) × (rest : List Ptr) × (qs ≡ live m ∷ rest)
mail_cases [] h k = absurd (omega arith)
mail_cases (null ∷ rest) h k = absurd (omega arith)
mail_cases (live m ∷ rest) h k = (m, rest, refl)
mail_cases (dangling ∷ rest) h k = absurd (omega arith)

module _ (n : ℕ) where
  pub rx_keeps :
      (m : Option PdMsg) (r : RxState) (s : Sys)
      → Allowed (run_rx m) s.prl
      → Inv n (record s { rx = r })
      → Ends (λ a. Inv n (record s { rx = a.0; prl = a.1 })) (rx_step m r s.prl)
  unfolding rx_step protocol_rx_wait_phy protocol_rx_reset protocol_rx_reset_yielded
      protocol_rx_check_messageid protocol_rx_store_messageid protocol_rx_store_yielded
  rx_keeps none Rx.RxState.wait_phy s ok h = ground arith
  rx_keeps (some m) Rx.RxState.wait_phy s ok h = ground arith
  rx_keeps m Rx.RxState.reset s ok h = ground arith
  rx_keeps m Rx.RxState.reset_yielded s ok h = ground (arith, (held-eq s.prl.rx_message h.rx_has).1)
  rx_keeps m Rx.RxState.check_messageid s ok h =
      ground (arith, (held-eq s.prl.rx_message h.rx_has).1)
  rx_keeps m Rx.RxState.store_messageid s ok h = ground arith
  rx_keeps m Rx.RxState.store_yielded s ok h = ground (arith, (held-eq s.prl.rx_message h.rx_has).1)

  unfoldable pub Kept : Sys → TxState × Prl → Type 0
  Kept s a = Inv n (record s { tx = a.0; prl = a.1 })

  fetch_keeps :
      (s : Sys)
      → Inv n (record s { tx = Tx.TxState.wait_message })
      → 1 ≤ length s.prl.tx_mailbox
      → (e : TxEvents) → e.msg_tx ≡ false
      → Ends (Kept s) (fetch_message (record s.prl { tx_events = e }))
  unfolding fetch_message Kept
  fetch_keeps s h some_mail e cleared =
      let (m, rest, there) = mail_cases s.prl.tx_mailbox h.live_mail some_mail in
      ground (arith, there)

  pub tx_keeps :
      (i : TxInput) (t : TxState) (s : Sys)
      → Inv n (record s { tx = t })
      → Ends (Kept s) (tx_step i t s.prl)
  unfolding Kept tx_step protocol_tx_phy_reset protocol_tx_wait_message protocol_tx_reset
      send_or_await protocol_tx_construct_message protocol_tx_await_sink_tx
      protocol_tx_wait_response protocol_tx_match_messageid protocol_tx_transmission_error
      protocol_tx_message_sent protocol_tx_discard_message
  tx_keeps i Tx.TxState.phy_reset s h = elim (ptr_cases s.prl.tx_message h.live_message) [
    | inl empty ↦ ground (arith, empty)
    | inr (m, there) ↦ ground (arith, there)
  ]
  tx_keeps i Tx.TxState.wait_message s h = elim (Bool-cases s.prl.tx_events.msg_tx) [
    | inr clear ↦ ground (arith, clear)
    | inl flagged ↦
        (let some_mail : 1 ≤ length s.prl.tx_mailbox = ground (arith, flagged, h.mail) in
          ground (
            arith,
            flagged,
            fetch_keeps s h some_mail
                (record s.prl.tx_events { reset = false; discard = false; msg_tx = false }) refl,
          ))
  ]
  tx_keeps i Tx.TxState.reset s h = ground arith
  tx_keeps i Tx.TxState.construct_message s h =
      ground (arith, (in_hand-eq s.prl.tx_message h.tx_has h.live_message).1)
  tx_keeps i Tx.TxState.await_sink_tx s h =
      ground (arith, (in_hand-eq s.prl.tx_message h.tx_has h.live_message).1)
  tx_keeps i Tx.TxState.wait_response s h = ground arith
  tx_keeps i Tx.TxState.match_messageid s h = ground arith
  tx_keeps i Tx.TxState.transmission_error s h =
      ground (arith, (in_hand-eq s.prl.tx_message h.tx_has h.live_message).1)
  tx_keeps i Tx.TxState.message_sent s h =
      ground (arith, (in_hand-eq s.prl.tx_message h.tx_has h.live_message).1)
  tx_keeps i Tx.TxState.discard_message s h = elim (ptr_cases s.prl.tx_message h.live_message) [
    | inl empty ↦ ground (arith, empty)
    | inr (m, there) ↦ ground (arith, there)
  ]

  pub hr_keeps :
      (timed_out : Bool) (r : HrState) (s : Sys)
      → Inv n s
      → Inv n (record s { hr = (hr_step timed_out r s.prl).0; prl = (hr_step timed_out r s.prl).1 })
  unfolding hr_step hardrst_reset_layer hardrst_layer_yielded hardrst_indicate_hard_reset
      hardrst_request_hard_reset hardrst_wait_phy hardrst_hard_reset_requested hardrst_wait_pe
      hardrst_complete
  hr_keeps b HardReset.HrState.reset_layer s h = ground arith
  hr_keeps b (HardReset.HrState.layer_yielded r) s h = ground arith
  hr_keeps b HardReset.HrState.indicate_hard_reset s h = ground arith
  hr_keeps b HardReset.HrState.request_hard_reset s h = ground arith
  hr_keeps b HardReset.HrState.wait_phy s h = ground arith
  hr_keeps b HardReset.HrState.hard_reset_requested s h = ground arith
  hr_keeps b HardReset.HrState.wait_pe s h = ground arith
  hr_keeps b HardReset.HrState.complete s h = ground arith

  pub poll_keeps :
      (status : FusbStatus) (s : Sys) → Inv n s → Inv n (record s { prl = int_n_poll status s.prl })
  unfolding int_n_poll
  poll_keeps status s h = ground arith
