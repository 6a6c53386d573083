-- ===== src/Prl/Filter.antt =====
-- The receive thread of lib/src/protocol_rx.c as a filter: which of a series of messages it passes
-- to the policy engine.
use usb_pd_firmware.Prelude.{
  ℕ, ◌+◌, ◌≡◌, refl, ◌∙◌, true, false, not, ◌||◌, Option, some, List, [], ◌∷◌, length, arith, inl,
  inr, Bool-cases, Ends, Ends-map, Ends->>=, ◌>>=◌,
}
use usb_pd_firmware.Pd.{PdMsg, messageid_get, is_control}
use usb_pd_firmware.Pd.MsgType
use usb_pd_firmware.Prl.{Prl, ToPe, no_rx_events, msg_rx}
use usb_pd_firmware.Prl.Rx
use usb_pd_firmware.Prl.Rx.{
  RxState, is_stored, rx_step, protocol_rx_wait_phy, protocol_rx_reset, protocol_rx_reset_yielded,
  protocol_rx_check_messageid, protocol_rx_store_messageid, protocol_rx_store_yielded,
}
use usb_pd_firmware.Prl.Delivery.{rx_rounds}

-- The messages to pass on after one with the MessageID `id`: a Soft_Reset, and any other message
-- that has not the MessageID of the one before.
unfoldable pub fresh : Option ℕ → List PdMsg → List PdMsg
fresh id [] = []
fresh id (m ∷ ms) = elim (is_control m MsgType.soft_reset || not (is_stored id m)) [
  | true ↦ m ∷ fresh (some (messageid_get m)) ms
  | false ↦ fresh id ms
]

-- What the policy engine was told, the latest first, after these messages.
unfoldable pub told : List PdMsg → List ToPe → List ToPe
told [] es = es
told (m ∷ ms) es = told ms (msg_rx m ∷ es)

-- The chip says that it has acknowledged a message.
abbrev pub arrived : Prl → Prl
arrived p = record p { rx_events = record p.rx_events { i_gcrcsent = true } }

-- The messages arrive one after the other, each when the thread waits again: no message takes it
-- more than six rounds.
unfoldable pub receive : List PdMsg → RxState → Prl → Option (RxState × Prl)
unfolding rx_rounds
receive [] r p = some (r, p)
receive (m ∷ ms) r p = rx_rounds 6 m r (arrived p) >>= λ a. receive ms (a.0) (a.1)

-- What is so once the messages `ms` were received, in a layer that was `p`.
pub record Filtered (p : Prl) (ms : List PdMsg) (r : RxState × Prl) : Type 0 where
  pub waits : r.0 ≡ Rx.RxState.wait_phy
  pub idle : (r.1).rx_events ≡ no_rx_events
  pub passed : (r.1).to_pe ≡ told (fresh p.rx_messageid ms) p.to_pe
  pub taken : (r.1).allocated ≡ p.allocated + length ms
  pub given_back : (r.1).freed + length (fresh p.rx_messageid ms) ≡ p.freed + length ms

rx_rounds_passed :
    (m : PdMsg) (p : Prl)
    → p.rx_events ≡ no_rx_events
    → is_control m MsgType.soft_reset || not (is_stored p.rx_messageid m) ≡ true
    → Ends
        (λ r.
          (r.0 ≡ Rx.RxState.wait_phy)
          × ((r.1).rx_events ≡ no_rx_events)
          × ((r.1).rx_messageid ≡ some (messageid_get m))
          × ((r.1).to_pe ≡ msg_rx m ∷ p.to_pe)
          × ((r.1).allocated ≡ p.allocated + 1)
          × ((r.1).freed ≡ p.freed))
        (rx_rounds 6 m Rx.RxState.wait_phy (arrived p))
unfolding rx_rounds rx_step protocol_rx_wait_phy protocol_rx_reset protocol_rx_reset_yielded
    protocol_rx_check_messageid protocol_rx_store_messageid protocol_rx_store_yielded
rx_rounds_passed m p idle new = ground (arith, idle, new)

rx_rounds_dropped :
    (m : PdMsg) (p : Prl)
    → p.rx_events ≡ no_rx_events
    → is_control m MsgType.soft_reset || not (is_stored p.rx_messageid m) ≡ false
    → Ends
        (λ r.
          (r.0 ≡ Rx.RxState.wait_phy)
          × ((r.1).rx_events ≡ no_rx_events)
          × ((r.1).rx_messageid ≡ p.rx_messageid)
          × ((r.1).to_pe ≡ p.to_pe)
          × ((r.1).allocated ≡ p.allocated + 1)
          × ((r.1).freed ≡ p.freed + 1))
        (rx_rounds 6 m Rx.RxState.wait_phy (arrived p))
unfolding rx_rounds rx_step protocol_rx_wait_phy protocol_rx_reset protocol_rx_reset_yielded
    protocol_rx_check_messageid protocol_rx_store_messageid protocol_rx_store_yielded
rx_rounds_dropped m p idle old = ground (arith, idle, old)

fresh_pass :
    (id : Option ℕ) (m : PdMsg) (ms : List PdMsg)
    → is_control m MsgType.soft_reset || not (is_stored id m) ≡ true
    → fresh id (m ∷ ms) ≡ m ∷ fresh (some (messageid_get m)) ms
unfolding fresh
fresh_pass id m ms new = ground (arith, new)

fresh_drop :
    (id : Option ℕ) (m : PdMsg) (ms : List PdMsg)
    → is_control m MsgType.soft_reset || not (is_stored id m) ≡ false
    → fresh id (m ∷ ms) ≡ fresh id ms
unfolding fresh
fresh_drop id m ms old = ground (arith, old)

-- A round that passes `m` on and leaves `q`, and then the rest.
passed_on :
    (m : PdMsg) (ms : List PdMsg) (p q : Prl) (r : RxState × Prl)
    → is_control m MsgType.soft_reset || not (is_stored p.rx_messageid m) ≡ true
    → q.rx_messageid ≡ some (messageid_get m)
    → q.to_pe ≡ msg_rx m ∷ p.to_pe
    → q.allocated ≡ p.allocated + 1
    → q.freed ≡ p.freed
    → Filtered q ms r
    → Filtered p (m ∷ ms) r
unfolding told
passed_on m ms p q r new id pe taken freed h = record {
  waits = h.waits;
  idle = h.idle;
  passed = rw (fresh_pass p.rx_messageid m ms new) (h.passed ∙ rw (id, pe) refl);
  taken = omega (arith, h.taken, taken);
  given_back = rw (fresh_pass p.rx_messageid m ms new) (omega (arith, kept, freed));
}
  where
    kept : (r.1).freed + length (fresh (some (messageid_get m)) ms) ≡ q.freed + length ms
    kept = rw (← id) h.given_back

dropped :
    (m : PdMsg) (ms : List PdMsg) (p q : Prl) (r : RxState × Prl)
    → is_control m MsgType.soft_reset || not (is_stored p.rx_messageid m) ≡ false
    → q.rx_messageid ≡ p.rx_messageid
    → q.to_pe ≡ p.to_pe
    → q.allocated ≡ p.allocated + 1
    → q.freed ≡ p.freed + 1
    → Filtered q ms r
    → Filtered p (m ∷ ms) r
dropped m ms p q r old id pe taken freed h = record {
  waits = h.waits;
  idle = h.idle;
  passed = rw (fresh_drop p.rx_messageid m ms old) (h.passed ∙ rw (id, pe) refl);
  taken = omega (arith, h.taken, taken);
  given_back = rw (fresh_drop p.rx_messageid m ms old) (omega (arith, kept, freed));
}
  where
    kept : (r.1).freed + length (fresh p.rx_messageid ms) ≡ q.freed + length ms
    kept = rw (← id) h.given_back

-- Any series of messages, each arriving when the receive thread waits: at most six rounds a message,
-- undisturbed, leave the thread waiting again, and the policy engine was told exactly those that a
-- filter on MessageIDs lets through, in order; each message was put into a buffer of the pool, and
-- the buffers of those held back, and no others, were given back.
pub receive-Filtered :
    (ms : List PdMsg) (p : Prl)
    → p.rx_events ≡ no_rx_events
    → Ends (Filtered p ms) (receive ms Rx.RxState.wait_phy p)
unfolding receive fresh told
receive-Filtered [] p idle = record {
  waits = refl;
  idle = idle;
  passed = refl;
  taken = omega arith;
  given_back = refl;
}
receive-Filtered (m ∷ ms) p idle =
    elim (Bool-cases (is_control m MsgType.soft_reset || not (is_stored p.rx_messageid m))) [
      | inl new ↦
          Ends->>= _ (Filtered p (m ∷ ms)) (rx_rounds 6 m Rx.RxState.wait_phy (arrived p)) _
            (rx_rounds_passed m p idle new)
            (λ a (at, quiet, id, pe, taken, freed). rw at (
              Ends-map (Filtered (a.1) ms) (Filtered p (m ∷ ms)) _
                (λ r. passed_on m ms p (a.1) r new id pe taken freed)
                (receive-Filtered ms (a.1) quiet)))
      | inr old ↦
          Ends->>= _ (Filtered p (m ∷ ms)) (rx_rounds 6 m Rx.RxState.wait_phy (arrived p)) _
            (rx_rounds_dropped m p idle old)
            (λ a (at, quiet, id, pe, taken, freed). rw at (
              Ends-map (Filtered (a.1) ms) (Filtered p (m ∷ ms)) _
                (λ r. dropped m ms p (a.1) r old id pe taken freed)
                (receive-Filtered ms (a.1) quiet)))
    ]
