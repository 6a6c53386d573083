-- ===== src/Prl/Accounts.antt =====
-- Whole runs of the protocol layer: its threads in any order, with any interrupts and requests.
use usb_pd_firmware.Prelude.{
  ℕ, ◌+◌, ◌-◌, ◌*◌, ◌%◌, ◌<◌, ◌≡◌, refl, inl, List, [], ◌∷◌, length, Ends, Ends->>=, Ends-map,
  Ends-Allows, arith,
}
use usb_pd_firmware.Bits.{field, place, field-bit_or_left, field-bit_or_right}
use usb_pd_firmware.Pd.{PdMsg, messageid_get}
use usb_pd_firmware.Pe.{Ptr, null, live, dangling}
use usb_pd_firmware.Prl.{prl_init}
use usb_pd_firmware.Prl.Tx.{set_messageid}
use usb_pd_firmware.Prl.Rx.{rx_step}
use usb_pd_firmware.Prl.Tx.{tx_step}
use usb_pd_firmware.Prl.System.{
  Sys, Action, run_rx, run_tx, run_hr, poll, send_message, start_ams, ask_hard_reset,
  hard_reset_done, free_message, take_back, posted, pe_send, sys_init, sys_step, sys_run,
}
use usb_pd_firmware.Prl.System.Invariant.{Inv, posts, bad, Allowed, Orderly}
use usb_pd_firmware.Prl.System.Steps.{rx_keeps, tx_keeps, hr_keeps, poll_keeps, Kept}

length-posted : (qs : List Ptr) (q : Ptr) → length (posted qs q) ≡ length qs + 1
unfolding posted
length-posted [] q = refl
length-posted (x ∷ qs) q = omega (arith, length-posted qs q)

bad-posted : (qs : List Ptr) (m : PdMsg) → bad (posted qs (live m)) ≡ bad qs
unfolding posted
bad-posted [] m = refl
bad-posted (null ∷ qs) m = omega (arith, bad-posted qs m)
bad-posted (live x ∷ qs) m = bad-posted qs m
bad-posted (dangling ∷ qs) m = omega (arith, bad-posted qs m)

-- The count of posts after an action, and after several.
abbrev after : ℕ → Action → ℕ
after n (run_rx _) = n
after n (run_tx _) = n
after n (run_hr _) = n
after n (poll _) = n
after n start_ams = n
after n ask_hard_reset = n
after n hard_reset_done = n
after n free_message = n
after n (send_message _) = n + 1

abbrev after_all : ℕ → List Action → ℕ
after_all n [] = n
after_all n (a ∷ rest) = after_all (after n a) rest

step_keeps :
    (n : ℕ) (a : Action) (s : Sys)
    → Allowed a s.prl
    → Inv n s
    → Ends (Inv (after n a)) (sys_step a s)
unfolding sys_step pe_send take_back Kept
step_keeps n (run_rx m) s ok h =
    Ends->>= (λ a. Inv n (record s { rx = a.0; prl = a.1 })) (Inv n) (rx_step m s.rx s.prl) _
      (rx_keeps n m s.rx s ok h) (λ a k. k)
step_keeps n (run_tx i) s ok h =
    Ends->>= (Kept n s) (Inv n) (tx_step i s.tx s.prl) _ (tx_keeps n i s.tx s h) (λ a k. k)
step_keeps n (run_hr timed_out) s ok h = hr_keeps n timed_out s.hr s h
step_keeps n (poll status) s ok h = poll_keeps n status s h
step_keeps n (send_message m) s ok h =
    ground (arith, length-posted s.prl.tx_mailbox (live m), bad-posted s.prl.tx_mailbox m)
step_keeps n start_ams s ok h = ground arith
step_keeps n ask_hard_reset s ok h = ground arith
step_keeps n hard_reset_done s ok h = ground arith
step_keeps n free_message s ok h = ground (arith, ok.0, ok.1)

run_keeps :
    (n : ℕ) (actions : List Action) (s : Sys)
    → Orderly actions s
    → Inv n s
    → Ends (Inv (after_all n actions)) (sys_run actions s)
unfolding sys_run Orderly
run_keeps n [] s ok h = h
run_keeps n (a ∷ rest) s ok h =
    Ends->>= (λ s'. Inv (after n a) s' × Orderly rest s') (Inv (after_all (after n a) rest))
      (sys_step a s) _
      (Ends-Allows (Inv (after n a)) (Orderly rest) (sys_step a s) (step_keeps n a s (ok.0) h)
        (ok.1))
      (λ s' k. run_keeps (after n a) rest s' (k.1) (k.0))

after_all-posts : (n : ℕ) (actions : List Action) → after_all n actions ≡ n + posts actions
after_all-posts n [] = omega arith
after_all-posts n ((run_rx _) ∷ rest) = omega (arith, after_all-posts n rest)
after_all-posts n ((run_tx _) ∷ rest) = omega (arith, after_all-posts n rest)
after_all-posts n ((run_hr _) ∷ rest) = omega (arith, after_all-posts n rest)
after_all-posts n ((poll _) ∷ rest) = omega (arith, after_all-posts n rest)
after_all-posts n (start_ams ∷ rest) = omega (arith, after_all-posts n rest)
after_all-posts n (ask_hard_reset ∷ rest) = omega (arith, after_all-posts n rest)
after_all-posts n (hard_reset_done ∷ rest) = omega (arith, after_all-posts n rest)
after_all-posts n (free_message ∷ rest) = omega (arith, after_all-posts n rest)
after_all-posts n ((send_message _) ∷ rest) = omega (arith, after_all-posts (n + 1) rest)

init_Inv : Inv 0 sys_init
unfolding sys_init prl_init
init_Inv = record {
  tx_has = _;
  rx_has = _;
  live_message = refl;
  live_mail = refl;
  places = omega arith;
  mail = inl refl;
  answered = refl;
  pool = refl;
  counter = omega arith;
  stored = _;
}

-- However the three threads, the interrupts and the requests follow each other: as long as the pool
-- has a buffer when a message was received, the mailbox a place when the policy engine posts one, and
-- the engine gives no message back while the transmitter has one, no step faults, none reads a message
-- that was given back, and afterwards: the answers PDB_EVT_PE_TX_DONE and PDB_EVT_PE_TX_ERR given to
-- the policy engine, with the messages in the mailbox and in transmission, are as many as it posted;
-- the buffers taken from the pool are as many as those given back, passed to the policy engine and
-- held by the receive thread; both MessageIDs are below 8.
pub sys_run-Inv :
    (actions : List Action)
    → Orderly actions sys_init
    → Ends (Inv (posts actions)) (sys_run actions sys_init)
sys_run-Inv actions ok =
    Ends-map (Inv (after_all 0 actions)) (Inv (posts actions)) (sys_run actions sys_init)
      (λ s h. rw (← counted actions) h) (run_keeps 0 actions sys_init ok init_Inv)
  where
    counted : (actions : List Action) → after_all 0 actions ≡ posts actions
    counted actions = omega (arith, after_all-posts 0 actions)

-- The header of a message that goes to the chip carries the MessageID, and keeps its message type,
-- revision and number of objects, for an ID below 8.
pub messageid_get-set_messageid :
    (id : ℕ) (m : PdMsg)
    → id < 8
    → (messageid_get (set_messageid id m) ≡ id)
      × (field (set_messageid id m).hdr 0 9 ≡ field m.hdr 0 9)
      × (field (set_messageid id m).hdr 12 4 ≡ field m.hdr 12 4)
unfolding set_messageid
messageid_get-set_messageid id m h =
    let cleared : ℕ = m.hdr - field m.hdr 9 3 * 512 in
    let new : ℕ = place (id % 8) 9 3 in
    (
      rw (field-bit_or_right cleared new 9 3 (omega arith)) (omega arith),
      rw (field-bit_or_left cleared new 0 9 (omega arith)) (omega arith),
      rw (field-bit_or_left cleared new 12 4 (omega arith)) (omega arith),
    )
