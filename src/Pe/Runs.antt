-- ===== src/Pe/Runs.antt =====
-- The thread of lib/src/policy_engine.c over whole runs of its loop.
use usb_pd_firmware.Prelude.{inl, ◌≤◌, ◌≡◌, refl, List, [], ◌∷◌, Ends, Ends->>=, Ends-map, arith}
use usb_pd_firmware.Pe.{
  PeState, DpmCallbacks, Pe, Input, startup, discovery, wait_cap, eval_cap, select_cap,
  transition_sink, ready, get_source_cap, give_sink_cap, hard_reset, transition_default, soft_reset,
  send_soft_reset, send_not_supported, chunk_received, not_supported_received, source_unresponsive,
  pe_init,
}
use usb_pd_firmware.Pe.Step.{pe_step, pe_run, pe_thread}
use usb_pd_firmware.Pe.Invariant.{DpmLaws, Fits, resets, Inv, Keeps}
use usb_pd_firmware.Pe.Safety.{step-Inv}

module _ (dpm : DpmCallbacks) (laws : DpmLaws dpm) where
  -- Each input has a buffer, and no Get_Sink_Cap message for a DPM that cannot answer one.
  abbrev pub AllFits : List Input → Type 0
  AllFits [] = Unit
  AllFits (i ∷ is) = Fits dpm laws i × AllFits is

  run-Inv :
      (is : List Input) (st : PeState) (p : Pe dpm.State)
      → AllFits is
      → Inv dpm laws st p
      → Ends (Keeps dpm laws) (pe_run dpm is st p)
  unfolding pe_run
  run-Inv [] st p room h = h
  run-Inv (i ∷ is) st p room h =
      Ends->>= (Keeps dpm laws) (Keeps dpm laws) (pe_step dpm i st p) _
        (step-Inv dpm laws i st p (room.0) h) (λ r kept. run-Inv is (r.0) (r.1) (room.1) kept)

  run_start :
      (is : List Input) (d : dpm.State)
      → laws.Sound d
      → AllFits is
      → Ends (Keeps dpm laws) (pe_thread dpm is d)
  unfolding pe_thread pe_init
  run_start is d sound room =
      run-Inv is startup (pe_init d) room
        (record { template = inl refl; sound = sound; few_resets = omega arith; counted = refl })

  -- Between two rounds every hard reset is counted, and there are at most three.
  Few : PeState × Pe dpm.State → Type 0
  Few r = (resets (r.1).signals ≤ 3) × (resets (r.1).signals ≡ (r.1).hard_reset_counter)

  Inv-Few : (st : PeState) (p : Pe dpm.State) → Inv dpm laws st p → Few (st, p)
  unfolding Few
  Inv-Few startup p h = ground arith
  Inv-Few discovery p h = ground arith
  Inv-Few wait_cap p h = ground arith
  Inv-Few eval_cap p h = ground arith
  Inv-Few select_cap p h = ground arith
  Inv-Few transition_sink p h = ground arith
  Inv-Few ready p h = ground arith
  Inv-Few get_source_cap p h = ground arith
  Inv-Few give_sink_cap p h = ground arith
  Inv-Few hard_reset p h = ground arith
  Inv-Few transition_default p h = ground arith
  Inv-Few soft_reset p h = ground arith
  Inv-Few send_soft_reset p h = ground arith
  Inv-Few send_not_supported p h = ground arith
  Inv-Few chunk_received p h = ground arith
  Inv-Few not_supported_received p h = ground arith
  Inv-Few source_unresponsive p h = ground arith

-- With a DPM that keeps to its interface, a pool that always has a buffer, and no Get_Sink_Cap
-- message for a DPM that cannot answer one, the thread never faults, however many rounds it runs and
-- whatever else it receives, and it is left in a state that satisfies the invariant: in PESinkReady there is an explicit contract, a request, capabilities
-- with the DPM and a negotiated revision, and no message is held.
pub thread-Keeps :
    (dpm : DpmCallbacks) (laws : DpmLaws dpm) (is : List Input) (d : dpm.State)
    → laws.Sound d
    → AllFits dpm laws is
    → Ends (Keeps dpm laws) (pe_thread dpm is d)
thread-Keeps dpm laws is d sound room = run_start dpm laws is d sound room

-- With such a DPM, pool and messages, no run of the thread asks for more than three hard resets: the
-- counter counts each of them and is never reset.
pub thread_resets :
    (dpm : DpmCallbacks) (laws : DpmLaws dpm) (is : List Input) (d : dpm.State)
    → laws.Sound d
    → AllFits dpm laws is
    → Ends
        (λ r. (resets (r.1).signals ≤ 3) × (resets (r.1).signals ≡ (r.1).hard_reset_counter))
        (pe_thread dpm is d)
unfolding Few
thread_resets dpm laws is d sound room =
    Ends-map (Keeps dpm laws) (Few dpm laws) (pe_thread dpm is d)
      (λ r. Inv-Few dpm laws (r.0) (r.1)) (run_start dpm laws is d sound room)
