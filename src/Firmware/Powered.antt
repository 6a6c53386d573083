-- ===== src/Firmware/Powered.antt =====
-- Each round of the engine with the callbacks of src/device_policy_manager.c, and the output line.
use usb_pd_firmware.Prelude.{
  ◌≡◌, refl, inl, inr, Bool, false, List, [], ◌∷◌, Option-cases, arith, Ends, Ends-map, Allows,
  Allows->>=, Ends-Allows,
}
use usb_pd_firmware.Pd.{PdMsg}
use usb_pd_firmware.Dpm.{Sink}
use usb_pd_firmware.Dpm.Request.{pdbs_dpm_evaluate_capability}
use usb_pd_firmware.Dpm.Output.{pdbs_dpm_evaluate_typec_current}
use usb_pd_firmware.Pe.{
  PeState, Ptr, null, live, dangling, Pe, Input, startup, discovery, wait_cap, eval_cap, select_cap,
  transition_sink, ready, get_source_cap, give_sink_cap, hard_reset, transition_default, soft_reset,
  send_soft_reset, send_not_supported, chunk_received, not_supported_received, source_unresponsive,
  pe_init,
}
use usb_pd_firmware.Pe.Handlers.{
  wait_cap_message, note_capabilities, request_buffer, keep_request, select_cap_response,
  set_pps_timer, select_cap_sent, pe_sink_startup, pe_sink_discovery, pe_sink_wait_cap,
  pe_sink_eval_cap, pe_sink_select_cap, pe_sink_transition_sink, pe_sink_hard_reset,
  pe_sink_transition_default, note_match, pe_sink_source_unresponsive,
}
use usb_pd_firmware.Pe.Messages.{pe_sink_chunk_received, pe_sink_not_supported_received}
use usb_pd_firmware.Pe.Step.{pe_step, pe_run, pe_thread}
use usb_pd_firmware.Firmware.{pdb_config_dpm}
use usb_pd_firmware.Firmware.Ready.{ready-Off}
use usb_pd_firmware.Firmware.Sending.{
  give_sink_cap-Off, get_source_cap-Off, soft_reset-Off, send_not_supported-Off,
  send_soft_reset-Off,
}
use usb_pd_firmware.Pe.Invariant.{Keeps}
use usb_pd_firmware.Firmware.Laws.{Configured}
use usb_pd_firmware.Firmware.Safety.{pdb_config_laws, AllServed, thread-Keeps_firmware}
use usb_pd_firmware.Firmware.Output.{
  Covered, Powered, KeepsOff, Still, any, evaluate-Still, pd_start-Still, standby_off, default_off,
}

startup-Off : (p : Pe Sink) → Powered startup p → Allows KeepsOff (pe_sink_startup pdb_config_dpm p)
unfolding pe_sink_startup
startup-Off p h = ground (arith, pd_start-Still p.dpm)

wait_cap-Off :
    (i : Input) (p : Pe Sink) → Covered p → Allows KeepsOff (pe_sink_wait_cap pdb_config_dpm i p)
unfolding pe_sink_wait_cap wait_cap_message
wait_cap-Off i p h = elim (Option-cases i.fetched) [
  | inl empty ↦ ground (arith, empty)
  | inr (m, got) ↦ ground (arith, got)
]

-- The steps before an evaluation leave contract and DPM alone.
Alike : Pe Sink → Pe Sink → Type 0
Alike p q = (q.explicit_contract ≡ p.explicit_contract) × (q.dpm ≡ p.dpm)

noted-Alike :
    (q : Ptr) (p : Pe Sink) → Allows (λ r. Alike p (r.1)) (note_capabilities pdb_config_dpm q p)
unfolding note_capabilities Alike
noted-Alike null p = (refl, refl)
noted-Alike (live m) p = (refl, refl)
noted-Alike dangling p = tt

buffer-Alike :
    (i : Input) (p : Pe Sink) → Allows (λ r. Alike p (r.1)) (request_buffer pdb_config_dpm i p)
unfolding request_buffer Alike
buffer-Alike i p = elim (Option-cases p.last_dpm_request) [
  | inl empty ↦ elim (Option-cases i.buffer) [
    | inl full ↦ ground (arith, empty, full)
    | inr (b, there) ↦ ground (arith, empty, there)
  ]
  | inr (r, there) ↦ ground (arith, there)
]

keep_request-Off :
    (p q : Pe Sink) (a : Bool × PdMsg × Sink)
    → Covered p
    → Alike p q
    → Still p.dpm (a.2)
    → Allows KeepsOff (keep_request pdb_config_dpm q a)
unfolding keep_request Alike
keep_request-Off p q a h like still = ground (arith, like, still)

eval_cap-Off :
    (i : Input) (p : Pe Sink) → Covered p → Allows KeepsOff (pe_sink_eval_cap pdb_config_dpm i p)
unfolding pe_sink_eval_cap Alike
eval_cap-Off i p h =
    Allows->>= (λ r. Alike p (r.1)) KeepsOff (note_capabilities pdb_config_dpm p.message p) _
      (noted-Alike p.message p)
      (λ noted like.
        Allows->>= (λ r. Alike (noted.1) (r.1)) KeepsOff (request_buffer pdb_config_dpm i (noted.1))
          _ (buffer-Alike i (noted.1))
          (λ got same.
            Allows->>= (λ a. Still p.dpm (a.2)) KeepsOff
              (pdbs_dpm_evaluate_capability p.hdr_template (noted.0) (got.0) p.dpm) _
              (evaluate-Still p.hdr_template (noted.0) (got.0) p.dpm)
              (λ a still. keep_request-Off p (got.1) a h (ground (arith, like, same)) still)))

select_cap-Off :
    (i : Input) (p : Pe Sink) → Covered p → Allows KeepsOff (pe_sink_select_cap pdb_config_dpm i p)
unfolding pe_sink_select_cap select_cap_sent select_cap_response set_pps_timer
select_cap-Off i p h = elim (Option-cases p.last_dpm_request) [
  | inl missing ↦ ground (arith, missing)
  | inr (r, made) ↦ elim (Option-cases i.fetched) [
    | inl empty ↦ ground (arith, made, empty)
    | inr (m, got) ↦ ground (arith, made, got, standby_off p.dpm)
  ]
]

transition_sink-Off :
    (i : Input) (p : Pe Sink)
    → Covered p
    → Allows KeepsOff (pe_sink_transition_sink pdb_config_dpm i p)
unfolding pe_sink_transition_sink
transition_sink-Off i p h = elim (Option-cases i.fetched) [
  | inl empty ↦ ground (arith, empty)
  | inr (m, got) ↦ ground (arith, got, default_off p.dpm)
]

unresponsive-Off :
    (i : Input) (p : Pe Sink) → Allows KeepsOff (pe_sink_source_unresponsive pdb_config_dpm i p)
unfolding pe_sink_source_unresponsive note_match
unresponsive-Off i p =
    Allows->>= (λ _. Unit {0}) KeepsOff (pdbs_dpm_evaluate_typec_current i.typec_current p.dpm) _
      (any _) (λ a _. tt)

step-Off :
    (i : Input) (st : PeState) (p : Pe Sink)
    → Powered st p
    → Allows KeepsOff (pe_step pdb_config_dpm i st p)
unfolding pe_step pe_sink_discovery pe_sink_hard_reset pe_sink_transition_default
    pe_sink_chunk_received pe_sink_not_supported_received
step-Off i startup p h = startup-Off p h
step-Off i discovery p h = h
step-Off i wait_cap p h = wait_cap-Off i p h
step-Off i eval_cap p h = eval_cap-Off i p h
step-Off i select_cap p h = select_cap-Off i p h
step-Off i transition_sink p h = transition_sink-Off i p h
step-Off i ready p h = ready-Off i p h
step-Off i get_source_cap p h = get_source_cap-Off i p h
step-Off i give_sink_cap p h = give_sink_cap-Off i p h
step-Off i hard_reset p h = ground arith
step-Off i transition_default p h = default_off p.dpm
step-Off i soft_reset p h = soft_reset-Off i p h
step-Off i send_soft_reset p h = send_soft_reset-Off i p h
step-Off i send_not_supported p h = send_not_supported-Off i p h
step-Off i chunk_received p h = ground arith
step-Off i not_supported_received p h = h
step-Off i source_unresponsive p h = unresponsive-Off i p

run-Off :
    (is : List Input) (st : PeState) (p : Pe Sink)
    → Powered st p
    → Allows KeepsOff (pe_run pdb_config_dpm is st p)
unfolding pe_run
run-Off [] st p h = h
run-Off (i ∷ is) st p h =
    Allows->>= KeepsOff KeepsOff (pe_step pdb_config_dpm i st p) _ (step-Off i st p h)
      (λ r k. run-Off is (r.0) (r.1) k)

-- The output of the firmware: from a start with it off, with a stored configuration whose current
-- takes no division by a voltage or by zero, while no Get_Sink_Cap message comes and the pool has
-- buffers, every run returns, and it leaves the output off, or an explicit contract in place, or
-- the engine in PESinkSourceUnresponsive, where the Type-C current decides.
pub thread-Powered :
    (is : List Input) (s : Sink)
    → Configured s.flash
    → AllServed is
    → s.out_ctrl ≡ false
    → Ends KeepsOff (pe_thread pdb_config_dpm is s)
unfolding pe_thread pe_init
thread-Powered is s h served off =
    Ends-map (λ r. Keeps pdb_config_dpm pdb_config_laws r × KeepsOff r) KeepsOff
      (pe_thread pdb_config_dpm is s) (λ r both. both.1)
      (Ends-Allows (Keeps pdb_config_dpm pdb_config_laws) KeepsOff (pe_thread pdb_config_dpm is s)
        (thread-Keeps_firmware is s h served) (run-Off is startup (pe_init s) off))
