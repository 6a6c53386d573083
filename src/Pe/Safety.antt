-- ===== src/Pe/Safety.antt =====
-- The rounds of the loop in lib/src/policy_engine.c: every handler keeps the invariant.
pub mod Handlers
pub mod Evaluation
pub mod Contract
pub mod Messages
use usb_pd_firmware.Prelude.{Ends}
use usb_pd_firmware.Pe.{
  PeState, DpmCallbacks, Pe, Input, startup, discovery, wait_cap, eval_cap, select_cap,
  transition_sink, ready, get_source_cap, give_sink_cap, hard_reset, transition_default, soft_reset,
  send_soft_reset, send_not_supported, chunk_received, not_supported_received, source_unresponsive,
}
use usb_pd_firmware.Pe.Handlers.{pe_sink_discovery}
use usb_pd_firmware.Pe.Step.{pe_step}
use usb_pd_firmware.Pe.Invariant.{DpmLaws, Fits, Inv, Keeps}
use usb_pd_firmware.Pe.Safety.Handlers
use usb_pd_firmware.Pe.Safety.Evaluation
use usb_pd_firmware.Pe.Safety.Contract
use usb_pd_firmware.Pe.Safety.Messages

-- With a DPM that keeps to its interface, a buffer in the pool, and no Get_Sink_Cap message for a
-- DPM that cannot answer one, each round of the policy engine, in each state and for all other
-- events and messages, returns and leaves the invariant of the state it goes to: no message is used
-- after it was freed, no NULL is read, the header template is that of a sink, and at most three
-- hard resets were asked for.
pub step-Inv :
    (dpm : DpmCallbacks) (laws : DpmLaws dpm) (i : Input) (st : PeState) (p : Pe dpm.State)
    → Fits dpm laws i
    → Inv dpm laws st p
    → Ends (Keeps dpm laws) (pe_step dpm i st p)
unfolding pe_step pe_sink_discovery
step-Inv dpm laws i startup p fits h = Handlers.startup_safe dpm laws p h
step-Inv dpm laws i discovery p fits h = h
step-Inv dpm laws i wait_cap p fits h = Handlers.wait_cap_safe dpm laws i p h
step-Inv dpm laws i eval_cap p fits h = Evaluation.eval_cap_safe dpm laws i p (fits.0) h
step-Inv dpm laws i select_cap p fits h = Handlers.select_cap_safe dpm laws i p h
step-Inv dpm laws i transition_sink p fits h = Handlers.transition_sink_safe dpm laws i p h
step-Inv dpm laws i ready p fits h = Contract.ready_safe dpm laws i p fits h
step-Inv dpm laws i get_source_cap p fits h = Messages.get_source_cap_safe dpm laws i p (fits.0) h
step-Inv dpm laws i give_sink_cap p fits h =
    Messages.give_sink_cap_safe dpm laws i p (fits.0) (h.0) (h.1)
step-Inv dpm laws i hard_reset p fits h = Handlers.hard_reset_safe dpm laws p h
step-Inv dpm laws i transition_default p fits h = Handlers.transition_default_safe dpm laws p h
step-Inv dpm laws i soft_reset p fits h = Messages.soft_reset_safe dpm laws i p (fits.0) h
step-Inv dpm laws i send_soft_reset p fits h = Messages.send_soft_reset_safe dpm laws i p (fits.0) h
step-Inv dpm laws i send_not_supported p fits h =
    Messages.send_not_supported_safe dpm laws i p (fits.0) h
step-Inv dpm laws i chunk_received p fits h = Messages.chunk_received_safe dpm laws i p h
step-Inv dpm laws i not_supported_received p fits h =
    Messages.not_supported_received_safe dpm laws p h
step-Inv dpm laws i source_unresponsive p fits h = Handlers.source_unresponsive_safe dpm laws i p h
