-- ===== src/Firmware/Sending.antt =====
-- The handlers of lib/src/policy_engine.c that send a message of their own, and the output line.
use usb_pd_firmware.Prelude.{inl, inr, Option-cases, arith, Allows, Allows->>=}
use usb_pd_firmware.Dpm.{Sink}
use usb_pd_firmware.Dpm.SinkCap.{pdbs_dpm_get_sink_capability}
use usb_pd_firmware.Pe.{Pe, Input}
use usb_pd_firmware.Pe.Messages.{
  readable, send_sink_cap, pe_sink_get_source_cap, pe_sink_give_sink_cap, pe_sink_soft_reset,
  pe_sink_send_soft_reset, pe_sink_send_not_supported,
}
use usb_pd_firmware.Firmware.{pdb_config_dpm}
use usb_pd_firmware.Dpm.SinkCap.{get_sink_capability-Still}
use usb_pd_firmware.Firmware.Output.{Covered, KeepsOff, Still, any}

pub give_sink_cap-Off :
    (i : Input) (p : Pe Sink)
    → Covered p
    → Allows KeepsOff (pe_sink_give_sink_cap pdb_config_dpm i p)
unfolding pe_sink_give_sink_cap send_sink_cap
give_sink_cap-Off i p h =
    Allows->>= (λ _. Unit {0}) KeepsOff i.buffer _ (any _)
      (λ b _.
        Allows->>= (λ _. Unit {0}) KeepsOff (readable p.message) _ (any _)
          (λ m _.
            Allows->>= (λ a. Still p.dpm (a.1)) KeepsOff
              (pdbs_dpm_get_sink_capability p.hdr_template m b p.dpm) _
              (get_sink_capability-Still p.hdr_template m b p.dpm)
              (λ made still. ground (arith, still))))

pub get_source_cap-Off :
    (i : Input) (p : Pe Sink)
    → Covered p
    → Allows KeepsOff (pe_sink_get_source_cap pdb_config_dpm i p)
unfolding pe_sink_get_source_cap
get_source_cap-Off i p h = elim (Option-cases i.buffer) [
  | inl full ↦ ground (arith, full)
  | inr (b, there) ↦ ground (arith, there)
]

pub soft_reset-Off :
    (i : Input) (p : Pe Sink) → Covered p → Allows KeepsOff (pe_sink_soft_reset pdb_config_dpm i p)
unfolding pe_sink_soft_reset
soft_reset-Off i p h = elim (Option-cases i.buffer) [
  | inl full ↦ ground (arith, full)
  | inr (b, there) ↦ ground (arith, there)
]

pub send_not_supported-Off :
    (i : Input) (p : Pe Sink)
    → Covered p
    → Allows KeepsOff (pe_sink_send_not_supported pdb_config_dpm i p)
unfolding pe_sink_send_not_supported
send_not_supported-Off i p h = elim (Option-cases i.buffer) [
  | inl full ↦ ground (arith, full)
  | inr (b, there) ↦ ground (arith, there)
]

pub send_soft_reset-Off :
    (i : Input) (p : Pe Sink)
    → Covered p
    → Allows KeepsOff (pe_sink_send_soft_reset pdb_config_dpm i p)
unfolding pe_sink_send_soft_reset
send_soft_reset-Off i p h = elim (Option-cases i.buffer) [
  | inl full ↦ ground (arith, full)
  | inr (b, there) ↦ elim (Option-cases i.fetched) [
    | inl empty ↦ ground (arith, there, empty)
    | inr (m, got) ↦ ground (arith, there, got)
  ]
]
