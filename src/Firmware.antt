-- ===== src/Firmware.antt =====
-- src/main.c: the policy engine with the callbacks of the device policy manager.
pub mod Laws
pub mod Safety
pub mod Output
pub mod Ready
pub mod Sending
pub mod Powered
pub mod Contract
mod Tests
use usb_pd_firmware.Prelude.{some, none}
use usb_pd_firmware.Dpm.{Sink}
use usb_pd_firmware.Dpm.Request.{pdbs_dpm_evaluate_capability}
use usb_pd_firmware.Dpm.SinkCap.{pdbs_dpm_get_sink_capability}
use usb_pd_firmware.Dpm.Output.{
  pdbs_dpm_giveback_enabled, pdbs_dpm_evaluate_typec_current, pdbs_dpm_pd_start,
  pdbs_dpm_transition_default, pdbs_dpm_transition_min, pdbs_dpm_transition_standby,
  pdbs_dpm_transition_requested, pdbs_dpm_transition_typec,
}
use usb_pd_firmware.Pe.{DpmCallbacks}

-- `.dpm` of `pdb_config`.
abbrev pub pdb_config_dpm : DpmCallbacks
pdb_config_dpm = record {
  State = Sink;
  evaluate_capability = pdbs_dpm_evaluate_capability;
  get_sink_capability = pdbs_dpm_get_sink_capability;
  giveback_enabled = some pdbs_dpm_giveback_enabled;
  evaluate_typec_current = some pdbs_dpm_evaluate_typec_current;
  pd_start = some pdbs_dpm_pd_start;
  transition_default = pdbs_dpm_transition_default;
  transition_min = pdbs_dpm_transition_min;
  transition_standby = pdbs_dpm_transition_standby;
  transition_requested = pdbs_dpm_transition_requested;
  transition_typec = pdbs_dpm_transition_typec;
  not_supported_received = none;
}
