-- ===== src/Dpm/Output.antt =====
-- The callbacks of src/device_policy_manager.c that evaluate the Type-C current and switch the
-- output.
use usb_pd_firmware.Prelude.{
  ℕ, Bool, true, false, not, ◌&&◌, ◌||◌, Option, none, some, leb, ltb, ◌==◌, if◌then◌else◌, ◌>>=◌,
}
use usb_pd_firmware.Config.{PdbsConfig, config_read}
use usb_pd_firmware.Led
use usb_pd_firmware.Dpm.{Sink, tcc_default, tcc_1_5, tcc_3_0, flags_giveback, dpm_get_current}
use usb_pd_firmware.Dpm.Request.{signal_led}

-- A read through NULL if there is no configuration.
unfoldable pub pdbs_dpm_giveback_enabled : Sink → Option (Bool × Sink)
unfolding config_read
pdbs_dpm_giveback_enabled s =
    let (scfg, flash') = config_read s.flash in
    scfg >>= λ c. some (flags_giveback c, record s { flash = flash' })

-- Without a configuration, or if 5 V is not wanted, Type-C Current can't satisfy our needs.
unfoldable pub rules_out_5v : Option PdbsConfig → Bool
rules_out_5v none = true
rules_out_5v (some c) = not (c.v == 5000) && (ltb 5000 c.vmin || ltb c.vmax 5000)

-- 1.5 A or 3 A is available, and we want no more than that.
abbrev pub covers : ℕ → ℕ → Bool
covers tcc current = tcc == tcc_1_5 && leb current 150 || tcc == tcc_3_0 && leb current 300

-- Whether the advertised current is enough.
unfoldable pub tcc_suffices : Option PdbsConfig → ℕ → Option Bool
unfolding rules_out_5v dpm_get_current
tcc_suffices none tcc = some false
tcc_suffices (some c) tcc =
    if rules_out_5v (some c)
    then some false
    else dpm_get_current c 5000 >>= λ current. some (covers tcc current)

unfoldable pub pdbs_dpm_evaluate_typec_current : ℕ → Sink → Option (Bool × Sink)
unfolding config_read tcc_suffices
pdbs_dpm_evaluate_typec_current tcc s =
    let (scfg, flash') = config_read s.flash in
    tcc_suffices scfg tcc >>= λ enough. some (
      enough,
      record s {
        flash = flash';
        dpm_data = record s.dpm_data {
          requested_voltage = 5000;
          typec_current = tcc;
          capability_match = enough;
        };
      },
    )

unfoldable pub pdbs_dpm_pd_start : Sink → Sink
pdbs_dpm_pd_start s = signal_led Led.negotiating s

-- `dpm_output_set`.
unfoldable pub dpm_output_set : Bool → Bool → Sink → Sink
dpm_output_set state led s =
    let now = record s {
      dpm_data = record s.dpm_data { present_voltage = s.dpm_data.requested_voltage };
    } in
    if state && s.dpm_data.output_enabled
    then record (if led then signal_led Led.output_on now else now) { out_ctrl = true }
    else record (if led then signal_led Led.output_off now else now) { out_ctrl = false }

unfoldable pub pdbs_dpm_transition_default : Sink → Sink
unfolding dpm_output_set
pdbs_dpm_transition_default s =
    dpm_output_set false true
      (record s { dpm_data = record s.dpm_data { requested_voltage = 5000 } })

unfoldable pub pdbs_dpm_transition_min : Sink → Sink
unfolding dpm_output_set
pdbs_dpm_transition_min s = dpm_output_set false true s

-- If the voltage is changing, the output is turned off.
unfoldable pub pdbs_dpm_transition_standby : Sink → Sink
pdbs_dpm_transition_standby s =
    if s.dpm_data.requested_voltage == s.dpm_data.present_voltage
    then s
    else record s { out_ctrl = false }

unfoldable pub pdbs_dpm_transition_requested : Sink → Sink
unfolding dpm_output_set
pdbs_dpm_transition_requested s = dpm_output_set s.dpm_data.capability_match true s

unfoldable pub pdbs_dpm_transition_typec : Sink → Sink
unfolding dpm_output_set
pdbs_dpm_transition_typec s =
    let only_default = s.dpm_data.typec_current == tcc_default in
    let s' = if only_default then signal_led Led.output_off_no_typec s else s in
    dpm_output_set s.dpm_data.capability_match (not only_default) s'
