-- ===== src/Dpm/Tests.antt =====
-- The device policy manager with a configured board and a source of 5 V, 9 V and 20 V.
use usb_pd_firmware.Prelude.{
  zero, suc, ◌↔◌, ◌≢◌, ◌-◌, ◌==◌, ◌+◌, ◌*◌, ◌≤◌, ◌<◌, ◌≡◌, refl, inl, ◌&&◌, true, false, none, some,
  [], ◌∷◌, arith, Ends, replicate,
}
use usb_pd_firmware.Pd.{PdMsg, src_fixed_voltage_get, rdo_objpos_get, mv2pdv, pdv2mv, obj_at}
use usb_pd_firmware.Config.{PdbsConfig, config_read, erased}
use usb_pd_firmware.Dpm.{Sink, tcc_1_5, dpm_get_current}
use usb_pd_firmware.Dpm.Request.{
  fixed, select_voltage, is_fixed_match, is_pps_match, match_pdo, or_range, choose,
  pdbs_dpm_evaluate_capability,
}
use usb_pd_firmware.Dpm.Request.Matching.{Suits, choose-Suits}
use usb_pd_firmware.Dpm.Request.Answer.{IsRequest}
use usb_pd_firmware.Dpm.Request.Total.{evaluate-IsRequest_new}
use usb_pd_firmware.Dpm.Request.Profile.{OnlyFixed, profile_change_output}
use usb_pd_firmware.Dpm.Negotiation.{negotiated_output}
use usb_pd_firmware.Dpm.Output.{
  pdbs_dpm_evaluate_typec_current, pdbs_dpm_transition_standby, pdbs_dpm_transition_requested,
  pdbs_dpm_transition_typec,
}
use usb_pd_firmware.Dpm.SinkCap.{pdbs_dpm_get_sink_capability}
use usb_pd_firmware.Dpm.SinkCap.Contents.{IsSinkCap, get_sink_capability-IsSinkCap}
use usb_pd_firmware.Dpm.Laws.{dpm_get_current_power, typec_output, Suffices}

-- 5 V at 1 A; 20 W; 10 ohms.
abbrev five_volts : PdbsConfig
five_volts = record {
  status = 0xbeef;
  flags = 0;
  v = 5000;
  i = 100;
  vmin = 0;
  vmax = 0;
  reserved0 = 0;
  reserved1 = 0;
}

abbrev twenty_watts : PdbsConfig
twenty_watts = record five_volts { flags = 8; i = 2000 }

abbrev ten_ohms : PdbsConfig
ten_ohms = record five_volts { flags = 16; i = 100 }

abbrev source : PdMsg
source = record { hdr = 0x3181; obj = 0x0801912c ∷ 0x0002d12c ∷ 0x0006412c ∷ [] }

-- Nothing at 5 V.
abbrev high_only : PdMsg
high_only = record { hdr = 0x1181; obj = 0x0006412c ∷ [] }

abbrev sink : Sink
sink = record {
  dpm_data = record {
    capabilities = none;
    typec_current = 0;
    output_enabled = true;
    led_pd_status = true;
    usb_comms = false;
    unconstrained_power = false;
    capability_match = true;
    present_voltage = 5000;
    requested_voltage = 5000;
  };
  flash = record { entries = five_volts ∷ replicate 3 erased; cur = some 0; locked = true };
  state = 0;
  out_ctrl = true;
  led = [];
  freed = 0;
}

abbrev buffer : PdMsg
buffer = record { hdr = 0; obj = 0 ∷ [] }

dpm_get_current_power_example : (2000 * 1000 ≤ 400 * 5000) × (400 * 5000 < 2000 * 1000 + 5000)
dpm_get_current_power_example =
    dpm_get_current_power twenty_watts 5000 400 refl (unfold dpm_get_current in refl) (omega arith)

chosen_first : choose source (some five_volts) true 5000 0 ≡ some (fixed 0)
unfolding choose match_pdo or_range is_fixed_match is_pps_match
chosen_first = refl

choose-Suits_example : Suits source five_volts 5000 0 (fixed 0)
choose-Suits_example = choose-Suits source five_volts 5000 0 (fixed 0) chosen_first

sink_configured : (config_read sink.flash).0 ≡ some five_volts
unfolding config_read
sink_configured = refl

evaluate-IsRequest_new_example :
    Ends
      (λ a.
        IsRequest 0x40 source (a.0) (a.1)
        × ((a.2).dpm_data.capability_match ≡ a.0)
        × ((a.2).dpm_data.capabilities ≡ some source))
      (pdbs_dpm_evaluate_capability 0x40 (some source) buffer sink)
unfolding config_read
evaluate-IsRequest_new_example =
    evaluate-IsRequest_new 0x40 source buffer sink (inl refl) refl refl (omega arith) (omega arith)

source-OnlyFixed : OnlyFixed source
source-OnlyFixed zero lt = refl
source-OnlyFixed (suc zero) lt = refl
source-OnlyFixed (suc (suc zero)) lt = refl
source-OnlyFixed (suc (suc (suc k))) lt = absurd (omega arith)

-- The button selected 9 V, with 5 V configured.
abbrev at_9v : Sink
at_9v = record sink { state = 1 }

profile_change_output_example :
    Ends
      (λ a.
        let volts = src_fixed_voltage_get (obj_at source (rdo_objpos_get (a.1) - 1)) in
        (volts ≡ mv2pdv (select_voltage 1).0)
        × ((a.2).dpm_data.requested_voltage ≡ pdv2mv (mv2pdv 5000))
        × ((a.2).dpm_data.requested_voltage ≢ pdv2mv volts)
        × ((pdbs_dpm_transition_standby (a.2)).out_ctrl ≡ true))
      (pdbs_dpm_evaluate_capability 0x40 (some source) buffer at_9v)
unfolding select_voltage
profile_change_output_example =
    profile_change_output 0x40 source buffer at_9v five_volts 1 source-OnlyFixed sink_configured
      refl (omega arith) refl (λ same. absurd (omega (arith, same))) refl (omega arith)

negotiated_output_example :
    Ends
      (λ a.
        let noted = (a.2).dpm_data.requested_voltage in
        let standby = pdbs_dpm_transition_standby (a.2) in
        let ready = pdbs_dpm_transition_requested standby in
        (standby.out_ctrl ≡ (true && noted == 5000))
        × (ready.out_ctrl ≡ (a.0 && true))
        × (ready.dpm_data.present_voltage ≡ noted))
      (pdbs_dpm_evaluate_capability 0x40 (some source) buffer sink)
unfolding config_read
negotiated_output_example = negotiated_output 0x40 source buffer sink (inl refl)

typec_output_example :
    Ends
      (λ a.
        (((pdbs_dpm_transition_typec (a.1)).out_ctrl ≡ true)
          ↔ ((true ≡ true) × Suffices five_volts 100 tcc_1_5))
        × ((pdbs_dpm_transition_typec (a.1)).dpm_data.present_voltage ≡ 5000))
      (pdbs_dpm_evaluate_typec_current tcc_1_5 sink)
typec_output_example =
    typec_output tcc_1_5 100 sink five_volts sink_configured (unfold dpm_get_current in refl)

-- 15 V wanted, or 9 V to 12 V, with the source's three PDOs stored.
abbrev answering : Sink
answering = record sink {
  dpm_data = record sink.dpm_data { capabilities = some source };
  flash = record {
    entries = record five_volts { v = 15000; vmin = 9000; vmax = 12000 } ∷ replicate 3 erased;
    cur = some 0;
    locked = true;
  };
}

abbrev seven_objects : PdMsg
seven_objects = record { hdr = 0; obj = replicate 7 0 }

get_sink_capability-IsSinkCap_example :
    Ends
      (λ a. IsSinkCap 0x80 (a.0))
      (pdbs_dpm_get_sink_capability 0x80 (some source) seven_objects answering)
unfolding config_read
get_sink_capability-IsSinkCap_example =
    get_sink_capability-IsSinkCap 0x80 source source seven_objects answering (inl refl) refl refl
      refl refl
