-- ===== src/Firmware/Tests.antt =====
-- The firmware with a board that is configured for 5 V at 1 A, and a source of 5 V and 9 V.
use usb_pd_firmware.Prelude.{
  ◌≡◌, ◌⊎◌, refl, inl, true, false, none, some, List, [], ◌∷◌, Ends, replicate,
}
use usb_pd_firmware.Pd.{PdMsg}
use usb_pd_firmware.Config.{PdbsConfig, config_read, flash_read, erased}
use usb_pd_firmware.Dpm.{Sink}
use usb_pd_firmware.Pe.{null, no_events, Pe, Input, ready, startup, source_unresponsive, pe_init}
use usb_pd_firmware.Pe.Step.{pe_run, pe_thread}
use usb_pd_firmware.Pe.Invariant.{Keeps}
use usb_pd_firmware.Firmware.{pdb_config_dpm}
use usb_pd_firmware.Firmware.Laws.{Configured}
use usb_pd_firmware.Pe.Agreement.{Agreed, history}
use usb_pd_firmware.Firmware.Contract.{thread-Agreed_output}
use usb_pd_firmware.Firmware.Safety.{
  pdb_config_laws, AllServed, thread-Keeps_firmware, run_get_sink_cap,
}

abbrev five_volts : PdbsConfig
five_volts = record {
  status = 0xbeef;
  flags = 0;
  v = 5000;
  i = 100;
  vmin = 0;
  vmax = 0;
  reserved0 = 0;
  reserved1 = 0;
}

abbrev board : Sink
board = record {
  dpm_data = record {
    capabilities = none;
    typec_current = 0;
    output_enabled = true;
    led_pd_status = true;
    usb_comms = false;
    unconstrained_power = false;
    capability_match = false;
    present_voltage = 5000;
    requested_voltage = 0;
  };
  flash = record { entries = five_volts ∷ replicate 127 erased; cur = none; locked = true };
  state = 0;
  out_ctrl = false;
  led = [];
  freed = 0;
}

board-Configured : Configured board.flash
unfolding config_read flash_read
board-Configured = record { scfg = five_volts; stored = refl; divides = inl refl }

abbrev idle : Input
idle = record {
  pending = no_events;
  pending_later = no_events;
  fetched = none;
  buffer = some (record { hdr = 0; obj = 0 ∷ 0 ∷ 0 ∷ 0 ∷ 0 ∷ 0 ∷ 0 ∷ [] });
  typec_current = 1;
}

abbrev receives : PdMsg → Input
receives m = record idle {
  pending = record no_events { msg_rx = true; tx_done = true };
  pending_later = record no_events { msg_rx = true };
  fetched = some m;
}

-- Source_Capabilities, Accept, PS_RDY; and a GotoMin.
abbrev caps : PdMsg
caps = record { hdr = 0x2181; obj = 0x0801912c ∷ 0x0002d12c ∷ [] }

abbrev exchange : List Input
exchange =
    idle
    ∷ idle
    ∷ receives caps
    ∷ idle
    ∷ receives (record { hdr = 0x0183; obj = [] })
    ∷ receives (record { hdr = 0x0186; obj = [] })
    ∷ receives (record { hdr = 0x0182; obj = [] })
    ∷ []

exchange-AllServed : AllServed exchange
exchange-AllServed =
    ((tt, tt), ((tt, tt), ((tt, refl), ((tt, tt), ((tt, refl), ((tt, refl), ((tt, refl), tt)))))))

thread-Keeps_firmware_example :
    Ends (Keeps pdb_config_dpm pdb_config_laws) (pe_thread pdb_config_dpm exchange board)
thread-Keeps_firmware_example =
    thread-Keeps_firmware exchange board board-Configured exchange-AllServed

abbrev asked : Input
asked = record idle {
  pending = record no_events { msg_rx = true };
  fetched = some (record { hdr = 0x0188; obj = [] });
}

abbrev contracted : Pe Sink
contracted = record {
  hdr_template = 0x40;
  message = null;
  last_dpm_request = some caps;
  explicit_contract = true;
  min_power = false;
  hard_reset_counter = 0;
  old_tcc_match = none;
  pps_index = 8;
  last_pps = 8;
  pps_timer = false;
  dpm = board;
  signals = [];
}

-- A sink that is configured for 20 W.
abbrev by_power : Pe Sink
by_power = record contracted {
  dpm = record board {
    flash = record board.flash {
      entries = record five_volts { flags = 8; i = 2000 } ∷ replicate 3 erased;
    };
  };
}

stored_by_power :
    (config_read by_power.dpm.flash).0 ≡ some (record five_volts { flags = 8; i = 2000 })
unfolding config_read flash_read
stored_by_power = refl

run_get_sink_cap_example : pe_run pdb_config_dpm (asked ∷ idle ∷ []) ready by_power ≡ none
run_get_sink_cap_example =
    run_get_sink_cap asked idle (record { hdr = 0x0188; obj = [] }) by_power
      (record five_volts { flags = 8; i = 2000 }) stored_by_power refl refl refl

thread-Agreed_output_example :
    Ends
      (λ r.
        (r.1).dpm.out_ctrl ≡ true
        → (r.0 ≡ source_unresponsive)
          ⊎ Agreed (history pdb_config_dpm exchange startup (pe_init board) []))
      (pe_thread pdb_config_dpm exchange board)
thread-Agreed_output_example =
    thread-Agreed_output exchange board board-Configured exchange-AllServed refl
