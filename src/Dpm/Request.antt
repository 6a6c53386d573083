-- ===== src/Dpm/Request.antt =====
-- `pdbs_dpm_evaluate_capability` of src/device_policy_manager.c: the Request that answers a
-- Source_Capabilities message.
pub mod Object
pub mod Answer
pub mod Matching
pub mod Total
pub mod Profile
use usb_pd_firmware.Prelude.{
  ℕ, zero, suc, ◌+◌, bit_or, Bool, true, false, not, ◌&&◌, Option, none, some, List, [], ◌∷◌,
  get_or, set, leb, ◌==◌, if◌then◌else◌, ◌>>=◌,
}
use usb_pd_firmware.Pd.{
  PdMsg, obj_at, numobj, numobj_get, pdo_type, pdo_type_fixed, pdo_type_augmented, apdo_type,
  apdo_type_pps, src_fixed_current_get, src_fixed_voltage_get, src_fixed_unconstrained,
  pps_max_voltage_get, pps_min_voltage_get, pps_current_get, mv2pdv, mv2pav, mv2prv, pdv2mv, prv2mv,
  ca2pai, rdo_objpos_set, rdo_giveback, rdo_cap_mismatch, rdo_usb_comms, rdo_no_usb_suspend,
  rdo_fv_max_current_set, rdo_fv_current_set, rdo_prog_voltage_set, rdo_prog_current_set,
}
use usb_pd_firmware.Pd.MsgType
use usb_pd_firmware.Config.{PdbsConfig, config_read}
use usb_pd_firmware.Led
use usb_pd_firmware.Dpm.{
  Sink, dpm_min_current, flags_giveback, dpm_get_current, dpm_get_range_fixed_pdo_index,
}

-- `pd_profiles`, in millivolts.
abbrev pub pd_profiles : List ℕ
pd_profiles = 5000 ∷ 9000 ∷ 15000 ∷ 20000 ∷ []

-- The voltage of the power profile in use, and the profile from then on.
unfoldable pub select_voltage : ℕ → ℕ × ℕ
select_voltage state =
    if leb state 3 then (get_or pd_profiles state 0, state) else (get_or pd_profiles 0 0, 0)

-- The two tests in the loop over the PDOs.
unfoldable pub is_fixed_match : ℕ → ℕ → ℕ → Bool
is_fixed_match voltage current pdo =
    pdo_type pdo == pdo_type_fixed
    && src_fixed_voltage_get pdo == mv2pdv voltage
    && leb current (src_fixed_current_get pdo)

unfoldable pub is_pps_match : PdbsConfig → ℕ → ℕ → Bool
is_pps_match scfg current pdo =
    pdo_type pdo == pdo_type_augmented
    && apdo_type pdo == apdo_type_pps
    && leb (mv2pav scfg.v) (pps_max_voltage_get pdo)
    && leb (pps_min_voltage_get pdo) (mv2pav scfg.v)
    && leb (ca2pai current) (pps_current_get pdo)

-- What the request is for: a PDO of the profile's voltage, a PPS APDO, a fixed PDO in the
-- configured range, or nothing that was offered.
pub data Choice : Type 0 where
  fixed : ℕ → Choice
  pps : ℕ → Choice
  range : ℕ → Choice
  nothing : Choice

-- The loop over the PDOs from `i`, for `n` more.
unfoldable pub match_pdo : PdMsg → PdbsConfig → ℕ → ℕ → ℕ → ℕ → Choice
unfolding is_fixed_match is_pps_match
match_pdo caps scfg voltage current zero i = nothing
match_pdo caps scfg voltage current (suc n) i =
    let rest = match_pdo caps scfg voltage current n (i + 1) in
    if is_fixed_match voltage current (obj_at caps i)
    then fixed i
    else if is_pps_match scfg current (obj_at caps i)
    then pps i
    else rest

-- A choice in the range, if the loop made none.
unfoldable pub or_range : PdMsg → PdbsConfig → Choice → Option Choice
unfolding dpm_get_range_fixed_pdo_index
or_range caps scfg nothing = dpm_get_range_fixed_pdo_index caps scfg >>= λ at. elim at [
  | some i ↦ some (range i)
  | none ↦ some nothing
]
or_range caps scfg c = some c

-- Nothing is chosen without a configuration, or with the output disabled.
unfoldable pub choose : PdMsg → Option PdbsConfig → Bool → ℕ → ℕ → Option Choice
unfolding match_pdo or_range
choose caps (some scfg) true voltage current =
    or_range caps scfg (match_pdo caps scfg voltage current (numobj_get caps) 0)
choose caps _ _ voltage current = some nothing

-- `|= PD_RDO_USB_COMMS`, if we can do USB communications.
abbrev pub with_usb_comms : Bool → ℕ → ℕ
with_usb_comms true obj = bit_or obj rdo_usb_comms
with_usb_comms false obj = obj

-- The request object for a fixed PDO.
unfoldable pub fixed_rdo : Bool → ℕ → ℕ → ℕ
fixed_rdo true current i =
    bit_or
      (bit_or
        (bit_or (bit_or (rdo_fv_max_current_set dpm_min_current) (rdo_fv_current_set current))
          rdo_no_usb_suspend)
        rdo_giveback)
      (rdo_objpos_set (i + 1))
fixed_rdo false current i =
    bit_or
      (bit_or (bit_or (rdo_fv_max_current_set current) (rdo_fv_current_set current))
        rdo_no_usb_suspend)
      (rdo_objpos_set (i + 1))

-- The request object for a PPS APDO.
unfoldable pub pps_rdo : PdbsConfig → ℕ → ℕ → ℕ
pps_rdo scfg current i =
    bit_or
      (bit_or
        (bit_or (rdo_prog_current_set (ca2pai current)) (rdo_prog_voltage_set (mv2prv scfg.v)))
        rdo_no_usb_suspend)
      (rdo_objpos_set (i + 1))

-- The request object for 5 V at low current.
unfoldable pub default_rdo : Bool → ℕ
default_rdo output_enabled =
    let obj =
      bit_or
        (bit_or
          (bit_or (rdo_fv_max_current_set dpm_min_current) (rdo_fv_current_set dpm_min_current))
          rdo_no_usb_suspend)
        (rdo_objpos_set 1) in
    if output_enabled then bit_or obj rdo_cap_mismatch else obj

-- The request, as a message with one object.
unfoldable pub request_msg : ℕ → PdMsg → ℕ → PdMsg
request_msg hdr_template request obj = record request {
  hdr = bit_or (bit_or hdr_template MsgType.request) (numobj 1);
  obj = set request.obj 0 obj;
}

-- The request object, the voltage that is noted for it, and whether capabilities match.
unfoldable pub build : PdMsg → Option PdbsConfig → Bool → ℕ → Choice → Option (ℕ × ℕ × Bool)
unfolding fixed_rdo pps_rdo default_rdo dpm_get_current
build caps (some scfg) enabled current (fixed i) =
    some (fixed_rdo (flags_giveback scfg) current i, pdv2mv (mv2pdv scfg.v), true)
build caps (some scfg) enabled current (pps i) =
    some (pps_rdo scfg current i, prv2mv (mv2prv scfg.v), true)
build caps (some scfg) enabled current (range i) =
    let voltage = pdv2mv (src_fixed_voltage_get (obj_at caps i)) in
    dpm_get_current scfg voltage >>= λ needed.
    some (fixed_rdo (flags_giveback scfg) needed i, voltage, true)
build caps _ enabled current _ = some (default_rdo enabled, 5000, not enabled)

-- New capabilities replace the stored ones, which go back to the pool; with none, the stored
-- ones are used.
unfoldable pub update_capabilities : Option PdMsg → Sink → Option (PdMsg × Sink)
update_capabilities (some caps) s =
    let returned : ℕ = elim s.dpm_data.capabilities [ none ↦ 0 | some _ ↦ 1 ] in
    some (
      caps,
      record s {
        dpm_data = record s.dpm_data { capabilities = some caps };
        freed = s.freed + returned;
      },
    )
update_capabilities none s = s.dpm_data.capabilities >>= λ caps. some (caps, s)

-- `chEvtSignal(pdbs_led_thread, ...)`, if the LED shows the PD status.
abbrev pub signal_led : Led.LedEvent → Sink → Sink
signal_led e s = if s.dpm_data.led_pd_status then record s { led = e ∷ s.led } else s

-- The rest of the function, from the choice on.
unfoldable pub answer :
    ℕ → PdMsg → PdMsg → Option PdbsConfig → ℕ → Sink → Choice → Option (Bool × PdMsg × Sink)
unfolding build request_msg
answer hdr_template request caps scfg current s c =
    build caps scfg s.dpm_data.output_enabled current c >>= λ made.
    let (obj, voltage, matched) = made in
    some (
      matched,
      request_msg hdr_template request (with_usb_comms s.dpm_data.usb_comms obj),
      record s {
        dpm_data = record s.dpm_data { requested_voltage = voltage; capability_match = matched };
      },
    )

-- The state in which the choice is made: capabilities stored, configuration read, LED signalled,
-- power constraint noted, profile selected.
unfoldable pub prepare : PdMsg → Sink → Sink
unfolding config_read select_voltage
prepare caps s =
    let s' = signal_led Led.negotiating (record s { flash = (config_read s.flash).1 }) in
    record s' {
      dpm_data = record s'.dpm_data {
        unconstrained_power = src_fixed_unconstrained (obj_at caps 0);
      };
      state = (select_voltage s'.state).1;
    }

unfoldable pub pdbs_dpm_evaluate_capability :
    ℕ → Option PdMsg → PdMsg → Sink → Option (Bool × PdMsg × Sink)
unfolding update_capabilities prepare choose answer
pdbs_dpm_evaluate_capability hdr_template caps request s = do
  stored ← update_capabilities caps s
  let (caps', s') = stored
  let scfg = (config_read s'.flash).0
  let voltage = (select_voltage s'.state).0
  c ← choose caps' scfg s'.dpm_data.output_enabled voltage 0
  answer hdr_template request caps' scfg 0 (prepare caps' s') c
