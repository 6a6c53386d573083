-- ===== src/Dpm.antt =====
-- src/device_policy_manager.h and src/device_policy_manager.c: the policy that decides what power
-- to request, and that switches the output.
pub mod Request
pub mod Output
pub mod SinkCap
pub mod Laws
pub mod Negotiation
mod Tests
use usb_pd_firmware.Prelude.{
  ℕ, zero, suc, ◌+◌, ◌-◌, ◌*◌, ◌/◌, ◌%◌, ◌^◌, Bool, false, ◌&&◌, Option, none, some, List, leb,
  ◌==◌, if◌then◌else◌, ◌>>=◌,
}
use usb_pd_firmware.Bits.{field, flag}
use usb_pd_firmware.Pd.{
  PdMsg, obj_at, numobj_get, ma2pdi, ca_max, pdo_type, pdo_type_fixed, src_fixed_current_get,
  src_fixed_voltage_get, mv2pdv, pdv2mv,
}
use usb_pd_firmware.Pd.MsgType
use usb_pd_firmware.Config.{PdbsConfig, Flash}
use usb_pd_firmware.Led
use usb_pd_firmware.Led.{LedEvent}

-- `struct pdbs_dpm_data`.
pub record PdbsDpmData : Type 0 where
  pub capabilities : Option PdMsg
  pub typec_current : ℕ
  pub output_enabled : Bool
  pub led_pd_status : Bool
  pub usb_comms : Bool
  pub unconstrained_power : Bool
  pub capability_match : Bool
  pub present_voltage : ℕ
  pub requested_voltage : ℕ

-- What a DPM callback reads and writes: the DPM's own data, the configuration page, `state` of
-- `struct pdb_config` (the power profile in use), the output line, the signals sent to the LED
-- thread (the latest first), and how many messages were given back to the pool.
pub record Sink : Type 0 where
  pub dpm_data : PdbsDpmData
  pub flash : Flash
  pub state : ℕ
  pub out_ctrl : Bool
  pub led : List LedEvent
  pub freed : ℕ

abbrev pub tcc_none : ℕ
tcc_none = 0

abbrev pub tcc_default : ℕ
tcc_default = 1

abbrev pub tcc_1_5 : ℕ
tcc_1_5 = 2

abbrev pub tcc_3_0 : ℕ
tcc_3_0 = 3

-- `DPM_MIN_CURRENT`.
abbrev pub dpm_min_current : ℕ
dpm_min_current = ma2pdi 30

-- Bits of the flags halfword.
abbrev pub flags_giveback : PdbsConfig → Bool
flags_giveback scfg = flag scfg.flags 0

abbrev pub flags_hv_preferred : PdbsConfig → Bool
flags_hv_preferred scfg = flag scfg.flags 2

abbrev pub current_defn : PdbsConfig → ℕ
current_defn scfg = field scfg.flags 3 2

-- The divisions round up; one by zero is undefined. The result is an uint16_t.
unfoldable pub dpm_get_current : PdbsConfig → ℕ → Option ℕ
dpm_get_current scfg mv =
    if current_defn scfg == 0
    then some scfg.i
    else if current_defn scfg == 1
    then (if mv == 0 then none else some ((scfg.i * 1000 + mv - 1) / mv % 2 ^ 16))
    else if current_defn scfg == 2
    then (if scfg.i == 0 then none else some ((mv * 10 + scfg.i - 1) / scfg.i % 2 ^ 16))
    else some (ca_max + 1)

-- The test in the loop of `dpm_get_range_fixed_pdo_index`.
unfoldable pub is_in_range : PdMsg → PdbsConfig → ℕ → Option Bool
unfolding dpm_get_current
is_in_range caps scfg i =
    let pdo = obj_at caps i in
    let v = src_fixed_voltage_get pdo in
    if pdo_type pdo == pdo_type_fixed
    then (do
      current ← dpm_get_current scfg (pdv2mv v)
      some (
          leb current (src_fixed_current_get pdo)
          && leb (mv2pdv scfg.vmin) v
          && leb v (mv2pdv scfg.vmax)))
    else some false

-- The loop with step 1 from `i`, for `n` more objects.
unfoldable pub range_up : PdMsg → PdbsConfig → ℕ → ℕ → Option (Option ℕ)
unfolding is_in_range
range_up caps scfg zero i = some none
range_up caps scfg (suc n) i =
    let rest = range_up caps scfg n (i + 1) in
    is_in_range caps scfg i >>= λ found. if found then some (some i) else rest

-- The loop with step -1 from `i - 1`.
unfoldable pub range_down : PdMsg → PdbsConfig → ℕ → Option (Option ℕ)
unfolding is_in_range
range_down caps scfg zero = some none
range_down caps scfg (suc i) =
    let rest = range_down caps scfg i in
    is_in_range caps scfg i >>= λ found. if found then some (some i) else rest

-- The index of a fixed PDO in the voltage range; -1 is `none`.
unfoldable pub dpm_get_range_fixed_pdo_index : PdMsg → PdbsConfig → Option (Option ℕ)
unfolding range_up range_down
dpm_get_range_fixed_pdo_index caps scfg =
    if flags_hv_preferred scfg
    then range_down caps scfg (numobj_get caps)
    else range_up caps scfg (numobj_get caps) 0
