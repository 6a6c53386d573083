-- ===== src/Dpm/SinkCap.antt =====
-- `pdbs_dpm_get_sink_capability` of src/device_policy_manager.c: the Sink_Capabilities message.
pub mod Objects
pub mod Contents
use usb_pd_firmware.Prelude.{
  Allows, Allows->>=, ℕ, zero, suc, ◌+◌, ◌*◌, ◌/◌, ◌^◌, bit_or, bit_xor, ◌&&◌, Option, none, some,
  List, get_or, set, leb, ltb, ◌==◌, if◌then◌else◌, ◌>>=◌, >>=-none, ◌≡◌, refl,
}
use usb_pd_firmware.Bits.{field, place}
use usb_pd_firmware.Pd.{
  PdMsg, obj_at, numobj, specrev_get, specrev_3_0, mv2pdv, mv2pav, ca2pai, snk_fixed_voltage_set,
  snk_fixed_current_set, src_fixed_voltage_get, src_fixed_current_get,
}
use usb_pd_firmware.Pd.MsgType
use usb_pd_firmware.Config.{PdbsConfig, config_read}
use usb_pd_firmware.Dpm.{
  PdbsDpmData, Sink, dpm_min_current, dpm_get_current, dpm_get_range_fixed_pdo_index,
}

-- The objects written so far, and how many.
abbrev pub Objects : Type 0
Objects = List ℕ × ℕ

-- `cap->obj[numobj++] = pdo`.
pub add_pdo : ℕ → Objects → Objects
add_pdo pdo (objs, n) = (set objs n pdo, n + 1)

-- A change of `cap->obj[i]`.
pub change : ℕ → (ℕ → ℕ) → Objects → Objects
change i f (objs, n) = (set objs i (f (get_or objs i 0)), n)

-- `PD_PDO_TYPE_FIXED` has no bits.
pub sink_fixed_pdo : ℕ → ℕ → ℕ
sink_fixed_pdo voltage current =
    bit_or (snk_fixed_voltage_set voltage) (snk_fixed_current_set current)

-- `&= ~PD_PDO_SNK_FIXED_CURRENT`, then the new current.
replace_current : ℕ → ℕ → ℕ
replace_current current pdo = bit_or (pdo / 2 ^ 10 * 2 ^ 10) (snk_fixed_current_set current)

-- Three exclusive ors exchange objects 1 and 2.
swap_last : Objects → Objects
unfolding change
swap_last (objs, n) =
    let x = change 1 (λ a. bit_xor a (get_or objs 2 0)) (objs, n) in
    let y = change 2 (λ b. bit_xor b (get_or x.0 1 0)) x in
    change 1 (λ a. bit_xor a (get_or y.0 2 0)) y

sort_last : Objects → Objects
unfolding swap_last
sort_last (objs, n) =
    if n == 3 && ltb (field (get_or objs 2 0) 10 10) (field (get_or objs 1 0) 10 10)
    then swap_last (objs, n)
    else (objs, n)

-- If the range PDO is another voltage than the preferred one, it is added.
add_range_pdo : PdMsg → ℕ → Option ℕ → Objects → Objects
unfolding add_pdo sink_fixed_pdo
add_range_pdo caps v (some (suc i)) o =
    let pdo = obj_at caps (suc i) in
    if src_fixed_voltage_get pdo == mv2pdv v
    then o
    else add_pdo (sink_fixed_pdo (src_fixed_voltage_get pdo) (src_fixed_current_get pdo)) o
add_range_pdo caps v _ o = o

-- `PD_PDO_SNK_FIXED_HIGHER_CAP`, if we want another voltage than 5 V.
higher_cap : ℕ → Objects → Objects
unfolding change
higher_cap v o = if mv2pdv v == mv2pdv 5000 then o else change 0 (λ pdo. bit_or pdo (2 ^ 28)) o

pub use_range : PdMsg → ℕ → ℕ → Option ℕ → Objects → Objects
unfolding change replace_current add_range_pdo higher_cap sort_last
use_range caps v current (some zero) o = change 0 (replace_current current) o
use_range caps v current at o = sort_last (add_range_pdo caps v at (higher_cap v o))

pub pps_apdo : ℕ → ℕ → ℕ
pps_apdo v current =
    bit_or (bit_or (bit_or (place 3 30 2) (place (mv2pav v) 17 8)) (place (mv2pav v) 8 8))
      (place (ca2pai current) 0 7)

-- The PDOs of the configuration. The stored capabilities and the message that the policy engine
-- works with are read through their pointers.
configured : PdbsDpmData → Option PdMsg → PdbsConfig → Objects → Option Objects
unfolding add_pdo sink_fixed_pdo use_range pps_apdo
configured d message scfg o = do
  current ← dpm_get_current scfg scfg.v
  caps ← d.capabilities
  at ← dpm_get_range_fixed_pdo_index caps scfg
  m ← message
  let o' = use_range caps scfg.v current at (add_pdo (sink_fixed_pdo (mv2pdv scfg.v) current) o)
  some (if leb specrev_3_0 (specrev_get m.hdr) then add_pdo (pps_apdo scfg.v current) o' else o')

-- A PDO for vSafe5V, if we have no configuration or want something other than 5 V.
vsafe5v : Option PdbsConfig → Objects → Objects
unfolding add_pdo sink_fixed_pdo
vsafe5v none o = add_pdo (sink_fixed_pdo (mv2pdv 5000) dpm_min_current) o
vsafe5v (some scfg) o =
    if mv2pdv scfg.v == mv2pdv 5000
    then o
    else add_pdo (sink_fixed_pdo (mv2pdv 5000) dpm_min_current) o

add_configured : PdbsDpmData → Option PdMsg → Option PdbsConfig → Objects → Option Objects
unfolding configured
add_configured d message none o = some o
add_configured d message (some scfg) o = configured d message scfg o

-- Unconstrained power and USB communications.
sink_flags : PdbsDpmData → Objects → Objects
unfolding change
sink_flags d o =
    let u = if d.unconstrained_power then change 0 (λ pdo. bit_or pdo (2 ^ 27)) o else o in
    if d.usb_comms then change 0 (λ pdo. bit_or pdo (2 ^ 26)) u else u

unfoldable pub pdbs_dpm_get_sink_capability :
    ℕ → Option PdMsg → PdMsg → Sink → Option (PdMsg × Sink)
unfolding vsafe5v add_configured sink_flags config_read
pdbs_dpm_get_sink_capability hdr_template message cap s =
    let (scfg, flash') = config_read s.flash in
    add_configured s.dpm_data message scfg (vsafe5v scfg (cap.obj, 0)) >>= λ made.
    let (objs, n) = sink_flags s.dpm_data made in
    some (
      record {
        hdr = bit_or (bit_or hdr_template MsgType.sink_capabilities) (numobj n);
        obj = objs;
      },
      record s { flash = flash' },
    )

-- The output line is left alone, if the function returns.
pub get_sink_capability-Still :
    (hdr_template : ℕ) (message : Option PdMsg) (cap : PdMsg) (s : Sink)
    → Allows
        (λ a. (a.1).out_ctrl ≡ s.out_ctrl)
        (pdbs_dpm_get_sink_capability hdr_template message cap s)
unfolding pdbs_dpm_get_sink_capability
get_sink_capability-Still t message cap s =
    Allows->>= (λ _. Unit {0}) (λ a. (a.1).out_ctrl ≡ s.out_ctrl)
      (add_configured s.dpm_data message (config_read s.flash).0
        (vsafe5v (config_read s.flash).0 (cap.obj, 0)))
      _ (any _) (λ made _. refl)
  where
    any : {A : Type 0} (m : Option A) → Allows (λ _. Unit {0}) m
    any none = tt
    any (some a) = tt

configured_null :
    (d : PdbsDpmData) (scfg : PdbsConfig) (o : Objects) → configured d none scfg o ≡ none
unfolding configured
configured_null d scfg o = >>=-none (dpm_get_current scfg scfg.v) _ λ current.
    >>=-none d.capabilities _
      λ caps. >>=-none (dpm_get_range_fixed_pdo_index caps scfg) _ λ at. refl

-- With a configuration and a null message the function reads through NULL, for every source,
-- configuration and state.
pub get_sink_capability_null :
    (hdr_template : ℕ) (cap : PdMsg) (s : Sink) (scfg : PdbsConfig)
    → (config_read s.flash).0 ≡ some scfg
    → pdbs_dpm_get_sink_capability hdr_template none cap s ≡ none
unfolding pdbs_dpm_get_sink_capability add_configured
get_sink_capability_null t cap s scfg h =
    rw (h, configured_null s.dpm_data scfg (vsafe5v (some scfg) (cap.obj, 0)))
