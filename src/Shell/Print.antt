-- ===== src/Shell/Print.antt =====
-- The commands of src/shell.c that print: the capabilities of the source, the configurations and
-- the licence, one item for each text that is passed to `chprintf`.
pub mod ReadBack
use mathlib.Core.Option
use usb_pd_firmware.Prelude.{
  ℕ, zero, suc, ◌+◌, ◌*◌, ◌/◌, ◌%◌, ◌^◌, ◌<◌, ◌≤◌, ◌≡◌, refl, ap, ◌∙◌, Bool, true, false, ◌&&◌,
  ◌==◌, leb, ltb, if◌then◌else◌, Option, none, some, List, [], ◌∷◌, ◌++◌, arith,
}
use usb_pd_firmware.Bits.{field}
use usb_pd_firmware.Pd.{
  PdMsg, obj_at, numobj_get, pdo_type, pdo_type_fixed, pdo_type_augmented, apdo_type, apdo_type_pps,
  src_fixed_voltage_get, src_fixed_current_get, pps_min_voltage_get, pps_max_voltage_get,
  pps_current_get,
}
use usb_pd_firmware.Config.{PdbsConfig, Flash, entry, config_read, config_array_len}
use usb_pd_firmware.Config.Print.{pdbs_config_print}
use usb_pd_firmware.Config.Print
use usb_pd_firmware.Dpm.{PdbsDpmData, tcc_none, tcc_default, tcc_1_5, tcc_3_0}
use usb_pd_firmware.Shell.{Long, pos, negsuc, Shell}

-- The formats, with their arguments; a quantity is a whole number and hundredths.
pub data Item : Type 0 where
  pdo_label : ℕ → Item
  fixed_supply : Item
  pps_supply : Item
  hex8 : ℕ → Item
  dual_role_pwr : ℕ → Item
  usb_suspend : ℕ → Item
  unconstrained_pwr : ℕ → Item
  usb_comms : ℕ → Item
  dual_role_data : ℕ → Item
  unchunked_ext_msg : ℕ → Item
  peak_i : ℕ → Item
  volts : ℕ → ℕ → Item
  min_volts : ℕ → ℕ → Item
  max_volts : ℕ → ℕ → Item
  amperes : ℕ → ℕ → Item
  typec_virtual : Item
  no_source_capabilities : Item
  usage : Item

-- `if (tmp) { ... }`.
abbrev pub if_set : ℕ → (ℕ → Item) → List Item
if_set tmp item = if ltb 0 tmp then item tmp ∷ [] else []

unfoldable pub print_src_fixed_pdo : ℕ → List Item
print_src_fixed_pdo pdo =
    let v = src_fixed_voltage_get pdo in
    let i = src_fixed_current_get pdo in
    fixed_supply
    ∷ (if_set (field pdo 29 1) dual_role_pwr
        ++ (if_set (field pdo 28 1) usb_suspend
            ++ (if_set (field pdo 27 1) unconstrained_pwr
                ++ (if_set (field pdo 26 1) usb_comms
                    ++ (if_set (field pdo 25 1) dual_role_data
                        ++ (if_set (field pdo 24 1) unchunked_ext_msg
                            ++ (if_set (field pdo 20 2) peak_i
                                ++ (volts (v / 20) (5 * (v % 20))
                                    ∷ amperes (i / 100) (i % 100)
                                    ∷ []))))))))

unfoldable pub print_src_pps_apdo : ℕ → List Item
print_src_pps_apdo pdo =
    let vmin = pps_min_voltage_get pdo in
    let vmax = pps_max_voltage_get pdo in
    let i = pps_current_get pdo in
    pps_supply
    ∷ min_volts (vmin / 10) (10 * (vmin % 10))
    ∷ max_volts (vmax / 10) (10 * (vmax % 10))
    ∷ amperes (i / 20) (5 * (i % 20))
    ∷ []

unfoldable pub print_src_pdo : ℕ → ℕ → List Item
unfolding print_src_fixed_pdo print_src_pps_apdo
print_src_pdo pdo index =
    if_set index pdo_label
    ++ (if pdo_type pdo == pdo_type_fixed
        then print_src_fixed_pdo pdo
        else if pdo_type pdo == pdo_type_augmented && apdo_type pdo == apdo_type_pps
        then print_src_pps_apdo pdo
        else hex8 pdo ∷ [])

-- The loop of `cmd_get_source_cap`, from the PDO of the given index on.
pub print_pdos : PdMsg → ℕ → ℕ → List Item
unfolding print_src_pdo
print_pdos caps zero i = []
print_pdos caps (suc n) i = print_src_pdo (obj_at caps i) (i + 1) ++ print_pdos caps n (i + 1)

abbrev pub print_typec : ℕ → List Item
print_typec current =
    if current == tcc_none
    then no_source_capabilities ∷ []
    else typec_virtual
      ∷ (if current == tcc_default
          then amperes 0 50 ∷ []
          else if current == tcc_1_5
          then amperes 1 50 ∷ []
          else if current == tcc_3_0
          then amperes 3 0 ∷ []
          else [])

-- The index of an entry, if there is an entry of that index.
abbrev pub entry_index : Long × Bool → Option ℕ
entry_index (pos i, read) = if ltb i config_array_len && read then some i else none
entry_index (negsuc n, read) = none

module _ {Arg : Type 0} where
  unfoldable pub cmd_get_source_cap : List Arg → PdbsDpmData → List Item
  unfolding print_pdos
  cmd_get_source_cap (a ∷ rest) d = usage ∷ []
  cmd_get_source_cap [] d = elim d.capabilities [
    | none ↦ print_typec d.typec_current
    | some caps ↦ print_pdos caps (numobj_get caps) 0
  ]

  -- The configuration that is printed, with no argument the current one, with one the entry of
  -- that index; none where a message is printed in its place.
  unfoldable pub get_cfg_selects : (Arg → Long × Bool) → List Arg → Flash → Option PdbsConfig
  unfolding config_read
  get_cfg_selects strtol [] f = (config_read f).0
  get_cfg_selects strtol (a ∷ []) f = Option.map (entry f) (entry_index (strtol a))
  get_cfg_selects strtol (a ∷ b ∷ rest) f = none

  unfoldable pub cmd_get_cfg : (Arg → Long × Bool) → List Arg → Flash → Option (List Print.Item)
  unfolding get_cfg_selects pdbs_config_print
  cmd_get_cfg strtol args f = Option.map pdbs_config_print (get_cfg_selects strtol args f)

  unfoldable pub cmd_get_tmpcfg : List Arg → PdbsConfig → Option (List Print.Item)
  unfolding pdbs_config_print
  cmd_get_tmpcfg [] tmpcfg = some (pdbs_config_print tmpcfg)
  cmd_get_tmpcfg (a ∷ rest) tmpcfg = none
