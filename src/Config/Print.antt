-- ===== src/Config/Print.antt =====
-- `pdbs_config_print` of src/config.c: what it prints of a configuration, one item for each text
-- that it passes to `chprintf`.
pub mod ReadBack
use usb_pd_firmware.Prelude.{
  ℕ, ◌+◌, ◌*◌, ◌/◌, ◌%◌, ◌^◌, ◌<◌, ◌≤◌, ◌≡◌, ◌≢◌, refl, ap, ◌∙◌, inl, inr, Bool, true, false, not,
  ◌&&◌, ◌==◌, Bool-cases, if_cases, if◌then◌else◌, List, [], ◌∷◌, ◌++◌, arith,
}
use usb_pd_firmware.Bits.{field, flag}
use usb_pd_firmware.Config.{PdbsConfig, status_invalid, status_valid, status_empty}

-- The formats, with their arguments; a quantity is a whole number and a fraction.
pub data Item : Type 0 where
  text_in : Item
  text_valid : Item
  text_empty : Item
  hex4 : ℕ → Item
  no_flags : Item
  giveback : Item
  var_bat : Item
  hv_preferred : Item
  volts : ℕ → ℕ → Item
  vmin_volts : ℕ → ℕ → Item
  vmax_volts : ℕ → ℕ → Item
  amperes : ℕ → ℕ → Item
  watts : ℕ → ℕ → Item
  ohms : ℕ → ℕ → Item

abbrev pub only : Bool → Item → List Item
only true x = x ∷ []
only false x = []

-- The cases of `switch (cfg->status)`, the first of which falls through.
abbrev pub print_status : ℕ → List Item
print_status status =
    if status == status_invalid
    then text_in ∷ text_valid ∷ []
    else if status == status_valid
    then text_valid ∷ []
    else if status == status_empty
    then text_empty ∷ []
    else hex4 status ∷ []

abbrev pub print_flags : ℕ → List Item
print_flags flags =
    only (field flags 0 3 == 0 && field flags 5 11 == 0) no_flags
    ++ (only (flag flags 0) giveback
        ++ (only (flag flags 1) var_bat ++ only (flag flags 2) hv_preferred))

abbrev pub print_range : ℕ → ℕ → List Item
print_range vmin vmax =
    if vmin == 0 && vmax == 0
    then []
    else vmin_volts (vmin / 1000) (vmin % 1000) ∷ vmax_volts (vmax / 1000) (vmax % 1000) ∷ []

-- `switch (cfg->flags & PDBS_CONFIG_FLAGS_CURRENT_DEFN)`.
abbrev pub print_current : ℕ → ℕ → List Item
print_current defn i =
    if defn == 0
    then amperes (i / 100) (i % 100) ∷ []
    else if defn == 1
    then watts (i / 100) (i % 100) ∷ []
    else if defn == 2
    then ohms (i / 100) (i % 100) ∷ []
    else []

-- The voltages, and the setting that the current derives from.
abbrev pub print_values : PdbsConfig → List Item
print_values cfg =
    volts (cfg.v / 1000) (cfg.v % 1000)
    ∷ (print_range cfg.vmin cfg.vmax ++ print_current (field cfg.flags 3 2) cfg.i)

-- For an empty entry the rest is left out.
unfoldable pub pdbs_config_print : PdbsConfig → List Item
pdbs_config_print cfg =
    if cfg.status == status_empty
    then print_status cfg.status
    else print_status cfg.status ++ (print_flags cfg.flags ++ print_values cfg)
