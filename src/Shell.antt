-- ===== src/Shell.antt =====
-- src/shell.c: the commands that change the configuration buffer, the flash page and the output.
-- The text that a command prints is left out.
pub mod Range
pub mod Line
pub mod Words
pub mod Session
pub mod Print
pub mod Commands
mod Tests
use mathlib.Core.Option
use usb_pd_firmware.Prelude.{
  ℕ, ◌-◌, ◌+◌, ◌*◌, ◌^◌, ◌%◌, bit_or, Bool, true, false, ◌&&◌, leb, ltb, if◌then◌else◌, Option,
  none, some, List, [], ◌∷◌,
}
use usb_pd_firmware.Bits.{field, flag}
use usb_pd_firmware.Pd.{ma2pdi, mw2cw, mo2co, mv_max, ma_max, mw_max, mo_min, mo_max}
use usb_pd_firmware.Config.{
  PdbsConfig, FlashHw, Flash, config_read, pdbs_config_flash_erase, pdbs_config_flash_update,
  status_valid,
}

-- A number of type `long`; `negsuc n` is -1 - n.
pub data Long : Type 0 where
  pos : ℕ → Long
  negsuc : ℕ → Long

-- What the C library says of an argument: the number that `strtol` reads and whether it read any
-- digit (`endptr > argv[0]`), and two calls of `strcmp`.
pub record Libc (Arg : Type 0) : Type 0 where
  pub strtol : Arg → Long × Bool
  pub is_enable : Arg → Bool
  pub is_disable : Arg → Bool

-- `tmpcfg`, the flash page, `output_enabled`, and whether PDB_EVT_PE_NEW_POWER was signalled.
pub record Shell : Type 0 where
  pub tmpcfg : PdbsConfig
  pub flash : Flash
  pub output_enabled : Bool
  pub new_power : Bool

-- The initial value of `tmpcfg`.
abbrev pub tmpcfg_init : PdbsConfig
tmpcfg_init = record {
  status = status_valid;
  flags = 0;
  v = 0;
  i = 0;
  vmin = 0;
  vmax = 0;
  reserved0 = 0;
  reserved1 = 0;
}

-- The shell before its first command.
abbrev pub shell_init : Flash → Bool → Shell
shell_init f on = record { tmpcfg = tmpcfg_init; flash = f; output_enabled = on; new_power = false }

-- `x & ~MASK` for the mask of `w` ones at `k`.
abbrev pub clear_field : ℕ → ℕ → ℕ → ℕ
clear_field x k w = x - field x k w * 2 ^ k

-- `x ^ (1 << k)`.
abbrev pub toggle : ℕ → ℕ → ℕ
toggle x k = if flag x k then x - 2 ^ k else x + 2 ^ k

-- An argument that is a number from `lo` to `hi`.
abbrev pub number : ℕ → ℕ → Long × Bool → Option ℕ
number lo hi (pos n, read) = if (leb lo n && leb n hi) && read then some n else none
number lo hi (negsuc n, read) = none

abbrev pub set_voltage : Option ℕ → PdbsConfig → PdbsConfig
set_voltage none c = c
set_voltage (some n) c = record c { v = n % 2 ^ 16 }

abbrev pub set_range : Option ℕ → Option ℕ → PdbsConfig → PdbsConfig
set_range (some lo) (some hi) c =
    if ltb hi lo then c else record c { vmin = lo % 2 ^ 16; vmax = hi % 2 ^ 16 }
set_range (some lo) none c = c
set_range none hi c = c

-- The union of `i`, `p` and `r`, with the bits of the flags that say which it is.
abbrev pub set_current : ℕ → Option ℕ → PdbsConfig → PdbsConfig
set_current defn none c = c
set_current defn (some n) c = record c {
  flags = bit_or (clear_field c.flags 3 2) (defn * 2 ^ 3);
  i = n % 2 ^ 16;
}

abbrev pub copy_config : PdbsConfig → PdbsConfig → PdbsConfig
copy_config cfg c = record c {
  status = cfg.status;
  flags = cfg.flags;
  v = cfg.v;
  i = cfg.i;
  vmin = cfg.vmin;
  vmax = cfg.vmax;
}

-- What `load` does with what `pdbs_config_flash_read` returns.
abbrev pub loaded : Option PdbsConfig × Flash → Shell → Shell
loaded (none, flash') s = record s { flash = flash' }
loaded (some c, flash') s = record s { tmpcfg = copy_config c s.tmpcfg; flash = flash' }

-- The commands that change the state.
pub data Command : Type 0 where
  load : Command
  write : Command
  erase : Command
  output : Command
  clear_flags : Command
  toggle_giveback : Command
  toggle_hv_preferred : Command
  set_v : Command
  set_vrange : Command
  set_i : Command
  set_p : Command
  set_r : Command

module _ {Arg : Type 0} (libc : Libc Arg) (hw : FlashHw) where
  pub cmd_load : List Arg → Shell → Shell
  unfolding config_read
  cmd_load [] s = loaded (config_read s.flash) s
  cmd_load (a ∷ rest) s = s

  pub cmd_write : List Arg → Shell → Shell
  unfolding pdbs_config_flash_update
  cmd_write [] s = record s {
    flash = pdbs_config_flash_update hw s.tmpcfg s.flash;
    new_power = true;
  }
  cmd_write (a ∷ rest) s = s

  pub cmd_erase : List Arg → Shell → Shell
  unfolding pdbs_config_flash_erase
  cmd_erase [] s = record s { flash = pdbs_config_flash_erase hw s.flash }
  cmd_erase (a ∷ rest) s = s

  pub cmd_clear_flags : List Arg → PdbsConfig → PdbsConfig
  cmd_clear_flags [] c = record c { flags = clear_field c.flags 0 3 }
  cmd_clear_flags (a ∷ rest) c = c

  pub cmd_toggle_giveback : List Arg → PdbsConfig → PdbsConfig
  cmd_toggle_giveback [] c = record c { flags = toggle c.flags 0 }
  cmd_toggle_giveback (a ∷ rest) c = c

  pub cmd_toggle_hv_preferred : List Arg → PdbsConfig → PdbsConfig
  cmd_toggle_hv_preferred [] c = record c { flags = toggle c.flags 2 }
  cmd_toggle_hv_preferred (a ∷ rest) c = c

  pub cmd_set_v : List Arg → PdbsConfig → PdbsConfig
  cmd_set_v (a ∷ []) c = set_voltage (number 0 mv_max (libc.strtol a)) c
  cmd_set_v [] c = c
  cmd_set_v (a ∷ b ∷ rest) c = c

  pub cmd_set_vrange : List Arg → PdbsConfig → PdbsConfig
  cmd_set_vrange (a ∷ b ∷ []) c =
      set_range (number 0 mv_max (libc.strtol a)) (number 0 mv_max (libc.strtol b)) c
  cmd_set_vrange [] c = c
  cmd_set_vrange (a ∷ []) c = c
  cmd_set_vrange (a ∷ b ∷ d ∷ rest) c = c

  pub cmd_set_i : List Arg → PdbsConfig → PdbsConfig
  cmd_set_i (a ∷ []) c = set_current 0 (Option.map ma2pdi (number 0 ma_max (libc.strtol a))) c
  cmd_set_i [] c = c
  cmd_set_i (a ∷ b ∷ rest) c = c

  pub cmd_set_p : List Arg → PdbsConfig → PdbsConfig
  cmd_set_p (a ∷ []) c = set_current 1 (Option.map mw2cw (number 0 mw_max (libc.strtol a))) c
  cmd_set_p [] c = c
  cmd_set_p (a ∷ b ∷ rest) c = c

  pub cmd_set_r : List Arg → PdbsConfig → PdbsConfig
  cmd_set_r (a ∷ []) c = set_current 2 (Option.map mo2co (number mo_min mo_max (libc.strtol a))) c
  cmd_set_r [] c = c
  cmd_set_r (a ∷ b ∷ rest) c = c

  pub cmd_output : List Arg → Shell → Shell
  cmd_output (a ∷ []) s =
      if libc.is_enable a
      then record s { output_enabled = true; new_power = true }
      else if libc.is_disable a
      then record s { output_enabled = false; new_power = true }
      else s
  cmd_output [] s = s
  cmd_output (a ∷ b ∷ rest) s = s

  -- `commands`, those that change the state.
  pub exec : Command → List Arg → Shell → Shell
  unfolding cmd_load cmd_write cmd_erase cmd_clear_flags cmd_toggle_giveback cmd_toggle_hv_preferred
      cmd_set_v cmd_set_vrange cmd_set_i cmd_set_p cmd_set_r cmd_output
  exec load args s = cmd_load args s
  exec write args s = cmd_write args s
  exec erase args s = cmd_erase args s
  exec output args s = cmd_output args s
  exec clear_flags args s = record s { tmpcfg = cmd_clear_flags args s.tmpcfg }
  exec toggle_giveback args s = record s { tmpcfg = cmd_toggle_giveback args s.tmpcfg }
  exec toggle_hv_preferred args s = record s { tmpcfg = cmd_toggle_hv_preferred args s.tmpcfg }
  exec set_v args s = record s { tmpcfg = cmd_set_v args s.tmpcfg }
  exec set_vrange args s = record s { tmpcfg = cmd_set_vrange args s.tmpcfg }
  exec set_i args s = record s { tmpcfg = cmd_set_i args s.tmpcfg }
  exec set_p args s = record s { tmpcfg = cmd_set_p args s.tmpcfg }
  exec set_r args s = record s { tmpcfg = cmd_set_r args s.tmpcfg }

  -- The loop of `pdbs_shell`, over the command lines that are typed.
  pub run : List (Command × List Arg) → Shell → Shell
  unfolding exec
  run [] s = s
  run ((c, args) ∷ lines) s = run lines (exec c args s)

  -- `pdbs_shell`: the stored configuration is loaded first.
  unfoldable pub pdbs_shell : List (Command × List Arg) → Shell → Shell
  unfolding cmd_load run
  pdbs_shell lines s = run lines (cmd_load [] s)
