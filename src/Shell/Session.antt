-- ===== src/Shell/Session.antt =====
-- A session at the console of src/shell.c: every character that is typed, through the line editor,
-- the tokenizer and the table of commands, to the state.
pub mod Sound
use Prim.Native.Char.{code}
use Prim.Native.String.{String}
use usb_pd_firmware.Prelude.{
  ℕ, zero, suc, ◌≡◌, refl, sym, ap, ◌∙◌, Bool, true, false, ◌&&◌, ◌==◌, if_cases, if◌then◌else◌,
  Option, none, some, List, [], ◌∷◌, arith,
}
use usb_pd_firmware.Config.{PdbsConfig, FlashHw, Flash, config_read}
use usb_pd_firmware.Shell.{
  Long, Libc, Shell, Command, load, write, erase, output, clear_flags, toggle_giveback,
  toggle_hv_preferred, set_v, set_vrange, set_i, set_p, set_r, shell_init, cmd_load, exec,
}
use usb_pd_firmware.Shell.Line.{Outcome, more, abort, entered, get_line_step, max_line_length}
use usb_pd_firmware.Shell.Words.{Text, Line, blank, too_many, words, tokenize}

-- The characters of a literal, which are ASCII.
abbrev pub codes : String → Text
codes String.[] = []
codes (String.◌∷◌ c s) = code c ∷ codes s

-- `strcmp(a, b) == 0`.
pub text_eq : Text → Text → Bool
text_eq [] [] = true
text_eq [] (c ∷ cs) = false
text_eq (c ∷ cs) [] = false
text_eq (c ∷ cs) (d ∷ ds) = c == d && text_eq cs ds

-- The functions of `struct pdbs_shell_cmd`: those of `Command`, and the others.
pub data Entry : Type 0 where
  setting : Command → Entry
  license : Entry
  identify : Entry
  boot : Entry
  get_cfg : Entry
  get_tmpcfg : Entry
  get_source_cap : Entry

-- `commands`.
pub commands : List (Text × Entry)
commands =
    (codes "license", license)
    ∷ (codes "identify", identify)
    ∷ (codes "boot", boot)
    ∷ (codes "get_cfg", get_cfg)
    ∷ (codes "load", setting load)
    ∷ (codes "write", setting write)
    ∷ (codes "erase", setting erase)
    ∷ (codes "get_tmpcfg", get_tmpcfg)
    ∷ (codes "clear_flags", setting clear_flags)
    ∷ (codes "toggle_giveback", setting toggle_giveback)
    ∷ (codes "toggle_hv_preferred", setting toggle_hv_preferred)
    ∷ (codes "set_v", setting set_v)
    ∷ (codes "set_vrange", setting set_vrange)
    ∷ (codes "set_i", setting set_i)
    ∷ (codes "set_p", setting set_p)
    ∷ (codes "set_r", setting set_r)
    ∷ (codes "output", setting output)
    ∷ (codes "get_source_cap", get_source_cap)
    ∷ []

-- The shell, the line so far, whether PDBS_EVT_LED_IDENTIFY was signalled, and whether the
-- bootloader runs, from which nothing returns.
pub record Console : Type 0 where
  pub shell : Shell
  pub line : Text
  pub identified : Bool
  pub booted : Bool

module _ (strtol : Text → Long × Bool) (hw : FlashHw) where
  abbrev pub libc : Libc Text
  unfolding text_eq
  libc = record {
    strtol = strtol;
    is_enable = λ a. text_eq a (codes "enable");
    is_disable = λ a. text_eq a (codes "disable");
  }

  -- With no argument `get_cfg` reads the configuration, which may fill the cache.
  pub run_entry : Entry → List Text → Console → Console
  unfolding exec config_read
  run_entry (setting c) args s = record s { shell = exec libc hw c args s.shell }
  run_entry license args s = s
  run_entry identify [] s = record s { identified = true }
  run_entry identify (a ∷ rest) s = s
  run_entry boot [] s = record s { booted = true }
  run_entry boot (a ∷ rest) s = s
  run_entry get_cfg [] s = record s {
    shell = record s.shell { flash = (config_read s.shell.flash).1 };
  }
  run_entry get_cfg (a ∷ rest) s = s
  run_entry get_tmpcfg args s = s
  run_entry get_source_cap args s = s

  pub cmdexec : List (Text × Entry) → Text → List Text → Console → Console
  unfolding text_eq run_entry
  cmdexec [] name args s = s
  cmdexec ((cmd, func) ∷ rest) name args s =
      if text_eq cmd name then run_entry func args s else cmdexec rest name args s

  -- What a line does; `help` only prints.
  pub do_line : Line → Console → Console
  unfolding cmdexec commands
  do_line blank s = s
  do_line too_many s = s
  do_line (words name args) s =
      if text_eq name (codes "help") then s else cmdexec commands name args s

  -- One character at the console.
  pub key : ℕ → Console → Console
  unfolding get_line_step tokenize do_line
  key c s = if s.booted then s else elim (get_line_step max_line_length c s.line).0 [
    | more line' ↦ record s { line = line' }
    | abort ↦ record s { line = [] }
    | entered line' ↦ do_line (tokenize line') (record s { line = [] })
  ]

  -- The loop of `pdbs_shell`, over the characters that are typed.
  pub keys : List ℕ → Console → Console
  unfolding key
  keys [] s = s
  keys (c ∷ cs) s = keys cs (key c s)

  -- The console when the prompt first shows: the stored configuration is loaded.
  unfoldable pub console : List ℕ → Flash → Bool → Console
  unfolding keys cmd_load
  console cs f on = keys cs (record {
    shell = cmd_load libc hw [] (shell_init f on);
    line = [];
    identified = false;
    booted = false;
  })
