-- ===== src/Shell/Session/Sound.antt =====
-- What no session at the console of src/shell.c changes: the settings are in range, the flash page
-- is valid, and the line fits its buffer.
use usb_pd_firmware.Prelude.{
  ℕ, ◌<◌, ◌≡◌, sym, ◌∙◌, Bool, true, if_cases, some, List, [], ◌∷◌, length, arith,
}
use usb_pd_firmware.Config.{PdbsConfig, FlashHw, Flash, config_read}
use usb_pd_firmware.Config.Invariant.{IsValid}
use usb_pd_firmware.Config.Reads.{config_read-IsValid, config_read_again}
use usb_pd_firmware.Shell.{Long, Shell, shell_init}
use usb_pd_firmware.Shell.Range.{InRange}
use usb_pd_firmware.Shell.Line.{
  Outcome, more, abort, entered, get_line_step, max_line_length, Printing, Shown,
  get_line_step-Shown,
}
use usb_pd_firmware.Shell.Words.{Text, Line, blank, too_many, words, tokenize}
use usb_pd_firmware.Shell.Commands.{IsSound, exec-IsSound, load-IsSound, init-IsSound}
use usb_pd_firmware.Shell.Session.{
  codes, text_eq, Entry, setting, license, identify, boot, get_cfg, get_tmpcfg, get_source_cap,
  commands, Console, libc, run_entry, cmdexec, do_line, key, keys, console,
}

-- The settings and the page, and the line so far: it fits the buffer of 64 bytes with the end of
-- the string, and has printing characters alone.
pub record IsSane (s : Console) : Type 0 where
  pub sound : IsSound s.shell
  pub fits : length s.line < max_line_length
  pub printing : Printing s.line

module _ (strtol : Text → Long × Bool) (hw : FlashHw) where
  read-IsSound : (s : Shell) → IsSound s → IsSound (record s { flash = (config_read s.flash).1 })
  read-IsSound s ok = record {
    buffer = ok.buffer;
    page = config_read-IsValid s.flash ok.page;
    kept = λ c h. ok.kept c (sym (config_read_again s.flash ok.page) ∙ h);
  }

  with_shell : (s : Console) (t : Shell) → IsSane s → IsSound t → IsSane (record s { shell = t })
  with_shell s t ok sound = record { sound = sound; fits = ok.fits; printing = ok.printing }

  same_shell :
      (s : Console) (i b : Bool) → IsSane s → IsSane (record s { identified = i; booted = b })
  same_shell s i b ok = record { sound = ok.sound; fits = ok.fits; printing = ok.printing }

  run_entry-IsSane :
      (e : Entry) (args : List Text) (s : Console)
      → IsSane s
      → IsSane (run_entry strtol hw e args s)
  unfolding run_entry
  run_entry-IsSane (setting c) args s ok =
      with_shell s _ ok (exec-IsSound (libc strtol hw) hw c args s.shell ok.sound)
  run_entry-IsSane license args s ok = ok
  run_entry-IsSane identify [] s ok = same_shell s true s.booted ok
  run_entry-IsSane identify (a ∷ rest) s ok = ok
  run_entry-IsSane boot [] s ok = same_shell s s.identified true ok
  run_entry-IsSane boot (a ∷ rest) s ok = ok
  run_entry-IsSane get_cfg [] s ok = with_shell s _ ok (read-IsSound s.shell ok.sound)
  run_entry-IsSane get_cfg (a ∷ rest) s ok = ok
  run_entry-IsSane get_tmpcfg args s ok = ok
  run_entry-IsSane get_source_cap args s ok = ok

  cmdexec-IsSane :
      (table : List (Text × Entry)) (name : Text) (args : List Text) (s : Console)
      → IsSane s
      → IsSane (cmdexec strtol hw table name args s)
  unfolding cmdexec
  cmdexec-IsSane [] name args s ok = ok
  cmdexec-IsSane ((cmd, func) ∷ rest) name args s ok =
      if_cases IsSane (text_eq cmd name) (λ _. run_entry-IsSane func args s ok)
        (λ _. cmdexec-IsSane rest name args s ok)

  do_line-IsSane : (l : Line) (s : Console) → IsSane s → IsSane (do_line strtol hw l s)
  unfolding do_line
  do_line-IsSane blank s ok = ok
  do_line-IsSane too_many s ok = ok
  do_line-IsSane (words name args) s ok =
      if_cases IsSane (text_eq name (codes "help")) (λ _. ok)
        (λ _. cmdexec-IsSane commands name args s ok)

  with_line :
      (s : Console) (l : Text)
      → IsSane s
      → length l < max_line_length
      → Printing l
      → IsSane (record s { line = l })
  with_line s l ok fits printing = record { sound = ok.sound; fits = fits; printing = printing }

  key-IsSane : (c : ℕ) (s : Console) → IsSane s → IsSane (key strtol hw c s)
  unfolding key
  key-IsSane c s ok =
      if_cases IsSane s.booted (λ _. ok)
        (λ _.
          entry _ (get_line_step max_line_length c s.line).0
            (get_line_step-Shown max_line_length c [] s.line ok.fits ok.printing))
    where
      entry :
          (screen : List ℕ) (o : Outcome)
          → Shown max_line_length [] screen o
          → IsSane (elim o as (λ _. Console) [
            | more line' ↦ record s { line = line' }
            | abort ↦ record s { line = [] }
            | entered line' ↦ do_line strtol hw (tokenize line') (record s { line = [] })
          ])
      entry screen (more line') (fits, printing, _) = with_line s line' ok fits printing
      entry screen abort h = with_line s [] ok (omega arith) tt
      entry screen (entered line') h =
          do_line-IsSane (tokenize line') (record s { line = [] })
            (with_line s [] ok (omega arith) tt)

  keys-IsSane : (cs : List ℕ) (s : Console) → IsSane s → IsSane (keys strtol hw cs s)
  unfolding keys
  keys-IsSane [] s ok = ok
  keys-IsSane (c ∷ cs) s ok = keys-IsSane cs (key strtol hw c s) (key-IsSane c s ok)

  -- Whatever is typed at the console, with any reading of numbers, from a valid page that stores
  -- nothing or settings in range: the page stays valid and stores nothing or settings in range, the
  -- buffer has settings in range, and the line fits its 64 bytes with the end of the string.
  pub console-IsSane :
      (cs : List ℕ) (f : Flash) (on : Bool)
      → IsValid f
      → ((c : PdbsConfig) → (config_read f).0 ≡ some c → InRange c)
      → IsSane (console strtol hw cs f on)
  unfolding console
  console-IsSane cs f on page kept = keys-IsSane cs _ (record {
    sound = load-IsSound (libc strtol hw) hw [] (shell_init f on) (init-IsSound f on page kept);
    fits = omega arith;
    printing = tt;
  })
