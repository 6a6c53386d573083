-- ===== src/Shell/Commands.antt =====
-- The commands of src/shell.c keep the settings in range, in the buffer and in the flash page.
use usb_pd_firmware.Prelude.{
  Bool, ◌≡◌, refl, ap, ◌∙◌, inl, inr, Bool-cases, Option, none, some, List, [], ◌∷◌, arith, sym,
}
use usb_pd_firmware.Config.{
  PdbsConfig, FlashHw, Flash, config_read, status_valid, reset, pdbs_config_flash_update,
}
use usb_pd_firmware.Config.Invariant.{IsValid}
use usb_pd_firmware.Config.Update.Steps.{stored}
use usb_pd_firmware.Config.Update.{update-IsValid}
use usb_pd_firmware.Config.Reads.{config_read-IsValid, config_read_again}
use usb_pd_firmware.Config.Roundtrip.{
  config_read-update, config_read-reset-update, config_read-erase,
}
use usb_pd_firmware.Shell.{
  Libc, Shell, Command, load, write, erase, output, clear_flags, toggle_giveback,
  toggle_hv_preferred, set_v, set_vrange, set_i, set_p, set_r, tmpcfg_init, shell_init, copy_config,
  loaded, cmd_load, cmd_write, cmd_erase, cmd_output, exec, run, pdbs_shell,
}
use usb_pd_firmware.Shell.Range.{
  InRange, set_i-InRange, set_p-InRange, set_r-InRange, set_v-InRange, set_vrange-InRange,
  clear_flags-InRange, giveback-InRange, hv_preferred-InRange,
}

-- The buffer is in range, the page is valid, and what it stores, if anything, is in range.
pub record IsSound (s : Shell) : Type 0 where
  pub buffer : InRange s.tmpcfg
  pub page : IsValid s.flash
  pub kept : (c : PdbsConfig) → (config_read s.flash).0 ≡ some c → InRange c

copy-InRange : (c t : PdbsConfig) → InRange c → InRange (copy_config c t)
copy-InRange c t ok = record {
  valid = ok.valid;
  voltage = ok.voltage;
  ordered = ok.ordered;
  highest = ok.highest;
  current = ok.current;
}

stored-InRange : (c : PdbsConfig) → InRange c → InRange (stored c)
stored-InRange c ok = record {
  valid = ok.valid;
  voltage = ok.voltage;
  ordered = ok.ordered;
  highest = ok.highest;
  current = ok.current;
}

loaded-IsSound :
    (r : Option PdbsConfig × Flash) (s : Shell)
    → InRange s.tmpcfg
    → IsValid r.1
    → ((c : PdbsConfig) → r.0 ≡ some c → InRange c)
    → ((c : PdbsConfig) → (config_read r.1).0 ≡ some c → InRange c)
    → IsSound (loaded r s)
loaded-IsSound (none, f) s buffer page found kept = record {
  buffer = buffer;
  page = page;
  kept = kept;
}
loaded-IsSound (some c, f) s buffer page found kept = record {
  buffer = copy-InRange c s.tmpcfg (found c refl);
  page = page;
  kept = kept;
}

loaded-tmpcfg :
    (r : Option PdbsConfig × Flash) (s : Shell) (c : PdbsConfig)
    → r.0 ≡ some c
    → (loaded r s).tmpcfg ≡ copy_config c s.tmpcfg
loaded-tmpcfg (none, f) s c h = cc
loaded-tmpcfg (some d, f) s c h = ap (λ e. copy_config e s.tmpcfg) (inj h)
  where
    inj : {c d : PdbsConfig} → some c ≡ some d → c ≡ d
    inj h = cc

init-InRange : InRange tmpcfg_init
init-InRange = record {
  valid = refl;
  voltage = omega arith;
  ordered = omega arith;
  highest = omega arith;
  current = inl (refl, omega arith);
}

pub init-IsSound :
    (f : Flash) (on : Bool)
    → IsValid f
    → ((c : PdbsConfig) → (config_read f).0 ≡ some c → InRange c)
    → IsSound (shell_init f on)
init-IsSound f on page kept = record { buffer = init-InRange; page = page; kept = kept }

module _ {Arg : Type 0} (libc : Libc Arg) (hw : FlashHw) where
  pub load-IsSound : (args : List Arg) (s : Shell) → IsSound s → IsSound (cmd_load libc hw args s)
  unfolding cmd_load
  load-IsSound [] s ok =
      loaded-IsSound (config_read s.flash) s ok.buffer (config_read-IsValid s.flash ok.page) ok.kept
        (λ c h. ok.kept c (sym (config_read_again s.flash ok.page) ∙ h))
  load-IsSound (a ∷ rest) s ok = ok

  write-IsSound : (args : List Arg) (s : Shell) → IsSound s → IsSound (cmd_write libc hw args s)
  unfolding cmd_write
  write-IsSound [] s ok = record {
    buffer = ok.buffer;
    page = update-IsValid hw s.tmpcfg s.flash ok.page ok.buffer.valid;
    kept = λ c h. rw (← inj (sym (ap (λ r. r.0) read) ∙ h)) (stored-InRange s.tmpcfg ok.buffer);
  }
    where
      read :
          config_read (pdbs_config_flash_update hw s.tmpcfg s.flash)
          ≡ (some (stored s.tmpcfg), pdbs_config_flash_update hw s.tmpcfg s.flash)
      read = config_read-update hw s.tmpcfg s.flash ok.page ok.buffer.valid

      inj : {c d : PdbsConfig} → some c ≡ some d → c ≡ d
      inj h = cc
  write-IsSound (a ∷ rest) s ok = ok

  erase-IsSound : (args : List Arg) (s : Shell) → IsSound s → IsSound (cmd_erase libc hw args s)
  unfolding cmd_erase
  erase-IsSound [] s ok =
      let blank = config_read-erase hw s.flash ok.page in
      record {
        buffer = ok.buffer;
        page = blank.0;
        kept = λ c h. absurd (none-ne-some (sym (ap (λ r. r.0) (blank.1)) ∙ h));
      }
    where
      none-ne-some : {c : PdbsConfig} → none ≡ some c → ⊥
      none-ne-some h = cc
  erase-IsSound (a ∷ rest) s ok = ok

  output-IsSound : (args : List Arg) (s : Shell) → IsSound s → IsSound (cmd_output libc hw args s)
  unfolding cmd_output
  output-IsSound (a ∷ []) s ok = elim (Bool-cases (libc.is_enable a)) [
    | inl on ↦ rw on (record { buffer = ok.buffer; page = ok.page; kept = ok.kept })
    | inr other ↦ rw other (elim (Bool-cases (libc.is_disable a)) [
      | inl off ↦ rw off (record { buffer = ok.buffer; page = ok.page; kept = ok.kept })
      | inr neither ↦ rw neither ok
    ])
  ]
  output-IsSound [] s ok = ok
  output-IsSound (a ∷ b ∷ rest) s ok = ok

  with_buffer :
      (c : PdbsConfig) (s : Shell) → IsSound s → InRange c → IsSound (record s { tmpcfg = c })
  with_buffer c s ok new = record { buffer = new; page = ok.page; kept = ok.kept }

  -- Every command, whatever its arguments, keeps the settings in range and the flash page valid:
  -- those in the buffer and those that the page stores.
  pub exec-IsSound :
      (c : Command) (args : List Arg) (s : Shell) → IsSound s → IsSound (exec libc hw c args s)
  unfolding exec
  exec-IsSound load args s ok = load-IsSound args s ok
  exec-IsSound write args s ok = write-IsSound args s ok
  exec-IsSound erase args s ok = erase-IsSound args s ok
  exec-IsSound output args s ok = output-IsSound args s ok
  exec-IsSound clear_flags args s ok =
      with_buffer _ s ok (clear_flags-InRange libc hw args s.tmpcfg ok.buffer)
  exec-IsSound toggle_giveback args s ok =
      with_buffer _ s ok (giveback-InRange libc hw args s.tmpcfg ok.buffer)
  exec-IsSound toggle_hv_preferred args s ok =
      with_buffer _ s ok (hv_preferred-InRange libc hw args s.tmpcfg ok.buffer)
  exec-IsSound set_v args s ok = with_buffer _ s ok (set_v-InRange libc hw args s.tmpcfg ok.buffer)
  exec-IsSound set_vrange args s ok =
      with_buffer _ s ok (set_vrange-InRange libc hw args s.tmpcfg ok.buffer)
  exec-IsSound set_i args s ok = with_buffer _ s ok (set_i-InRange libc hw args s.tmpcfg ok.buffer)
  exec-IsSound set_p args s ok = with_buffer _ s ok (set_p-InRange libc hw args s.tmpcfg ok.buffer)
  exec-IsSound set_r args s ok = with_buffer _ s ok (set_r-InRange libc hw args s.tmpcfg ok.buffer)

  run-IsSound :
      (lines : List (Command × List Arg)) (s : Shell) → IsSound s → IsSound (run libc hw lines s)
  unfolding run
  run-IsSound [] s ok = ok
  run-IsSound ((c, args) ∷ lines) s ok = run-IsSound lines _ (exec-IsSound c args s ok)

  -- The shell, started with a valid page that stores nothing or settings in range: after any
  -- commands, with any arguments, the page is valid and stores nothing or settings in range.
  pub pdbs_shell-IsSound :
      (lines : List (Command × List Arg)) (f : Flash) (on : Bool)
      → IsValid f
      → ((c : PdbsConfig) → (config_read f).0 ≡ some c → InRange c)
      → IsSound (pdbs_shell libc hw lines (shell_init f on))
  unfolding pdbs_shell
  pdbs_shell-IsSound lines f on page kept =
      run-IsSound lines _ (load-IsSound [] (shell_init f on) (init-IsSound f on page kept))

  -- What `write` wrote from a buffer that is marked as valid, a shell that starts after a reset
  -- loads into its buffer.
  pub pdbs_shell-write :
      (s : Shell) (on : Bool)
      → IsValid s.flash
      → s.tmpcfg.status ≡ status_valid
      → (pdbs_shell libc hw [] (shell_init (reset (exec libc hw write [] s).flash) on)).tmpcfg
        ≡ record s.tmpcfg { reserved0 = 0; reserved1 = 0 }
  unfolding pdbs_shell run cmd_load exec cmd_write
  pdbs_shell-write s on page valid =
      loaded-tmpcfg _ (shell_init _ on) (stored s.tmpcfg)
        (config_read-reset-update hw s.tmpcfg s.flash page valid)
