-- ===== src/Shell/Tests.antt =====
-- The commands of src/shell.c at concrete arguments.
use usb_pd_firmware.Prelude.{
  ℕ, ◌++◌, ◌+◌, ◌-◌, ◌*◌, Bool, ◌==◌, ◌≡◌, refl, inl, true, false, none, some, List, [], ◌∷◌, arith,
}
use usb_pd_firmware.Config.{PdbsConfig, config_read, flash_read, reset}
use usb_pd_firmware.Config.Tests.{stm32, twenty_volts, blank, blank-IsValid}
use usb_pd_firmware.Shell.{
  Long, Libc, Shell, Command, write, set_v, set_vrange, set_i, output, pos, exec, pdbs_shell,
  shell_init,
}
use usb_pd_firmware.Shell.Line.{Shown, shows, shell_get_line, shell_get_line-Shown}
use usb_pd_firmware.Shell.Words.{Text, words, tokenize, split, classify, tokenize-eq-classify}
use usb_pd_firmware.Shell.Print.{print_src_pdo}
use usb_pd_firmware.Shell.Print.ReadBack.{read_back, spare, read_back-print_src_pdo}
use usb_pd_firmware.Shell.Session.{codes, console}
use usb_pd_firmware.Shell.Session.Sound.{IsSane, console-IsSane}
use usb_pd_firmware.Shell.Range.{InRange}
use usb_pd_firmware.Shell.Commands.{IsSound, pdbs_shell-write}

-- Arguments as the numbers that they spell, with two for the words.
abbrev libc : Libc ℕ
libc = record { strtol = λ n. (pos n, true); is_enable = λ n. n == 1; is_disable = λ n. n == 2 }

abbrev tuned : Shell
tuned = record { tmpcfg = twenty_volts; flash = blank; output_enabled = true; new_power = false }

blank_reads : (c : PdbsConfig) → (config_read blank).0 ≡ some c → InRange c
unfolding config_read flash_read
blank_reads c h = absurd (none-ne-some h)
  where
    none-ne-some : {c : PdbsConfig} → none ≡ some c → ⊥
    none-ne-some h = cc

tuned-IsSound : IsSound tuned
tuned-IsSound = record {
  buffer = record {
    valid = refl;
    voltage = omega arith;
    ordered = omega arith;
    highest = omega arith;
    current = inl (refl, omega arith);
  };
  page = blank-IsValid;
  kept = blank_reads;
}

abbrev session : List (Command × List ℕ)
session =
    (set_v, 9000 ∷ [])
    ∷ (set_vrange, 5000 ∷ 12000 ∷ [])
    ∷ (set_i, 1500 ∷ [])
    ∷ (write, [])
    ∷ (output, 1 ∷ [])
    ∷ []

-- Numbers as the decimal digits that the arguments spell.
abbrev decimal : ℕ → Text → Long × Bool
decimal n [] = (pos n, true)
decimal n (c ∷ cs) = decimal (n * 10 + (c - 0x30)) cs

abbrev typed : List ℕ
typed = codes "set_v  90000" ++ (0x08 ∷ 0x0d ∷ codes "set_i 1500\rwrite\r")

typed_voltage : (console (decimal 0) stm32 typed blank true).shell.tmpcfg.v ≡ 9000
unfolding console
typed_voltage = refl

console-IsSane_example : IsSane (console (decimal 0) stm32 typed blank true)
console-IsSane_example = console-IsSane (decimal 0) stm32 typed blank true blank-IsValid blank_reads

shell_get_line-Shown_example :
    Shown 64
      (codes "PDBS) ")
      (shows (codes "PDBS) ") (shell_get_line 64 typed []).1)
      (shell_get_line 64 typed []).0
shell_get_line-Shown_example = shell_get_line-Shown 64 typed (codes "PDBS) ") (omega arith)

tokenize-eq-classify_example :
    tokenize (codes " set_vrange 5000\t12000 ")
    ≡ classify (split (codes " set_vrange 5000\t12000 "))
tokenize-eq-classify_example = tokenize-eq-classify (codes " set_vrange 5000\t12000 ")

vrange_words :
    tokenize (codes " set_vrange 5000\t12000 ")
    ≡ words (codes "set_vrange") (codes "5000" ∷ codes "12000" ∷ [])
unfolding tokenize
vrange_words = refl

pdbs_shell-write_example :
    (pdbs_shell libc stm32 []
      (shell_init (reset (exec libc stm32 write [] tuned).flash) true)).tmpcfg
    ≡ record twenty_volts { reserved0 = 0; reserved1 = 0 }
pdbs_shell-write_example = pdbs_shell-write libc stm32 tuned true blank-IsValid refl

-- A session whose range is refused: 12 V to 5 V.
refused : (exec libc stm32 set_vrange (12000 ∷ 5000 ∷ []) tuned).tmpcfg ≡ twenty_volts
unfolding exec
refused = refl

-- 9 V, 3 A, unconstrained, as the second object.
read_back-print_src_pdo_example :
    read_back (print_src_pdo 0x0802d12c 2) + spare 0x0802d12c ≡ 0x0802d12c
read_back-print_src_pdo_example = read_back-print_src_pdo 0x0802d12c 2 (omega arith)
