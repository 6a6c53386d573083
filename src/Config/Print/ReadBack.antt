-- ===== src/Config/Print/ReadBack.antt =====
-- The text of `pdbs_config_print` tells the configuration: it can be read back.
use usb_pd_firmware.Prelude.{
  ℕ, ◌+◌, ◌*◌, ◌/◌, ◌%◌, ◌<◌, ◌≤◌, ◌≡◌, ◌≢◌, refl, ap, ◌∙◌, inl, inr, Bool, true, false, ◌&&◌, ◌==◌,
  Bool-cases, if_cases, if◌then◌else◌, List, [], ◌∷◌, ◌++◌, arith,
}
use usb_pd_firmware.Bits.{field, flag}
use usb_pd_firmware.Config.{PdbsConfig, status_invalid, status_valid, status_empty}
use usb_pd_firmware.Config.Print.{
  Item, text_in, text_valid, hex4, no_flags, giveback, var_bat, hv_preferred, volts, vmin_volts,
  vmax_volts, amperes, watts, ohms, only, print_status, print_flags, print_range, print_current,
  print_values, pdbs_config_print,
}

-- Reading the text back, independently: a status, and then what each item says of the others.
abbrev pub read_status : List Item → ℕ × List Item
read_status (text_in ∷ text_valid ∷ rest) = (status_invalid, rest)
read_status (text_valid ∷ rest) = (status_valid, rest)
read_status (hex4 n ∷ rest) = (n, rest)
read_status rest = (status_empty, rest)

abbrev pub read_item : Item → PdbsConfig → PdbsConfig
read_item giveback c = record c { flags = c.flags + 1 }
read_item var_bat c = record c { flags = c.flags + 2 }
read_item hv_preferred c = record c { flags = c.flags + 4 }
read_item (volts w f) c = record c { v = w * 1000 + f }
read_item (vmin_volts w f) c = record c { vmin = w * 1000 + f }
read_item (vmax_volts w f) c = record c { vmax = w * 1000 + f }
read_item (amperes w f) c = record c { i = w * 100 + f }
read_item (watts w f) c = record c { flags = c.flags + 8; i = w * 100 + f }
read_item (ohms w f) c = record c { flags = c.flags + 16; i = w * 100 + f }
read_item item c = c

pub read_items : List Item → PdbsConfig → PdbsConfig
read_items [] c = c
read_items (x ∷ xs) c = read_items xs (read_item x c)

abbrev pub zeros : ℕ → PdbsConfig
zeros status = record {
  status = status;
  flags = 0;
  v = 0;
  i = 0;
  vmin = 0;
  vmax = 0;
  reserved0 = 0;
  reserved1 = 0;
}

unfoldable pub read_back : List Item → PdbsConfig
unfolding read_items
read_back items = let (status, rest) = read_status items in read_items rest (zeros status)

read_items-append :
    (xs ys : List Item) (c : PdbsConfig) → read_items (xs ++ ys) c ≡ read_items ys (read_items xs c)
unfolding read_items
read_items-append [] ys c = refl
read_items-append (x ∷ xs) ys c = read_items-append xs ys (read_item x c)

read_only :
    (b : Bool) (x : Item) (c : PdbsConfig)
    → read_items (only b x) c ≡ (if b then read_item x c else c)
unfolding read_items
read_only true x c = refl
read_only false x c = refl

read_no_flags : (b : Bool) (c : PdbsConfig) → read_items (only b no_flags) c ≡ c
unfolding read_items
read_no_flags true c = refl
read_no_flags false c = refl

read_giveback :
    (x : ℕ) (c : PdbsConfig)
    → read_items (only (flag x 0) giveback) c ≡ record c { flags = c.flags + x % 2 }
read_giveback x c = read_only (flag x 0) giveback c ∙ ground arith

read_var_bat :
    (x : ℕ) (c : PdbsConfig)
    → read_items (only (flag x 1) var_bat) c ≡ record c { flags = c.flags + x / 2 % 2 * 2 }
read_var_bat x c = read_only (flag x 1) var_bat c ∙ ground arith

read_hv_preferred :
    (x : ℕ) (c : PdbsConfig)
    → read_items (only (flag x 2) hv_preferred) c ≡ record c { flags = c.flags + x / 4 % 2 * 4 }
read_hv_preferred x c = read_only (flag x 2) hv_preferred c ∙ ground arith

read_flags :
    (x : ℕ) (c : PdbsConfig) → read_items (print_flags x) c ≡ record c { flags = c.flags + x % 8 }
read_flags x c =
    read_items-append (only (field x 0 3 == 0 && field x 5 11 == 0) no_flags) _ c
    ∙ rw
        (
          read_no_flags, read_items-append, read_giveback, read_items-append, read_var_bat,
          read_hv_preferred,
        )
        (ap (λ f. record c { flags = f }) (omega arith))

read_range :
    (a b : ℕ) (c : PdbsConfig)
    → c.vmin ≡ 0
    → c.vmax ≡ 0
    → read_items (print_range a b) c ≡ record c { vmin = a; vmax = b }
unfolding read_items
read_range a b c p q = ground arith

read_current :
    (d i : ℕ) (c : PdbsConfig)
    → d ≤ 2
    → read_items (print_current d i) c ≡ record c { flags = c.flags + d * 8; i = i }
unfolding read_items
read_current d i c h = ground arith

read_values :
    (cfg c : PdbsConfig)
    → field cfg.flags 3 2 ≤ 2
    → c.vmin ≡ 0
    → c.vmax ≡ 0
    → read_items (print_values cfg) c ≡ record c {
      flags = c.flags + field cfg.flags 3 2 * 8;
      v = cfg.v;
      i = cfg.i;
      vmin = cfg.vmin;
      vmax = cfg.vmax;
    }
unfolding read_items
read_values cfg c defn p q =
    read_items-append (print_range cfg.vmin cfg.vmax) (print_current (field cfg.flags 3 2) cfg.i)
      read
    ∙ ap (read_items (print_current (field cfg.flags 3 2) cfg.i))
        (read_range cfg.vmin cfg.vmax read p q)
    ∙ read_current (field cfg.flags 3 2) cfg.i (record read { vmin = cfg.vmin; vmax = cfg.vmax })
        defn
    ∙ ap
        (λ v. record c {
          flags = c.flags + field cfg.flags 3 2 * 8;
          v = v;
          i = cfg.i;
          vmin = cfg.vmin;
          vmax = cfg.vmax;
        })
        (omega arith)
  where
    read : PdbsConfig
    read = record c { v = cfg.v / 1000 * 1000 + cfg.v % 1000 }

read_status-print :
    (s : ℕ) (rest : List Item) → s ≢ status_empty → read_status (print_status s ++ rest) ≡ (s, rest)
read_status-print s rest used = elim (Bool-cases (s == status_invalid)) [
  | inl invalid ↦ rw invalid (ap (λ n. (n, rest)) (ground arith))
  | inr other ↦ elim (Bool-cases (s == status_valid)) [
    | inl valid ↦ rw (other, valid) (ap (λ n. (n, rest)) (ground arith))
    | inr neither ↦ elim (Bool-cases (s == status_empty)) [
      | inl empty ↦ absurd (ground arith)
      | inr numbered ↦ rw (other, neither, numbered) refl
    ]
  ]
]

-- What is printed of a configuration that is not erased, with no flags beyond those of the
-- settings, tells it all: its status, its flags, its voltages, and the current, the power or the
-- resistance.
pub read_back-print :
    (cfg : PdbsConfig)
    → cfg.status ≢ status_empty
    → cfg.flags < 24
    → read_back (pdbs_config_print cfg) ≡ record cfg { reserved0 = 0; reserved1 = 0 }
unfolding read_back pdbs_config_print
read_back-print cfg used few =
    ap read_back printed
    ∙ ap (λ r. read_items r.1 (zeros r.0)) (read_status-print cfg.status _ used)
    ∙ read_items-append (print_flags cfg.flags) (print_values cfg) (zeros cfg.status)
    ∙ ap (read_items (print_values cfg)) (read_flags cfg.flags (zeros cfg.status))
    ∙ read_values cfg (record (zeros cfg.status) { flags = 0 + cfg.flags % 8 }) (omega arith) refl
        refl
    ∙ ap (λ f. record cfg { flags = f; reserved0 = 0; reserved1 = 0 }) (omega arith)
  where
    printed :
        pdbs_config_print cfg
        ≡ print_status cfg.status ++ (print_flags cfg.flags ++ print_values cfg)
    printed =
        if_cases
          (λ items. items ≡ print_status cfg.status ++ (print_flags cfg.flags ++ print_values cfg))
          (cfg.status == status_empty) (λ h. absurd (used (ground arith))) (λ h. refl)
