-- ===== src/Config/Tests.antt =====
-- A concrete flash controller, and the theorems on the page of src/config.c at concrete pages.
use usb_pd_firmware.Prelude.{
  ℕ, zero, suc, ◌≡◌, refl, ◌⊎◌, inl, inr, Bool, true, false, ◌==◌, if◌then◌else◌, none, some, List,
  [], ◌∷◌, get_or, set, length, replicate, arith,
}
use usb_pd_firmware.Config.{
  PdbsConfig, FlashHw, Flash, entry, erased, status_valid, find_status, flash_read, config_read,
  pdbs_config_flash_update,
}
use usb_pd_firmware.Config.Invariant.{IsValid, replicate-IsErased}
use usb_pd_firmware.Config.Update.Steps.{stored}
use usb_pd_firmware.Config.Update.{flash_read-eq-find_status, update-IsValid}
use usb_pd_firmware.Config.Refinement.{
  Call, read, update, erase, restart, replies, store_replies, replies-eq-store_replies,
}
use usb_pd_firmware.Config.Print.{pdbs_config_print}
use usb_pd_firmware.Config.Print.ReadBack.{read_back, read_back-print}
use usb_pd_firmware.Config.History.{update-entry}

abbrev program : Bool → ℕ → ℕ → ℕ
program true old new = old
program false old new = if old == 0xffff then new else if new == 0 then 0 else old

abbrev erase_page : Bool → List PdbsConfig → List PdbsConfig
erase_page true es = es
erase_page false es = replicate (length es) erased

pub program_zero : (old : ℕ) → program false old 0 ≡ 0
program_zero old = ground arith

abbrev pub stm32 : FlashHw
stm32 = record {
  program = program;
  erase_page = erase_page;
  program_erased = λ new. refl;
  program_zero = program_zero;
  erase_page_lem = λ es. refl;
}

abbrev pub twenty_volts : PdbsConfig
twenty_volts = record {
  status = 0xbeef;
  flags = 0;
  v = 20000;
  i = 225;
  vmin = 0;
  vmax = 0;
  reserved0 = 0;
  reserved1 = 0;
}

abbrev pub blank : Flash
blank = record { entries = replicate 128 erased; cur = none; locked = true }

abbrev spent : PdbsConfig
spent = record twenty_volts { status = 0 }

abbrev full : Flash
full = record { entries = replicate 128 spent; cur = none; locked = true }

pub blank-IsValid : IsValid blank
blank-IsValid = record {
  sized = refl;
  empty_erased = λ i _. replicate-IsErased 128 i;
  unique = λ i j h. absurd (ground (arith, replicate-IsErased 128 i));
  head_empty = λ _ j. ground (arith, replicate-IsErased 128 j);
  cached = λ i h. cc;
}

get_or-spent :
    (n i : ℕ)
    → (get_or (replicate n spent) i erased ≡ spent) ⊎ (get_or (replicate n spent) i erased ≡ erased)
get_or-spent zero i = inr refl
get_or-spent (suc n) zero = inl refl
get_or-spent (suc n) (suc i) = get_or-spent n i

full-IsValid : IsValid full
full-IsValid = record {
  sized = refl;
  empty_erased = λ i h. ground (arith, get_or-spent 128 i);
  unique = λ i j h. absurd (ground (arith, get_or-spent 128 i));
  head_empty = λ h j. absurd (ground arith);
  cached = λ i h. cc;
}

abbrev once : Flash
once = record {
  entries = set (replicate 128 erased) 0 (stored twenty_volts);
  cur = some 0;
  locked = true;
}

blank_update : pdbs_config_flash_update stm32 twenty_volts blank ≡ once
unfolding pdbs_config_flash_update
blank_update = refl

flash_read-eq-find_status_example : (flash_read blank).0 ≡ find_status status_valid blank.entries
flash_read-eq-find_status_example = flash_read-eq-find_status blank blank-IsValid

update-IsValid_example : IsValid (pdbs_config_flash_update stm32 twenty_volts blank)
update-IsValid_example = update-IsValid stm32 twenty_volts blank blank-IsValid refl

update-entry_example :
    entry (pdbs_config_flash_update stm32 twenty_volts blank) 0 ≡ stored twenty_volts
unfolding find_status
update-entry_example = update-entry stm32 twenty_volts blank 0 0 blank-IsValid refl

abbrev calls : List Call
calls =
    read
    ∷ update twenty_volts
    ∷ read
    ∷ restart
    ∷ update (record twenty_volts { v = 9000 })
    ∷ restart
    ∷ read
    ∷ erase
    ∷ read
    ∷ []

replies-eq-store_replies_example :
    replies stm32 calls full ≡ store_replies calls (config_read full).0
replies-eq-store_replies_example =
    replies-eq-store_replies stm32 calls full full-IsValid (refl, (refl, tt))

read_back-print_example :
    read_back (pdbs_config_print twenty_volts)
    ≡ record twenty_volts { reserved0 = 0; reserved1 = 0 }
read_back-print_example = read_back-print twenty_volts (λ e. omega arith) (omega arith)
