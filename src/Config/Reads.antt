-- ===== src/Config/Reads.antt =====
-- What `pdbs_config_flash_read` returns and leaves behind, with the cache and without it.
use mathlib.Core.Option
use usb_pd_firmware.Prelude.{get_or, none, ◌≡◌, refl, sym, ap, ◌∙◌, true}
use usb_pd_firmware.Config.{Flash, entry, erased, status_valid, find_status, config_read, reset}
use usb_pd_firmware.Config.Invariant.{IsValid}
use usb_pd_firmware.Config.Update.{
  flash_read-eq-find_status, flash_read_unchanged, flash_read-IsValid, with_cur,
}

-- What a read returns depends on the entries alone.
pub config_read_entries :
    (f : Flash)
    → IsValid f
    → (config_read f).0 ≡ Option.map (entry f) (find_status status_valid f.entries)
unfolding config_read
config_read_entries f v = rw (flash_read_unchanged f, flash_read-eq-find_status f v) refl

pub config_read-IsValid : (f : Flash) → IsValid f → IsValid (config_read f).1
unfolding config_read
config_read-IsValid f v = flash_read-IsValid f v

pub config_read-entries_kept : (f : Flash) → (config_read f).1.entries ≡ f.entries
unfolding config_read
config_read-entries_kept f = rw flash_read_unchanged refl

pub config_read_again :
    (f : Flash) → IsValid f → (config_read (config_read f).1).0 ≡ (config_read f).0
config_read_again f v =
    config_read_entries (config_read f).1 (config_read-IsValid f v)
    ∙ ap (λ es. Option.map (λ i. get_or es i erased) (find_status status_valid es))
        (config_read-entries_kept f)
    ∙ sym (config_read_entries f v)

pub reset-IsValid : (f : Flash) → IsValid f → IsValid (reset f)
unfolding reset
reset-IsValid f v = with_cur f none true v (λ i h. cc)

-- A reset loses the cache alone.
pub config_read-reset : (f : Flash) → IsValid f → (config_read (reset f)).0 ≡ (config_read f).0
unfolding reset
config_read-reset f v =
    config_read_entries (reset f) (reset-IsValid f v) ∙ sym (config_read_entries f v)
