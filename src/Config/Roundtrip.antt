-- ===== src/Config/Roundtrip.antt =====
-- What `pdbs_config_flash_read` returns after `pdbs_config_flash_update` and after
-- `pdbs_config_flash_erase`, and what an update does to each entry of the page.
use usb_pd_firmware.Prelude.{
  ℕ, zero, suc, ◌≡◌, refl, ap, ◌∙◌, ◌≢◌, inl, inr, true, false, ◌==◌, if◌then◌else◌, none, some,
  Option-cases, List, [], ◌∷◌, get_or, set, length, arith,
}
use usb_pd_firmware.Config.{
  PdbsConfig, FlashHw, Flash, entry, erased, status_valid, status_empty, find_status, flash_read,
  config_read, flash_unlock, flash_erase, pdbs_config_flash_erase, reset, invalidate,
  pdbs_config_flash_update,
}
use usb_pd_firmware.Config.Invariant.{
  IsValid, find_status-some, find_status_unique, flash_erase-IsErased,
}
use usb_pd_firmware.Config.Update.Steps.{stored, write_config-entry}
use usb_pd_firmware.Config.Update.{
  flash_read-eq-find_status, flash_read_unchanged, with_cur, updated, updated-Claimed,
  update-IsValid,
}

-- What a read returns, from the array alone.
config_read-eq :
    (f : Flash) (i : ℕ)
    → IsValid f
    → (entry f i).status ≡ status_valid
    → (config_read f).0 ≡ some (entry f i)
unfolding config_read
config_read-eq f i v here = rw (
  flash_read_unchanged f,
  flash_read-eq-find_status f v,
  find_status_unique f.entries i here (λ j there. v.unique j i there here),
)

update-slot :
    (hw : FlashHw) (cfg : PdbsConfig) (f : Flash)
    → IsValid f
    → entry (pdbs_config_flash_update hw cfg f) (updated hw f).0 ≡ stored cfg
unfolding pdbs_config_flash_update updated
update-slot hw cfg f v = write_config-entry hw cfg _ _ _ (updated-Claimed hw f v) ∙ ground arith

config_read_cached : (f : Flash) (i : ℕ) → f.cur ≡ some i → config_read f ≡ (some (entry f i), f)
unfolding config_read flash_read
config_read_cached f i h = ground arith

cur-update :
    (hw : FlashHw) (cfg : PdbsConfig) (f : Flash)
    → (pdbs_config_flash_update hw cfg f).cur ≡ some (updated hw f).0
unfolding pdbs_config_flash_update updated
cur-update hw cfg f = refl

-- A configuration that was written is what is read from then on, and reading leaves the flash and
-- its cache as they are.
pub config_read-update :
    (hw : FlashHw) (cfg : PdbsConfig) (f : Flash)
    → IsValid f
    → cfg.status ≡ status_valid
    → config_read (pdbs_config_flash_update hw cfg f)
      ≡ (some (stored cfg), pdbs_config_flash_update hw cfg f)
config_read-update hw cfg f v s =
    config_read_cached after (updated hw f).0 (cur-update hw cfg f)
    ∙ ap (λ e. (some e, after)) (update-slot hw cfg f v)
  where
    after : Flash
    after = pdbs_config_flash_update hw cfg f

-- A configuration that was written survives a reset.
pub config_read-reset-update :
    (hw : FlashHw) (cfg : PdbsConfig) (f : Flash)
    → IsValid f
    → cfg.status ≡ status_valid
    → (config_read (reset (pdbs_config_flash_update hw cfg f))).0 ≡ some (stored cfg)
unfolding reset
config_read-reset-update hw cfg f v s =
    config_read-eq (reset after) (updated hw f).0
      (with_cur after none true (update-IsValid hw cfg f v s) (λ i h. cc))
      (rw (update-slot hw cfg f v) s)
    ∙ ap some (update-slot hw cfg f v)
  where
    after : Flash
    after = pdbs_config_flash_update hw cfg f

-- After an erase the page is valid, nothing is found, and the controller is locked again.
pub config_read-erase :
    (hw : FlashHw) (f : Flash)
    → IsValid f
    → IsValid (pdbs_config_flash_erase hw f)
      × (config_read (pdbs_config_flash_erase hw f) ≡ (none, pdbs_config_flash_erase hw f))
      × ((pdbs_config_flash_erase hw f).locked ≡ true)
unfolding pdbs_config_flash_erase config_read flash_read
config_read-erase hw f v =
    (blank, rw (ap (λ (e : PdbsConfig). e.status) (page.0 0), flash_read), refl)
  where
    page :
        ((j : ℕ) → entry (flash_erase hw (flash_unlock f)) j ≡ erased)
        × (length (flash_erase hw (flash_unlock f)).entries ≡ length f.entries)
    page = flash_erase-IsErased hw (flash_unlock f) refl

    blank : IsValid (pdbs_config_flash_erase hw f)
    blank = record {
      sized = page.1 ∙ v.sized;
      empty_erased = λ i _. page.0 i;
      unique = λ i j h. absurd (ground (arith, page.0 i));
      head_empty = λ _ j. ground (arith, page.0 j);
      cached = λ i h. cc;
    }

-- The search for an empty entry does not see a change of an entry that is not empty.
find_status-set :
    (s : ℕ) (es : List PdbsConfig) (i : ℕ) (e : PdbsConfig)
    → (get_or es i erased).status ≢ s
    → e.status ≢ s
    → find_status s (set es i e) ≡ find_status s es
unfolding find_status
find_status-set s [] i e old new = refl
find_status-set s (x ∷ xs) zero e old new = ground arith
find_status-set s (x ∷ xs) (suc i) e old new = ground (arith, find_status-set s xs i e)

-- An entry after the old one was invalidated.
abbrev pub retired : PdbsConfig → PdbsConfig
retired e = if e.status == status_valid then record e { status = 0 } else e

pub find_status-invalidate :
    (hw : FlashHw) (f : Flash)
    → IsValid f
    → f.locked ≡ false
    → find_status status_empty (invalidate hw (find_status status_valid f.entries) f).entries
      ≡ find_status status_empty f.entries
unfolding invalidate
find_status-invalidate hw f v u = elim (Option-cases (find_status status_valid f.entries)) [
  | inl none_found ↦ rw (none_found, invalidate)
  | inr (i, found) ↦
      rw (found, invalidate)
        (find_status-set status_empty f.entries i _
          (ground (arith, find_status-some status_valid f.entries i found))
          (rw u (ground (arith, hw.program_zero (entry f i).status))))
]
