-- ===== src/Config/History.antt =====
-- What `pdbs_config_flash_update` does to each entry of the page.
use usb_pd_firmware.Prelude.{
  ℕ, ◌≡◌, refl, ◌∙◌, inl, inr, false, ◌==◌, if◌then◌else◌, none, some, Option-cases, arith,
}
use usb_pd_firmware.Config.{
  PdbsConfig, FlashHw, Flash, entry, erased, status_valid, status_empty, find_status, flash_unlock,
  flash_erase, invalidate, claim, pdbs_config_flash_update,
}
use usb_pd_firmware.Config.Invariant.{
  IsValid, find_status-some, find_status-none, flash_erase-IsErased, get_or-set,
}
use usb_pd_firmware.Config.Update.Steps.{stored, write_config-entry}
use usb_pd_firmware.Config.Update.{
  flash_read-eq-find_status, flash_read_unchanged, with_cur, updated, updated-Claimed,
}
use usb_pd_firmware.Config.Roundtrip.{retired, find_status-invalidate}

-- The page that an update works on: open, and with the location of the valid entry known.
abbrev opened : Flash → Flash
opened f = record f { cur = find_status status_valid f.entries; locked = false }

updated-eq :
    (hw : FlashHw) (f : Flash)
    → IsValid f
    → updated hw f ≡ claim hw (invalidate hw (find_status status_valid f.entries) (opened f))
unfolding updated flash_unlock
updated-eq hw f v = rw (
  flash_read_unchanged (flash_unlock f),
  flash_read-eq-find_status (flash_unlock f) (with_cur f f.cur false v v.cached),
)

opened-IsValid : (f : Flash) → IsValid f → IsValid (opened f)
opened-IsValid f v =
    with_cur f _ false v λ i found. (find_status-some status_valid f.entries i found).0

invalidate-entry :
    (hw : FlashHw) (f : Flash) (j : ℕ)
    → IsValid f
    → f.locked ≡ false
    → entry (invalidate hw (find_status status_valid f.entries) f) j ≡ retired (entry f j)
unfolding invalidate
invalidate-entry hw f j v u = elim (Option-cases (find_status status_valid f.entries)) [
  | inl none_found ↦
      rw (none_found, invalidate) (ground (arith, find_status-none f.entries j none_found))
  | inr (i, found) ↦
      rw (found, invalidate)
        (ground (
          arith,
          u,
          hw.program_zero (entry f i).status,
          get_or-set f.entries i j
              (record (entry f i) { status = hw.program f.locked (entry f i).status 0 }),
          find_status-some status_valid f.entries i found,
          v.unique i j,
        ))
]

update-entry_at :
    (hw : FlashHw) (cfg : PdbsConfig) (f : Flash) (j : ℕ)
    → IsValid f
    → entry (pdbs_config_flash_update hw cfg f) j
      ≡ (if (updated hw f).0 == j then stored cfg else entry (updated hw f).1 j)
unfolding pdbs_config_flash_update updated
update-entry_at hw cfg f j v = write_config-entry hw cfg _ j _ (updated-Claimed hw f v)

-- While the page has an empty entry, an update writes the configuration to the first one, marks
-- the entry that was valid as invalid, and leaves every other entry as it was.
pub update-entry :
    (hw : FlashHw) (cfg : PdbsConfig) (f : Flash) (slot j : ℕ)
    → IsValid f
    → find_status status_empty f.entries ≡ some slot
    → entry (pdbs_config_flash_update hw cfg f) j
      ≡ (if slot == j then stored cfg else retired (entry f j))
unfolding claim
update-entry hw cfg f slot j v found =
    update-entry_at hw cfg f j v
    ∙ rw (place_found) (rw (invalidate-entry hw (opened f) j (opened-IsValid f v) refl))
  where
    place_found :
        updated hw f ≡ (slot, invalidate hw (find_status status_valid f.entries) (opened f))
    place_found =
        updated-eq hw f v
        ∙ rw (find_status-invalidate hw (opened f) (opened-IsValid f v) refl ∙ found, claim)

-- When the page is full, an update erases it and writes the configuration to the first entry.
pub update-entry_full :
    (hw : FlashHw) (cfg : PdbsConfig) (f : Flash) (j : ℕ)
    → IsValid f
    → find_status status_empty f.entries ≡ none
    → entry (pdbs_config_flash_update hw cfg f) j ≡ (if 0 == j then stored cfg else erased)
unfolding claim invalidate
update-entry_full hw cfg f j v full =
    update-entry_at hw cfg f j v
    ∙ rw place_full (rw ((flash_erase-IsErased hw cleared unlocked).0 j))
  where
    cleared : Flash
    cleared = invalidate hw (find_status status_valid f.entries) (opened f)

    unlocked : cleared.locked ≡ false
    unlocked = elim (Option-cases (find_status status_valid f.entries)) [
      | inl none_found ↦ rw (none_found, invalidate)
      | inr (i, found) ↦ rw (found, invalidate)
    ]

    place_full : updated hw f ≡ (0, flash_erase hw cleared)
    place_full =
        updated-eq hw f v
        ∙ rw (find_status-invalidate hw (opened f) (opened-IsValid f v) refl ∙ full, claim)
