-- ===== src/Config/Update.antt =====
-- The operations of src/config.c keep the page valid, and what is written is what is read: at once,
-- through the cache, and after a reset, from the flash alone.
pub mod Steps
use Steps.{Claimed, invalidate-Cleared, claim-Claimed, write_config-IsValid}
use mathlib.Core.Option
use usb_pd_firmware.Prelude.{
  ℕ, ◌≡◌, sym, ap, ◌∙◌, inl, inr, Bool, false, Option, none, some, Option-cases, arith,
}
use usb_pd_firmware.Config.{
  PdbsConfig, FlashHw, Flash, entry, status_valid, status_empty, find_status, flash_read,
  flash_unlock, invalidate, claim, pdbs_config_flash_update,
}
use usb_pd_firmware.Config.Invariant.{IsValid, find_status-some, find_status_unique}

-- On a valid page, the cached lookup finds what a search of the whole array for a valid entry finds.
pub flash_read-eq-find_status :
    (f : Flash) → IsValid f → (flash_read f).0 ≡ find_status status_valid f.entries
unfolding flash_read
flash_read-eq-find_status f v = elim (Option-cases f.cur) [
  | inl unknown ↦ ground (
    arith,
    v.head_empty,
    find_status-some status_valid f.entries,
    Option-cases (find_status status_valid f.entries),
    first_empty,
  )
  | inr (i, at) ↦ ground (arith, at, only i at)
]
  where
    only : (i : ℕ) → f.cur ≡ some i → find_status status_valid f.entries ≡ some i
    only i at =
        find_status_unique f.entries i (v.cached i at)
          (λ j valid. v.unique j i valid (v.cached i at))

    first_empty : (entry f 0).status ≡ status_empty → find_status status_valid f.entries ≡ none
    first_empty h = elim (Option-cases (find_status status_valid f.entries)) [
      | inl none_found ↦ none_found
      | inr (j, found) ↦
          absurd (v.head_empty h j (find_status-some status_valid f.entries j found).0)
    ]

-- A page stays valid when its lock or its cache changes, if the cache is right.
pub with_cur :
    (f : Flash) (at : Option ℕ) (l : Bool)
    → IsValid f
    → ((i : ℕ) → at ≡ some i → (entry f i).status ≡ status_valid)
    → IsValid (record f { cur = at; locked = l })
with_cur f at l v right = record {
  sized = v.sized;
  empty_erased = v.empty_erased;
  unique = v.unique;
  head_empty = v.head_empty;
  cached = right;
}

pub flash_read_unchanged : (f : Flash) → (flash_read f).1 ≡ record f { cur = (flash_read f).0 }
unfolding flash_read
flash_read_unchanged f = ground arith

pub flash_read-IsValid : (f : Flash) → IsValid f → IsValid (flash_read f).1
flash_read-IsValid f v = rw flash_read_unchanged (
    with_cur f (flash_read f).0 f.locked v λ i h.
      (find_status-some status_valid f.entries i (sym (flash_read-eq-find_status f v) ∙ h)).0)

-- The slot of an update, and the flash that it is written to.
unfoldable pub updated : (hw : FlashHw) (f : Flash) → ℕ × Flash
updated hw f = let (old, f') = flash_read (flash_unlock f) in claim hw (invalidate hw old f')

pub updated-Claimed :
    (hw : FlashHw) (f : Flash) → IsValid f → Claimed (updated hw f).0 (updated hw f).1
unfolding updated flash_unlock
updated-Claimed hw f v = claim-Claimed hw _ (
    invalidate-Cleared hw _ _ (flash_read-IsValid open_page unlocked)
      (ap (λ (g : Flash). g.locked) (flash_read_unchanged open_page))
      (ap (λ (g : Flash). find_status status_valid g.entries) (flash_read_unchanged open_page)
        ∙ sym (flash_read-eq-find_status open_page unlocked)))
  where
    open_page : Flash
    open_page = record f { locked = false }

    unlocked : IsValid open_page
    unlocked = with_cur f f.cur false v v.cached

-- Every update with a valid configuration keeps the page valid.
pub update-IsValid :
    (hw : FlashHw) (cfg : PdbsConfig) (f : Flash)
    → IsValid f
    → cfg.status ≡ status_valid
    → IsValid (pdbs_config_flash_update hw cfg f)
unfolding pdbs_config_flash_update updated
update-IsValid hw cfg f v s = write_config-IsValid hw cfg _ _ (updated-Claimed hw f v) s
