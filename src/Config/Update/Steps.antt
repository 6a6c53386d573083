-- ===== src/Config/Update/Steps.antt =====
-- The stages of `pdbs_config_flash_update`: what each leaves for the next.
use usb_pd_firmware.Prelude.{
  ℕ, ◌<◌, ◌≡◌, ◌∙◌, ◌≢◌, inl, inr, false, ◌==◌, if◌then◌else◌, Option, none, some, Option-cases,
  get_or, set, length, length-set, arith,
}
use usb_pd_firmware.Config.{
  PdbsConfig, FlashHw, Flash, entry, erased, status_valid, status_empty, config_array_len,
  find_status, flash_erase, flash_write_halfword, invalidate, claim, write_entry, write_config,
}
use usb_pd_firmware.Config.Invariant.{
  IsValid, find_status-some, find_status-first, find_status-none, get_or-set, flash_erase-IsErased,
}

-- The old entry, if there was one, is invalid now.
pub record Cleared (f : Flash) : Type 0 where
  pub sized : length f.entries ≡ config_array_len
  pub empty_erased : (i : ℕ) → (entry f i).status ≡ status_empty → entry f i ≡ erased
  pub none_valid : (i : ℕ) → (entry f i).status ≢ status_valid
  pub unlocked : f.locked ≡ false

-- The slot is erased, and no entry before it is empty.
pub record Claimed (slot : ℕ) (f : Flash) : Type 0 where
  pub cleared : Cleared f
  pub slot_in : slot < config_array_len
  pub slot_erased : entry f slot ≡ erased
  pub first : (j : ℕ) → j < slot → (entry f j).status ≢ status_empty

-- What a configuration is in flash: the reserved halfwords stay erased.
abbrev pub stored : PdbsConfig → PdbsConfig
stored cfg = record cfg { reserved0 = 0xffff; reserved1 = 0xffff }

pub invalidate-Cleared :
    (hw : FlashHw) (old : Option ℕ) (f : Flash)
    → IsValid f
    → f.locked ≡ false
    → find_status status_valid f.entries ≡ old
    → Cleared (invalidate hw old f)
unfolding invalidate flash_write_halfword
invalidate-Cleared hw none f v u found = record {
  sized = v.sized;
  empty_erased = v.empty_erased;
  none_valid = λ i. find_status-none f.entries i found;
  unlocked = u;
}
invalidate-Cleared hw (some i) f v u found = record {
  sized = length-set f.entries i _ ∙ v.sized;
  empty_erased = λ j. rw (after j) (ground (arith, v.empty_erased j));
  none_valid = λ j. rw (after j) (ground (arith, v.unique j i, here));
  unlocked = u;
}
  where
    here : ((entry f i).status ≡ status_valid) × (i < length f.entries)
    here = find_status-some status_valid f.entries i found

    after :
        (j : ℕ)
        → get_or
            (set f.entries i
              (record (entry f i) { status = hw.program f.locked (entry f i).status 0 }))
            j
            erased
          ≡ (if i == j then record (entry f i) { status = 0 } else entry f j)
    after j = rw (u, hw.program_zero (entry f i).status) (get_or-set f.entries i j _ here.1)

pub claim-Claimed : (hw : FlashHw) (f : Flash) → Cleared f → Claimed (claim hw f).0 (claim hw f).1
unfolding claim
claim-Claimed hw f c = elim (Option-cases (find_status status_empty f.entries)) [
  | inl full ↦
      rw (full, claim)
        (record {
          cleared = after_erase;
          slot_in = omega arith;
          slot_erased = page.0 0;
          first = λ j lt. elim lt [ ];
        })
  | inr (i, found) ↦
      rw (found, claim)
        (record {
          cleared = c;
          slot_in = omega (arith, (find_status-some status_empty f.entries i found).1, c.sized);
          slot_erased = c.empty_erased i (find_status-some status_empty f.entries i found).0;
          first = λ j. find_status-first status_empty f.entries i j found;
        })
]
  where
    page :
        ((j : ℕ) → entry (flash_erase hw f) j ≡ erased)
        × (length (flash_erase hw f).entries ≡ length f.entries)
    page = flash_erase-IsErased hw f c.unlocked

    after_erase : Cleared (flash_erase hw f)
    after_erase = record {
      sized = page.1 ∙ c.sized;
      empty_erased = λ j _. page.0 j;
      none_valid = λ j. ground (arith, page.0 j);
      unlocked = c.unlocked;
    }

write_entry-erased :
    (hw : FlashHw) (cfg e : PdbsConfig) (f : Flash)
    → f.locked ≡ false
    → e ≡ erased
    → write_entry hw f e cfg ≡ stored cfg
unfolding write_entry
write_entry-erased hw cfg e f u p = rw (p, u) (simp (hw.program_erased))

-- The update changes the slot alone, to the configuration that it was given.
pub write_config-entry :
    (hw : FlashHw) (cfg : PdbsConfig) (slot j : ℕ) (f : Flash)
    → Claimed slot f
    → entry (write_config hw cfg (slot, f)) j ≡ (if slot == j then stored cfg else entry f j)
unfolding write_config
write_config-entry hw cfg slot j f c =
    rw (← write_entry-erased hw cfg (entry f slot) f c.cleared.unlocked c.slot_erased)
      (get_or-set f.entries slot j _ (omega (arith, c.slot_in, c.cleared.sized)))

pub write_config-IsValid :
    (hw : FlashHw) (cfg : PdbsConfig) (slot : ℕ) (f : Flash)
    → Claimed slot f
    → cfg.status ≡ status_valid
    → IsValid (write_config hw cfg (slot, f))
unfolding write_config
write_config-IsValid hw cfg slot f c v = record {
  sized = length-set f.entries slot _ ∙ c.cleared.sized;
  empty_erased = λ j. ground (arith, at j, c.cleared.empty_erased j);
  unique = λ i j. ground (arith, at i, at j, c.cleared.none_valid i, c.cleared.none_valid j);
  head_empty = λ h j. absurd (ground (arith, at 0, c.first 0));
  cached = λ i h. ground (arith, at i);
}
  where
    at :
        (j : ℕ)
        → entry (write_config hw cfg (slot, f)) j ≡ (if slot == j then stored cfg else entry f j)
    at j = write_config-entry hw cfg slot j f c
