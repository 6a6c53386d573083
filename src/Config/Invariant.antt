-- ===== src/Config/Invariant.antt =====
-- What holds of the configuration page between two operations of src/config.c.
use usb_pd_firmware.Prelude.{
  ℕ, zero, suc, ◌≤◌, ◌<◌, ◌≡◌, refl, ap, ◌∙◌, ◌≢◌, inl, inr, false, ◌==◌, ==_iff, if◌then◌else◌,
  Bool-cases, none, some, Option-cases, List, [], ◌∷◌, get_or, set, length, replicate,
  get_or-set_self, get_or-set_ne, length-replicate, arith,
}
use native.Mathlib.Decide.{dec_lt}
use usb_pd_firmware.Config.{
  PdbsConfig, FlashHw, Flash, entry, erased, status_valid, status_empty, config_array_len,
  find_status, flash_erase,
}

pub record IsValid (f : Flash) : Type 0 where
  -- the array has its 128 entries
  pub sized : length f.entries ≡ config_array_len
  -- an entry marked as empty is erased throughout
  pub empty_erased : (i : ℕ) → (entry f i).status ≡ status_empty → entry f i ≡ erased
  -- at most one entry is valid
  pub unique :
      (i j : ℕ) → (entry f i).status ≡ status_valid → (entry f j).status ≡ status_valid → i ≡ j
  -- an empty first entry means that there is none
  pub head_empty : (entry f 0).status ≡ status_empty → (j : ℕ) → (entry f j).status ≢ status_valid
  -- the cached location is that of the valid entry
  pub cached : (i : ℕ) → f.cur ≡ some i → (entry f i).status ≡ status_valid

-- What a search of the array finds.
pub find_status-some :
    (s : ℕ) (es : List PdbsConfig) (i : ℕ)
    → find_status s es ≡ some i
    → ((get_or es i erased).status ≡ s) × (i < length es)
unfolding find_status
find_status-some s [] i h = cc
find_status-some s (e ∷ es) zero h = ground arith
find_status-some s (e ∷ es) (suc i) h = ground (arith, find_status-some s es i)

pub find_status-first :
    (s : ℕ) (es : List PdbsConfig) (i j : ℕ)
    → find_status s es ≡ some i
    → j < i
    → (get_or es j erased).status ≢ s
unfolding find_status
find_status-first s [] i j h lt = cc
find_status-first s (e ∷ es) zero j h lt = elim lt [ ]
find_status-first s (e ∷ es) (suc i) zero h lt = ground arith
find_status-first s (e ∷ es) (suc i) (suc j) h lt = ground (arith, find_status-first s es i j)

find_status-none_in :
    (s : ℕ) (es : List PdbsConfig) (j : ℕ)
    → find_status s es ≡ none
    → j < length es
    → (get_or es j erased).status ≢ s
unfolding find_status
find_status-none_in s [] j h lt = elim lt [ ]
find_status-none_in s (e ∷ es) zero h lt = ground arith
find_status-none_in s (e ∷ es) (suc j) h lt = ground (arith, find_status-none_in s es j)

get_or-status_out :
    (es : List PdbsConfig) (j : ℕ) → length es ≤ j → (get_or es j erased).status ≡ status_empty
get_or-status_out [] j h = refl
get_or-status_out (e ∷ es) zero h = absurd (omega arith)
get_or-status_out (e ∷ es) (suc j) h = get_or-status_out es j (omega arith)

-- Where no entry is valid, every index shows so, also past the end.
pub find_status-none :
    (es : List PdbsConfig) (j : ℕ)
    → find_status status_valid es ≡ none
    → (get_or es j erased).status ≢ status_valid
find_status-none es j h = elim (dec_lt j (length es)) [
  | yes lt ↦ find_status-none_in status_valid es j h lt
  | no ge ↦ ground (arith, get_or-status_out es j)
]

-- A valid entry that is the only one is what the search finds.
pub find_status_unique :
    (es : List PdbsConfig) (i : ℕ)
    → (get_or es i erased).status ≡ status_valid
    → ((j : ℕ) → (get_or es j erased).status ≡ status_valid → j ≡ i)
    → find_status status_valid es ≡ some i
find_status_unique es i v only = elim (Option-cases (find_status status_valid es)) [
  | inl none_found ↦ absurd (find_status-none es i none_found v)
  | inr (j, found) ↦ found ∙ ap some (only j (find_status-some status_valid es j found).0)
]

-- An entry after a write to entry `i`.
pub get_or-set :
    (es : List PdbsConfig) (i j : ℕ) (e : PdbsConfig)
    → i < length es
    → get_or (set es i e) j erased ≡ (if i == j then e else get_or es j erased)
get_or-set es i j e h = elim (Bool-cases (i == j)) [
  | inl same ↦ rw same (rw (← (==_iff i j).0 same) (get_or-set_self es i e erased h))
  | inr other ↦ rw other (get_or-set_ne es i j e erased (λ p. ground arith))
]

-- An erased page.
abbrev pub IsErased : List PdbsConfig → Type 0
IsErased es = (j : ℕ) → get_or es j erased ≡ erased

pub replicate-IsErased : (n : ℕ) → IsErased (replicate n erased)
replicate-IsErased zero j = refl
replicate-IsErased (suc n) zero = refl
replicate-IsErased (suc n) (suc j) = replicate-IsErased n j

-- What a page erase leaves, if the controller is unlocked.
pub flash_erase-IsErased :
    (hw : FlashHw) (f : Flash)
    → f.locked ≡ false
    → IsErased (flash_erase hw f).entries × (length (flash_erase hw f).entries ≡ length f.entries)
unfolding flash_erase
flash_erase-IsErased hw f u =
    rw (u, hw.erase_page_lem f.entries)
      (replicate-IsErased (length f.entries), length-replicate (length f.entries) erased)
