-- ===== src/Config.antt =====
-- src/config.h and src/config.c: the configuration structures in a page of flash memory, and the
-- cached location of the current one.
pub mod Invariant
pub mod Update
pub mod Roundtrip
pub mod History
pub mod Reads
pub mod Refinement
pub mod Print
pub mod Tests
use mathlib.Core.Option
use usb_pd_firmware.Prelude.{
  ℕ, suc, Bool, true, false, ◌==◌, if◌then◌else◌, Option, none, some, List, [], ◌∷◌, get_or, set,
  length, replicate, ◌≡◌,
}

-- `struct pdbs_config`; the union of `i`, `p` and `r` is the field `i`.
pub record PdbsConfig : Type 0 where
  pub status : ℕ
  pub flags : ℕ
  pub v : ℕ
  pub i : ℕ
  pub vmin : ℕ
  pub vmax : ℕ
  pub reserved0 : ℕ
  pub reserved1 : ℕ

abbrev pub status_invalid : ℕ
status_invalid = 0x0000

abbrev pub status_valid : ℕ
status_valid = 0xbeef

abbrev pub status_empty : ℕ
status_empty = 0xffff

abbrev pub config_array_len : ℕ
config_array_len = 128

-- An entry of an erased page.
abbrev pub erased : PdbsConfig
erased = record {
  status = 0xffff;
  flags = 0xffff;
  v = 0xffff;
  i = 0xffff;
  vmin = 0xffff;
  vmax = 0xffff;
  reserved0 = 0xffff;
  reserved1 = 0xffff;
}

-- The flash controller of the STM32F072, which is no code of this repository. The first argument
-- of each operation is its LOCK bit. Unlocked, a halfword that is erased takes any value, any
-- halfword can be cleared, and a page erase sets every bit of the page.
pub record FlashHw : Type 0 where
  pub program : Bool → ℕ → ℕ → ℕ
  pub erase_page : Bool → List PdbsConfig → List PdbsConfig
  pub program_erased : (new : ℕ) → program false 0xffff new ≡ new
  pub program_zero : (old : ℕ) → program false old 0 ≡ 0
  pub erase_page_lem : (es : List PdbsConfig) → erase_page false es ≡ replicate (length es) erased

-- `pdbs_config_array`, `config_cur` (an index for the pointer) and the controller's LOCK bit.
pub record Flash : Type 0 where
  pub entries : List PdbsConfig
  pub cur : Option ℕ
  pub locked : Bool

-- `pdbs_config_array[i]`.
abbrev pub entry : Flash → ℕ → PdbsConfig
entry f i = get_or f.entries i erased

-- An index of the rest of the array, as one of the whole.
abbrev pub shifted : Option ℕ → Option ℕ
shifted none = none
shifted (some i) = some (suc i)

-- The loops over the array: the first entry with the given status.
pub find_status : ℕ → List PdbsConfig → Option ℕ
find_status s [] = none
find_status s (e ∷ es) = if e.status == s then some 0 else shifted (find_status s es)

unfoldable pub flash_unlock : Flash → Flash
flash_unlock f = record f { locked = false }

unfoldable pub flash_lock : Flash → Flash
flash_lock f = record f { locked = true }

-- What `flash_write_halfword` leaves in a halfword.
unfoldable pub flash_write_halfword : FlashHw → Flash → ℕ → ℕ → ℕ
flash_write_halfword hw f old new = hw.program f.locked old new

unfoldable pub flash_erase : FlashHw → Flash → Flash
flash_erase hw f = record f { entries = hw.erase_page f.locked f.entries }

-- The location of the configuration, and the flash with its cache.
unfoldable pub flash_read : Flash → Option ℕ × Flash
unfolding find_status
flash_read f = elim f.cur [
  | some i ↦ (some i, f)
  | none ↦
      if (entry f 0).status == status_empty
      then (none, f)
      else elim (find_status status_valid f.entries) [
        | some i ↦ (some i, record f { cur = some i })
        | none ↦ (none, f)
      ]
]

-- The configuration itself, as the callers of `pdbs_config_flash_read` use it.
unfoldable pub config_read : Flash → Option PdbsConfig × Flash
unfolding flash_read
config_read f = let (at, f') = flash_read f in (Option.map (entry f') at, f')

unfoldable pub pdbs_config_flash_erase : FlashHw → Flash → Flash
unfolding flash_unlock flash_erase flash_lock
pdbs_config_flash_erase hw f =
    let erased_page = flash_lock (flash_erase hw (flash_unlock f)) in
    record erased_page { cur = none }

-- A reset: `config_cur` starts as NULL, and the controller starts locked.
unfoldable pub reset : Flash → Flash
reset f = record f { cur = none; locked = true }

-- If there is an old entry, invalidate it.
pub invalidate : FlashHw → Option ℕ → Flash → Flash
unfolding flash_write_halfword
invalidate hw none f = f
invalidate hw (some i) f =
    let old = entry f i in
    record f {
      entries =
          set f.entries i
            (record old { status = flash_write_halfword hw f old.status status_invalid });
    }

-- The first empty entry; if the page is full it is erased, and the first entry taken.
pub claim : FlashHw → Flash → ℕ × Flash
unfolding find_status flash_erase
claim hw f = elim (find_status status_empty f.entries) [
  | some i ↦ (i, f)
  | none ↦ (0, flash_erase hw f)
]

-- The six halfword writes to one entry.
pub write_entry : FlashHw → Flash → PdbsConfig → PdbsConfig → PdbsConfig
unfolding flash_write_halfword
write_entry hw f e cfg = record e {
  status = flash_write_halfword hw f e.status cfg.status;
  flags = flash_write_halfword hw f e.flags cfg.flags;
  v = flash_write_halfword hw f e.v cfg.v;
  i = flash_write_halfword hw f e.i cfg.i;
  vmin = flash_write_halfword hw f e.vmin cfg.vmin;
  vmax = flash_write_halfword hw f e.vmax cfg.vmax;
}

pub write_config : FlashHw → PdbsConfig → ℕ × Flash → Flash
unfolding write_entry flash_lock
write_config hw cfg (slot, f) =
    let written = record f { entries = set f.entries slot (write_entry hw f (entry f slot) cfg) } in
    let locked_again = flash_lock written in record locked_again { cur = some slot }

unfoldable pub pdbs_config_flash_update : FlashHw → PdbsConfig → Flash → Flash
unfolding flash_unlock flash_read invalidate claim write_config
pdbs_config_flash_update hw cfg f =
    let (old, f') = flash_read (flash_unlock f) in
    write_config hw cfg (claim hw (invalidate hw old f'))
