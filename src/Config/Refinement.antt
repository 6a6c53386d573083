-- ===== src/Config/Refinement.antt =====
-- The operations of src/config.c against a store that is one optional configuration: the page, its
-- spent entries, the erasures and the cached location do not show.
use usb_pd_firmware.Prelude.{◌≡◌, refl, ap, ◌∙◌, Option, none, some, List, [], ◌∷◌}
use usb_pd_firmware.Config.{
  PdbsConfig, FlashHw, Flash, status_valid, config_read, reset, pdbs_config_flash_update,
  pdbs_config_flash_erase,
}
use usb_pd_firmware.Config.Invariant.{IsValid}
use usb_pd_firmware.Config.Update.{update-IsValid}
use usb_pd_firmware.Config.Update.Steps.{stored}
use usb_pd_firmware.Config.Roundtrip.{config_read-update, config_read-erase}
use usb_pd_firmware.Config.Reads.{
  config_read-IsValid, config_read_again, reset-IsValid, config_read-reset,
}

-- What the rest of the firmware asks of the page; a reset is the board's.
pub data Call : Type 0 where
  read : Call
  update : PdbsConfig → Call
  erase : Call
  restart : Call

-- The answers of the `read` calls, in order.
pub replies : FlashHw → List Call → Flash → List (Option PdbsConfig)
replies hw [] f = []
replies hw (read ∷ calls) f = (config_read f).0 ∷ replies hw calls (config_read f).1
replies hw (update cfg ∷ calls) f = replies hw calls (pdbs_config_flash_update hw cfg f)
replies hw (erase ∷ calls) f = replies hw calls (pdbs_config_flash_erase hw f)
replies hw (restart ∷ calls) f = replies hw calls (reset f)

-- The same of the store.
pub store_replies : List Call → Option PdbsConfig → List (Option PdbsConfig)
store_replies [] s = []
store_replies (read ∷ calls) s = s ∷ store_replies calls s
store_replies (update cfg ∷ calls) s = store_replies calls (some (stored cfg))
store_replies (erase ∷ calls) s = store_replies calls none
store_replies (restart ∷ calls) s = store_replies calls s

-- The configurations that are written are marked as valid, as `tmpcfg` of the shell always is.
abbrev pub WritesValid : List Call → Type 0
WritesValid [] = Unit
WritesValid (update cfg ∷ calls) = (cfg.status ≡ status_valid) × WritesValid calls
WritesValid (read ∷ calls) = WritesValid calls
WritesValid (erase ∷ calls) = WritesValid calls
WritesValid (restart ∷ calls) = WritesValid calls

-- For any sequence of reads, updates with configurations marked as valid, erasures and resets of
-- the board, from any valid page and with any controller, the reads answer as the store that begins
-- with what the page stores.
pub replies-eq-store_replies :
    (hw : FlashHw) (calls : List Call) (f : Flash)
    → IsValid f
    → WritesValid calls
    → replies hw calls f ≡ store_replies calls (config_read f).0
unfolding replies store_replies
replies-eq-store_replies hw [] f v w = refl
replies-eq-store_replies hw (read ∷ calls) f v w =
    ap (λ r. (config_read f).0 ∷ r)
      (replies-eq-store_replies hw calls (config_read f).1 (config_read-IsValid f v) w
        ∙ ap (store_replies calls) (config_read_again f v))
replies-eq-store_replies hw (update cfg ∷ calls) f v w =
    replies-eq-store_replies hw calls (pdbs_config_flash_update hw cfg f)
      (update-IsValid hw cfg f v w.0) w.1
    ∙ ap (λ r. store_replies calls r.0) (config_read-update hw cfg f v w.0)
replies-eq-store_replies hw (erase ∷ calls) f v w =
    let blank = config_read-erase hw f v in
    replies-eq-store_replies hw calls (pdbs_config_flash_erase hw f) blank.0 w
    ∙ ap (λ r. store_replies calls r.0) blank.1
replies-eq-store_replies hw (restart ∷ calls) f v w =
    replies-eq-store_replies hw calls (reset f) (reset-IsValid f v) w
    ∙ ap (store_replies calls) (config_read-reset f v)
