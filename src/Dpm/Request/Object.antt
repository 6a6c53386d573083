-- ===== src/Dpm/Request/Object.antt =====
-- The fields of the objects that `pdbs_dpm_evaluate_capability` builds.
use usb_pd_firmware.Prelude.{
  ℕ, ◌+◌, ◌%◌, ◌^◌, ◌≤◌, bit_or, ◌≡◌, refl, ◌∙◌, Bool, true, false, not, Option, none, some,
  if◌then◌else◌, arith, >>=-eq-some,
}
use usb_pd_firmware.Bits.{field, field-bit_or_left, field-bit_or_right}
use usb_pd_firmware.Pd.{
  obj_at, pdv2mv, src_fixed_voltage_get, PdMsg, numobj_get, msgtype_get, specrev_get,
}
use usb_pd_firmware.Pd.MsgType
use usb_pd_firmware.Config.{PdbsConfig}
use usb_pd_firmware.Dpm.{flags_giveback, dpm_get_current}
use usb_pd_firmware.Dpm.Request.{
  Choice, fixed, pps, range, nothing, with_usb_comms, fixed_rdo, pps_rdo, default_rdo, request_msg,
  build,
}

-- The object position that a choice stands for.
abbrev pub position : Choice → ℕ
position (fixed i) = i + 1
position (pps i) = i + 1
position (range i) = i + 1
position nothing = 1

-- A field that neither side of `|` has bits in.
field-bit_or_none : (a b k w : ℕ) → field a k w ≡ 0 → field b k w ≡ 0 → field (bit_or a b) k w ≡ 0
field-bit_or_none a b k w p q = field-bit_or_left a b k w q ∙ p

ruleset disjoint = (field-bit_or_none, arith)

pub fixed_rdo_objpos : (g : Bool) (current i : ℕ) → field (fixed_rdo g current i) 28 3 ≡ (i + 1) % 8
unfolding fixed_rdo
fixed_rdo_objpos true current i = field-bit_or_right _ _ 28 3 (search disjoint) ∙ omega arith
fixed_rdo_objpos false current i = field-bit_or_right _ _ 28 3 (search disjoint) ∙ omega arith

pps_rdo_objpos :
    (scfg : PdbsConfig) (current i : ℕ) → field (pps_rdo scfg current i) 28 3 ≡ (i + 1) % 8
unfolding pps_rdo
pps_rdo_objpos scfg current i = field-bit_or_right _ _ 28 3 (search disjoint) ∙ omega arith

default_rdo_objpos : (enabled : Bool) → field (default_rdo enabled) 28 3 ≡ 1
unfolding default_rdo
default_rdo_objpos true = refl
default_rdo_objpos false = refl

default_rdo_mismatch :
    (enabled : Bool) → field (default_rdo enabled) 26 1 ≡ (if not enabled then 0 else 1)
unfolding default_rdo
default_rdo_mismatch true = refl
default_rdo_mismatch false = refl

fixed_rdo_mismatch : (g : Bool) (current i : ℕ) → field (fixed_rdo g current i) 26 1 ≡ 0
unfolding fixed_rdo
fixed_rdo_mismatch true current i = search disjoint
fixed_rdo_mismatch false current i = search disjoint

pps_rdo_mismatch : (scfg : PdbsConfig) (current i : ℕ) → field (pps_rdo scfg current i) 26 1 ≡ 0
unfolding pps_rdo
pps_rdo_mismatch scfg current i = search disjoint

-- The current that a fixed request asks for is the one that it was given.
pub fixed_rdo_current :
    (g : Bool) (current i : ℕ) → field (fixed_rdo g current i) 10 10 ≡ current % 1024
unfolding fixed_rdo
fixed_rdo_current true current i =
    field-bit_or_left _ _ 10 10 (omega arith)
    ∙ field-bit_or_left _ _ 10 10 (omega arith)
    ∙ field-bit_or_left _ _ 10 10 (omega arith)
    ∙ field-bit_or_right _ _ 10 10 (omega arith)
    ∙ omega arith
fixed_rdo_current false current i =
    field-bit_or_left _ _ 10 10 (omega arith)
    ∙ field-bit_or_left _ _ 10 10 (omega arith)
    ∙ field-bit_or_right _ _ 10 10 (omega arith)
    ∙ omega arith

-- The USB communications bit is the only one that `with_usb_comms` touches.
pub field-with_usb_comms :
    (comms : Bool) (obj k w : ℕ)
    → field (2 ^ 25) k w ≡ 0
    → field (with_usb_comms comms obj) k w ≡ field obj k w
field-with_usb_comms true obj k w h = field-bit_or_left obj (2 ^ 25) k w h
field-with_usb_comms false obj k w h = refl

-- The object names the position that was chosen.
pub build-objpos :
    (caps : PdMsg) (scfg : Option PdbsConfig) (enabled : Bool) (current : ℕ) (c : Choice)
    (comms : Bool) {obj voltage : ℕ} {matched : Bool}
    → position c ≤ 7
    → build caps scfg enabled current c ≡ some (obj, voltage, matched)
    → (scfg ≡ none → c ≡ nothing)
    → field (with_usb_comms comms obj) 28 3 ≡ position c
unfolding build
build-objpos caps none enabled current c comms p h only =
    field-with_usb_comms comms _ 28 3 refl ∙ ground (arith, only refl, default_rdo_objpos enabled)
build-objpos caps (some scfg) enabled current (fixed i) comms p h only =
    field-with_usb_comms comms _ 28 3 refl
    ∙ ground (arith, fixed_rdo_objpos (flags_giveback scfg) current i)
build-objpos caps (some scfg) enabled current (pps i) comms p h only =
    field-with_usb_comms comms _ 28 3 refl ∙ ground (arith, pps_rdo_objpos scfg current i)
build-objpos caps (some scfg) enabled current (range i) comms {obj} p h only =
    let v = pdv2mv (src_fixed_voltage_get (obj_at caps i)) in
    let made = >>=-eq-some (dpm_get_current scfg v) _ h in
    field-with_usb_comms comms _ 28 3 refl
    ∙ ground (arith, made.2, fixed_rdo_objpos (flags_giveback scfg) made.0 i)
build-objpos caps (some scfg) enabled current nothing comms p h only =
    field-with_usb_comms comms _ 28 3 refl ∙ ground (arith, default_rdo_objpos enabled)

-- The capability mismatch bit is set exactly when the capabilities do not match.
pub build-mismatch :
    (caps : PdMsg) (scfg : Option PdbsConfig) (enabled : Bool) (current : ℕ) (c : Choice)
    (comms : Bool) {obj voltage : ℕ} {matched : Bool}
    → build caps scfg enabled current c ≡ some (obj, voltage, matched)
    → field (with_usb_comms comms obj) 26 1 ≡ (if matched then 0 else 1)
unfolding build
build-mismatch caps none enabled current c comms h =
    field-with_usb_comms comms _ 26 1 refl ∙ ground (arith, default_rdo_mismatch enabled)
build-mismatch caps (some scfg) enabled current (fixed i) comms h =
    field-with_usb_comms comms _ 26 1 refl
    ∙ ground (arith, fixed_rdo_mismatch (flags_giveback scfg) current i)
build-mismatch caps (some scfg) enabled current (pps i) comms h =
    field-with_usb_comms comms _ 26 1 refl ∙ ground (arith, pps_rdo_mismatch scfg current i)
build-mismatch caps (some scfg) enabled current (range i) comms h =
    let v = pdv2mv (src_fixed_voltage_get (obj_at caps i)) in
    let made = >>=-eq-some (dpm_get_current scfg v) _ h in
    field-with_usb_comms comms _ 26 1 refl
    ∙ ground (arith, made.2, fixed_rdo_mismatch (flags_giveback scfg) made.0 i)
build-mismatch caps (some scfg) enabled current nothing comms h =
    field-with_usb_comms comms _ 26 1 refl ∙ ground (arith, default_rdo_mismatch enabled)

-- The header of a request: its type, its one object, and the specification revision in use.
pub request_msg-hdr :
    (hdr_template : ℕ) (request : PdMsg) (obj : ℕ)
    → field hdr_template 0 5 ≡ 0
    → field hdr_template 12 3 ≡ 0
    → let m = request_msg hdr_template request obj in
      (msgtype_get m ≡ MsgType.request)
      × (numobj_get m ≡ 1)
      × (specrev_get m.hdr ≡ specrev_get hdr_template)
unfolding request_msg
request_msg-hdr t request obj h n = (
  field-bit_or_left _ _ 0 5 refl ∙ field-bit_or_right _ _ 0 5 h,
  field-bit_or_right _ _ 12 3 (field-bit_or_none _ _ 12 3 n refl),
  field-bit_or_left _ _ 6 2 refl ∙ field-bit_or_left _ _ 6 2 refl,
)
