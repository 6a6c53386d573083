-- ===== src/Pd.antt =====
-- lib/include/pd.h and lib/include/pdb_msg.h: PD messages, the macros that read and build their
-- fields, and the unit conversions. `(x & MASK) >> SHIFT` is `field`, `(v << SHIFT) & MASK` is
-- `place`, a one-bit test is `flag`; `|` is the native bitwise operation.
pub mod MsgType
use usb_pd_firmware.Prelude.{ℕ, ◌+◌, ◌-◌, ◌*◌, ◌/◌, ◌%◌, ◌^◌, List, Bool, get_or, leb, ◌==◌, ◌&&◌}
use usb_pd_firmware.Bits.{field, place, flag}

-- `union pd_msg`: the header halfword and the seven data objects (words).
pub record PdMsg : Type 0 where
  pub hdr : ℕ
  pub obj : List ℕ

-- `msg->obj[i]`.
abbrev pub obj_at : PdMsg → ℕ → ℕ
obj_at m i = get_or m.obj i 0

abbrev pub msgtype_get : PdMsg → ℕ
msgtype_get m = field m.hdr 0 5

abbrev pub specrev_get : ℕ → ℕ
specrev_get hdr = field hdr 6 2

abbrev pub messageid_get : PdMsg → ℕ
messageid_get m = field m.hdr 9 3

abbrev pub numobj_get : PdMsg → ℕ
numobj_get m = field m.hdr 12 3

abbrev pub numobj : ℕ → ℕ
numobj n = place n 12 3

-- `hdr & PD_HDR_EXT`.
abbrev pub is_ext : PdMsg → Bool
is_ext m = flag m.hdr 15

-- `exthdr` is the low half of `obj[0]`, since everything is little-endian.
abbrev pub data_size_get : PdMsg → ℕ
data_size_get m = field (obj_at m 0 % 2 ^ 16) 0 9

-- A message of the given type with no data objects, or with some.
abbrev pub is_control : PdMsg → ℕ → Bool
is_control m t = msgtype_get m == t && numobj_get m == 0

abbrev pub is_data : PdMsg → ℕ → Bool
is_data m t = msgtype_get m == t && leb 1 (numobj_get m)

-- Specification revisions, as the value of the header's field.
abbrev pub specrev_1_0 : ℕ
specrev_1_0 = 0

abbrev pub specrev_2_0 : ℕ
specrev_2_0 = 1

abbrev pub specrev_3_0 : ℕ
specrev_3_0 = 2

abbrev pub max_ext_msg_legacy_len : ℕ
max_ext_msg_legacy_len = 26

abbrev pub hard_reset_count : ℕ
hard_reset_count = 2

-- Power data objects.
abbrev pub pdo_type : ℕ → ℕ
pdo_type pdo = field pdo 30 2

abbrev pub pdo_type_fixed : ℕ
pdo_type_fixed = 0

abbrev pub pdo_type_augmented : ℕ
pdo_type_augmented = 3

abbrev pub apdo_type : ℕ → ℕ
apdo_type pdo = field pdo 28 2

abbrev pub apdo_type_pps : ℕ
apdo_type_pps = 0

abbrev pub src_fixed_unconstrained : ℕ → Bool
src_fixed_unconstrained pdo = flag pdo 27

abbrev pub src_fixed_current_get : ℕ → ℕ
src_fixed_current_get pdo = field pdo 0 10

abbrev pub src_fixed_voltage_get : ℕ → ℕ
src_fixed_voltage_get pdo = field pdo 10 10

abbrev pub pps_max_voltage_get : ℕ → ℕ
pps_max_voltage_get pdo = field pdo 17 8

abbrev pub pps_min_voltage_get : ℕ → ℕ
pps_min_voltage_get pdo = field pdo 8 8

abbrev pub pps_current_get : ℕ → ℕ
pps_current_get pdo = field pdo 0 7

-- Sink power data objects.
abbrev pub snk_fixed_voltage_set : ℕ → ℕ
snk_fixed_voltage_set v = place v 10 10

abbrev pub snk_fixed_current_set : ℕ → ℕ
snk_fixed_current_set i = place i 0 10

-- Request data objects.
abbrev pub rdo_objpos_get : PdMsg → ℕ
rdo_objpos_get m = field (obj_at m 0) 28 3

abbrev pub rdo_objpos_set : ℕ → ℕ
rdo_objpos_set i = place i 28 3

abbrev pub rdo_giveback : ℕ
rdo_giveback = 2 ^ 27

abbrev pub rdo_cap_mismatch : ℕ
rdo_cap_mismatch = 2 ^ 26

abbrev pub rdo_usb_comms : ℕ
rdo_usb_comms = 2 ^ 25

abbrev pub rdo_no_usb_suspend : ℕ
rdo_no_usb_suspend = 2 ^ 24

-- `PD_RDO_FV_MAX_CURRENT_SET` and `PD_RDO_FV_MIN_CURRENT_SET` are the same bits.
abbrev pub rdo_fv_max_current_set : ℕ → ℕ
rdo_fv_max_current_set i = place i 0 10

abbrev pub rdo_fv_current_set : ℕ → ℕ
rdo_fv_current_set i = place i 10 10

abbrev pub rdo_prog_voltage_set : ℕ → ℕ
rdo_prog_voltage_set v = place v 9 11

abbrev pub rdo_prog_current_set : ℕ → ℕ
rdo_prog_current_set i = place i 0 7

-- Unit conversions.
abbrev pub mv2prv : ℕ → ℕ
mv2prv mv = mv / 20

abbrev pub mv2pdv : ℕ → ℕ
mv2pdv mv = mv / 50

abbrev pub mv2pav : ℕ → ℕ
mv2pav mv = mv / 100

abbrev pub prv2mv : ℕ → ℕ
prv2mv prv = prv * 20

abbrev pub pdv2mv : ℕ → ℕ
pdv2mv pdv = pdv * 50

-- Currents are rounded up.
abbrev pub ma2pdi : ℕ → ℕ
ma2pdi ma = (ma + 10 - 1) / 10

abbrev pub ca2pai : ℕ → ℕ
ca2pai ca = (ca + 5 - 1) / 5

abbrev pub mw2cw : ℕ → ℕ
mw2cw mw = mw / 10

abbrev pub mo2co : ℕ → ℕ
mo2co mo = mo / 10

-- Unit constants; `PD_CA_MAX` is `PD_MA2CA(PD_MA_MAX)`.
abbrev pub mv_max : ℕ
mv_max = 21000

abbrev pub ma_max : ℕ
ma_max = 5000

abbrev pub ca_max : ℕ
ca_max = (5000 + 10 - 1) / 10

abbrev pub mw_max : ℕ
mw_max = 100000

abbrev pub mo_min : ℕ
mo_min = 500

abbrev pub mo_max : ℕ
mo_max = 655350
