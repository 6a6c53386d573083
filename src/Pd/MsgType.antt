-- ===== src/Pd/MsgType.antt =====
-- The message types of lib/include/pd.h that the firmware names: control messages first, then
-- data messages.
use usb_pd_firmware.Prelude.{ℕ}

abbrev pub goodcrc : ℕ
goodcrc = 0x01

abbrev pub gotomin : ℕ
gotomin = 0x02

abbrev pub accept : ℕ
accept = 0x03

abbrev pub reject : ℕ
reject = 0x04

abbrev pub ping : ℕ
ping = 0x05

abbrev pub ps_rdy : ℕ
ps_rdy = 0x06

abbrev pub get_source_cap : ℕ
get_source_cap = 0x07

abbrev pub get_sink_cap : ℕ
get_sink_cap = 0x08

abbrev pub dr_swap : ℕ
dr_swap = 0x09

abbrev pub pr_swap : ℕ
pr_swap = 0x0a

abbrev pub vconn_swap : ℕ
vconn_swap = 0x0b

abbrev pub wait : ℕ
wait = 0x0c

abbrev pub soft_reset : ℕ
soft_reset = 0x0d

abbrev pub not_supported : ℕ
not_supported = 0x10

-- Data messages.
abbrev pub source_capabilities : ℕ
source_capabilities = 0x01

abbrev pub request : ℕ
request = 0x02

abbrev pub sink_capabilities : ℕ
sink_capabilities = 0x04

abbrev pub vendor_defined : ℕ
vendor_defined = 0x0f
