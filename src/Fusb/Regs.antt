-- ===== src/Fusb/Regs.antt =====
-- lib/src/fusb302b.h: the registers and FIFO tokens of the FUSB302B that the driver uses.
use usb_pd_firmware.Prelude.{ℕ, ◌^◌, ◌==◌, Bool}
use usb_pd_firmware.Bits.{field, flag}

abbrev pub fusb_switches0 : ℕ
fusb_switches0 = 0x02

abbrev pub fusb_switches1 : ℕ
fusb_switches1 = 0x03

abbrev pub fusb_control0 : ℕ
fusb_control0 = 0x06

abbrev pub fusb_control1 : ℕ
fusb_control1 = 0x07

abbrev pub fusb_control1_rx_flush : ℕ
fusb_control1_rx_flush = 2 ^ 2

abbrev pub fusb_control3 : ℕ
fusb_control3 = 0x09

abbrev pub fusb_control3_send_hard_reset : ℕ
fusb_control3_send_hard_reset = 2 ^ 6

abbrev pub fusb_mask1 : ℕ
fusb_mask1 = 0x0A

abbrev pub fusb_power : ℕ
fusb_power = 0x0B

abbrev pub fusb_reset_reg : ℕ
fusb_reset_reg = 0x0C

abbrev pub fusb_reset_pd_reset : ℕ
fusb_reset_pd_reset = 2 ^ 1

abbrev pub fusb_reset_sw_res : ℕ
fusb_reset_sw_res = 1

abbrev pub fusb_maska : ℕ
fusb_maska = 0x0E

abbrev pub fusb_maskb : ℕ
fusb_maskb = 0x0F

abbrev pub fusb_status0a : ℕ
fusb_status0a = 0x3C

abbrev pub fusb_status0 : ℕ
fusb_status0 = 0x40

abbrev pub fusb_fifos : ℕ
fusb_fifos = 0x43

abbrev pub fifo_tx_txon : ℕ
fifo_tx_txon = 0xA1

abbrev pub fifo_tx_sop1 : ℕ
fifo_tx_sop1 = 0x12

abbrev pub fifo_tx_sop2 : ℕ
fifo_tx_sop2 = 0x13

abbrev pub fifo_tx_packsym : ℕ
fifo_tx_packsym = 0x80

abbrev pub fifo_tx_jam_crc : ℕ
fifo_tx_jam_crc = 0xFF

abbrev pub fifo_tx_eop : ℕ
fifo_tx_eop = 0x14

abbrev pub fifo_tx_txoff : ℕ
fifo_tx_txoff = 0xFE

-- The bits of SWITCHES0 and SWITCHES1 for one pin of the two.
abbrev pub meas_cc1 : ℕ → Bool
meas_cc1 switches0 = flag switches0 2

abbrev pub meas_cc2 : ℕ → Bool
meas_cc2 switches0 = flag switches0 3

abbrev pub txcc1 : ℕ → Bool
txcc1 switches1 = flag switches1 0

abbrev pub txcc2 : ℕ → Bool
txcc2 switches1 = flag switches1 1

abbrev pub auto_crc : ℕ → Bool
auto_crc switches1 = flag switches1 2

-- `status0 & FUSB_STATUS0_BC_LVL`.
abbrev pub bc_lvl : ℕ → ℕ
bc_lvl status0 = field status0 0 2

-- `(token & FUSB_FIFO_RX_TOKEN_BITS) == FUSB_FIFO_RX_SOP`.
abbrev pub is_rx_sop : ℕ → Bool
is_rx_sop token = field token 5 3 == 7
