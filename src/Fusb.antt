-- ===== src/Fusb.antt =====
-- lib/src/fusb302b.c: the driver of the FUSB302B, which sends and receives messages on the CC line.
pub mod Regs
pub mod Chip
pub mod Message
pub mod Receive
pub mod Wire
pub mod Mutex
pub mod Setup
mod Tests
use usb_pd_firmware.Prelude.{
  ℕ, ◌+◌, ◌*◌, ◌/◌, ◌%◌, ◌^◌, bit_or, Bool, true, false, ltb, if◌then◌else◌, Option, none, some,
  List, [], ◌∷◌, ◌++◌, get_or, set, take, zero, suc, ◌>>=◌,
}
use usb_pd_firmware.Pd.{PdMsg, obj_at, numobj_get}
use Regs.*

-- `i2cMasterTransmit`: the bytes that are written, the number of bytes that are read, the state of
-- the chip; what was read, and the chip afterwards.
abbrev pub Transfer : Type 0 → Type 0
Transfer S = List ℕ → ℕ → S → List ℕ × S

-- The chip, and whether the I2C driver's mutex is taken.
pub record Bus (S : Type 0) : Type 0 where
  pub chip : S
  pub held : Bool

-- `union fusb_status`.
pub record FusbStatus : Type 0 where
  pub status0a : ℕ
  pub status1a : ℕ
  pub interrupta : ℕ
  pub interruptb : ℕ
  pub status0 : ℕ
  pub status1 : ℕ
  pub interrupt : ℕ

-- The bytes of a message in memory, where halfwords and words are little-endian.
abbrev pub bytes16 : ℕ → List ℕ
bytes16 x = x % 2 ^ 8 ∷ x / 2 ^ 8 % 2 ^ 8 ∷ []

abbrev pub bytes32 : ℕ → List ℕ
bytes32 x = x % 2 ^ 8 ∷ x / 2 ^ 8 % 2 ^ 8 ∷ x / 2 ^ 16 % 2 ^ 8 ∷ x / 2 ^ 24 % 2 ^ 8 ∷ []

-- `n` data objects from `obj[i]` on.
pub obj_bytes : ℕ → ℕ → PdMsg → List ℕ
obj_bytes zero i m = []
obj_bytes (suc n) i m = bytes32 (obj_at m i) ++ obj_bytes n (i + 1) m

-- `msg->bytes`, all thirty.
pub msg_bytes : PdMsg → List ℕ
unfolding obj_bytes
msg_bytes m = bytes16 m.hdr ++ obj_bytes 7 0 m

-- A write of two bytes to `msg->bytes`.
abbrev pub store_hdr : List ℕ → PdMsg → PdMsg
store_hdr (a ∷ b ∷ rest) m = record m { hdr = a + b * 2 ^ 8 }
store_hdr (a ∷ []) m = m
store_hdr [] m = m

-- A write of words to `msg->bytes + 2 + 4 * i`.
pub store_objs : ℕ → List ℕ → List ℕ → List ℕ
store_objs i (a ∷ b ∷ c ∷ d ∷ rest) objs =
    store_objs (i + 1) rest (set objs i (a + b * 2 ^ 8 + c * 2 ^ 16 + d * 2 ^ 24))
store_objs i (a ∷ b ∷ c ∷ []) objs = objs
store_objs i (a ∷ b ∷ []) objs = objs
store_objs i (a ∷ []) objs = objs
store_objs i [] objs = objs

-- The byte that was read; the buffer has one element.
abbrev pub first : List ℕ → ℕ
first bs = get_or bs 0 0

-- A thread that takes a mutex which it holds waits for itself: `none`.
unfoldable pub acquire : {S : Type 0} → Bus S → Option (Bus S)
acquire b = if b.held then none else some (record b { held = true })

unfoldable pub release : {S : Type 0} → Bus S → Bus S
release b = record b { held = false }

module _ {S : Type 0} (transfer : Transfer S) where
  unfoldable pub fusb_read_byte : ℕ → Bus S → ℕ × Bus S
  fusb_read_byte addr b =
      let (bs, chip') = transfer (addr ∷ []) 1 b.chip in (first bs, record b { chip = chip' })

  unfoldable pub fusb_read_buf : ℕ → ℕ → Bus S → List ℕ × Bus S
  fusb_read_buf addr size b =
      let (bs, chip') = transfer (addr ∷ []) size b.chip in (bs, record b { chip = chip' })

  unfoldable pub fusb_write_byte : ℕ → ℕ → Bus S → Bus S
  fusb_write_byte addr byte b = record b { chip = (transfer (addr ∷ byte ∷ []) 0 b.chip).1 }

  -- `txbuf` is the address, and the copy of the buffer that the loop makes.
  unfoldable pub fusb_write_buf : ℕ → ℕ → List ℕ → Bus S → Bus S
  fusb_write_buf addr size buf b = record b { chip = (transfer (addr ∷ take size buf) 0 b.chip).1 }

  unfoldable pub fusb_send_message : PdMsg → Bus S → Option (Bus S)
  unfolding acquire release fusb_write_buf
  fusb_send_message msg b = do
    b1 ← acquire b
    let msg_len = 2 + 4 * numobj_get msg
    let sop_seq =
        fifo_tx_sop1
        ∷ fifo_tx_sop1
        ∷ fifo_tx_sop1
        ∷ fifo_tx_sop2
        ∷ bit_or fifo_tx_packsym msg_len
        ∷ []
    let eop_seq = fifo_tx_jam_crc ∷ fifo_tx_eop ∷ fifo_tx_txoff ∷ fifo_tx_txon ∷ []
    let b2 = fusb_write_buf fusb_fifos 5 sop_seq b1
    let b3 = fusb_write_buf fusb_fifos msg_len (msg_bytes msg) b2
    let b4 = fusb_write_buf fusb_fifos 4 eop_seq b3
    some (release b4)

  -- The data objects, if there is at least one.
  unfoldable pub read_objs : ℕ → PdMsg → Bus S → PdMsg × Bus S
  unfolding fusb_read_buf
  read_objs numobj msg b =
      if ltb 0 numobj
      then (let (bytes, b') = fusb_read_buf fusb_fifos (numobj * 4) b in
          (record msg { obj = store_objs 0 bytes msg.obj }, b'))
      else (msg, b)

  -- What follows an SOP token: the header, the data objects, and the CRC, which is thrown away.
  unfoldable pub read_packet : PdMsg → Bus S → PdMsg × Bus S
  unfolding fusb_read_buf read_objs
  read_packet msg b =
      let (bytes, b1) = fusb_read_buf fusb_fifos 2 b in
      let msg' = store_hdr bytes msg in
      let (msg'', b2) = read_objs (numobj_get msg') msg' b1 in
      (msg'', (fusb_read_buf fusb_fifos 4 b2).1)

  unfoldable pub after_token : ℕ → PdMsg → Bus S → ℕ × PdMsg × Bus S
  unfolding read_packet release
  after_token token msg b =
      if is_rx_sop token
      then (let (msg', b') = read_packet msg b in (0, msg', release b'))
      else (1, msg, release b)

  -- Returns 1 where the first byte is no SOP token, with the message as it was.
  unfoldable pub fusb_read_message : PdMsg → Bus S → Option (ℕ × PdMsg × Bus S)
  unfolding acquire fusb_read_byte after_token
  fusb_read_message msg b = do
    b1 ← acquire b
    let (token, b2) = fusb_read_byte fusb_fifos b1
    some (after_token token msg b2)

  unfoldable pub fusb_send_hardrst : Bus S → Option (Bus S)
  unfolding acquire release fusb_write_byte
  fusb_send_hardrst b = do
    b1 ← acquire b
    some (release (fusb_write_byte fusb_control3 (bit_or 0x07 fusb_control3_send_hard_reset) b1))

  -- Up to the measurements.
  unfoldable pub setup_registers : Bus S → Bus S
  unfolding fusb_write_byte
  setup_registers b0 =
      let b1 = fusb_write_byte fusb_reset_reg fusb_reset_sw_res b0 in
      let b2 = fusb_write_byte fusb_power 0x0f b1 in
      let b3 = fusb_write_byte fusb_mask1 0x00 b2 in
      let b4 = fusb_write_byte fusb_maska 0x00 b3 in
      let b5 = fusb_write_byte fusb_maskb 0x00 b4 in
      let b6 = fusb_write_byte fusb_control0 0x04 b5 in
      let b7 = fusb_write_byte fusb_control3 0x07 b6 in
      fusb_write_byte fusb_control1 fusb_control1_rx_flush b7

  -- One measurement; the sleep before it is left out.
  unfoldable pub measure : ℕ → Bus S → ℕ × Bus S
  unfolding fusb_write_byte fusb_read_byte
  measure switches0 b =
      let (status0, b') =
        fusb_read_byte fusb_status0 (fusb_write_byte fusb_switches0 switches0 b) in
      (bc_lvl status0, b')

  unfoldable pub select_line : ℕ → ℕ → Bus S → Bus S
  unfolding fusb_write_byte
  select_line cc1 cc2 b =
      if ltb cc2 cc1
      then fusb_write_byte fusb_switches0 0x07 (fusb_write_byte fusb_switches1 0x25 b)
      else fusb_write_byte fusb_switches0 0x0b (fusb_write_byte fusb_switches1 0x26 b)

  unfoldable pub fusb_setup : Bus S → Option (Bus S)
  unfolding acquire release fusb_write_byte setup_registers measure select_line
  fusb_setup b = do
    b1 ← acquire b
    let (cc1, b2) = measure 0x07 (setup_registers b1)
    let (cc2, b3) = measure 0x0b b2
    some (release (fusb_write_byte fusb_reset_reg fusb_reset_pd_reset (select_line cc1 cc2 b3)))

  -- The seven status and interrupt registers.
  unfoldable pub fusb_get_status : Bus S → Option (FusbStatus × Bus S)
  unfolding acquire release fusb_read_buf
  fusb_get_status b = do
    b1 ← acquire b
    let (bytes, b2) = fusb_read_buf fusb_status0a 7 b1
    some (
      record {
        status0a = get_or bytes 0 0;
        status1a = get_or bytes 1 0;
        interrupta = get_or bytes 2 0;
        interruptb = get_or bytes 3 0;
        status0 = get_or bytes 4 0;
        status1 = get_or bytes 5 0;
        interrupt = get_or bytes 6 0;
      },
      release b2,
    )

  unfoldable pub fusb_get_typec_current : Bus S → Option (ℕ × Bus S)
  unfolding acquire release fusb_read_byte
  fusb_get_typec_current b = do
    b1 ← acquire b
    let (status0, b2) = fusb_read_byte fusb_status0 b1
    some (bc_lvl status0, release b2)

  unfoldable pub fusb_reset : Bus S → Option (Bus S)
  unfolding acquire release fusb_write_byte
  fusb_reset b = do
    b1 ← acquire b
    let b2 = fusb_write_byte fusb_control0 0x44 b1
    let b3 = fusb_write_byte fusb_control1 fusb_control1_rx_flush b2
    some (release (fusb_write_byte fusb_reset_reg fusb_reset_pd_reset b3))
