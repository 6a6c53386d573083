-- ===== src/Fusb/Message.antt =====
-- Messages through the FIFOs of the FUSB302B: what `fusb_send_message` puts on the wire, and what
-- `fusb_read_message` makes of it on the other side.
use usb_pd_firmware.Prelude.{
  ℕ, zero, suc, ◌+◌, ◌*◌, ◌≤◌, ◌<◌, bit_or, ◌≡◌, refl, ap, ◌∙◌, Bool, false, ◌&&◌, ◌==◌,
  if◌then◌else◌, Option, none, some, List, [], ◌∷◌, ◌++◌, length, take, drop, length-append,
  take-append, drop-append, Ends, arith,
}
use usb_pd_firmware.Bits.{field, field-bit_or_left, field-bit_or_right}
use usb_pd_firmware.Pd.{PdMsg, obj_at, numobj_get}
use usb_pd_firmware.Fusb.{
  Transfer, Bus, bytes16, bytes32, obj_bytes, msg_bytes, acquire, release, fusb_write_buf,
  fusb_send_message,
}
use usb_pd_firmware.Fusb.Regs.{fusb_fifos, fifo_tx_packsym}
use usb_pd_firmware.Fusb.Chip.{HasFifos}

-- A message on the wire: the header and as many data objects as it says.
unfoldable pub wire : PdMsg → List ℕ
unfolding obj_bytes
wire m = bytes16 m.hdr ++ obj_bytes (numobj_get m) 0 m

-- The chip's reading of the transmit FIFO: an SOP, a count, so many bytes, then the CRC, an EOP,
-- and the transmitter off and started.
abbrev pub is_trailer : List ℕ → Bool
is_trailer (a ∷ b ∷ c ∷ d ∷ []) = a == 0xff && b == 0x14 && c == 0xfe && d == 0xa1
is_trailer (a ∷ b ∷ c ∷ d ∷ e ∷ rest) = false
is_trailer (a ∷ b ∷ c ∷ []) = false
is_trailer (a ∷ b ∷ []) = false
is_trailer (a ∷ []) = false
is_trailer [] = false

abbrev pub counted : ℕ → List ℕ → Option (List ℕ)
counted n bs = if is_trailer (drop n bs) then some (take n bs) else none

abbrev pub packet : List ℕ → Option (List ℕ)
packet (a ∷ b ∷ c ∷ d ∷ n ∷ rest) =
    if a == 0x12 && b == 0x12 && c == 0x12 && d == 0x13 && field n 5 3 == 4
    then counted (field n 0 5) rest
    else none
packet (a ∷ b ∷ c ∷ d ∷ []) = none
packet (a ∷ b ∷ c ∷ []) = none
packet (a ∷ b ∷ []) = none
packet (a ∷ []) = none
packet [] = none

four_suc : (n : ℕ) → 4 * suc n ≡ suc (suc (suc (suc (4 * n))))
four_suc n = omega arith

take-obj_bytes : (n k i : ℕ) (m : PdMsg) → n ≤ k → take (4 * n) (obj_bytes k i m) ≡ obj_bytes n i m
unfolding obj_bytes
take-obj_bytes zero k i m h = refl
take-obj_bytes (suc n) zero i m h = absurd (omega arith)
take-obj_bytes (suc n) (suc k) i m h =
    rw (four_suc n)
      (ap (λ bs. bytes32 (obj_at m i) ++ bs) (take-obj_bytes n k (i + 1) m (omega arith)))

pub length-obj_bytes : (n i : ℕ) (m : PdMsg) → length (obj_bytes n i m) ≡ 4 * n
unfolding obj_bytes
length-obj_bytes zero i m = refl
length-obj_bytes (suc n) i m = omega (arith, length-obj_bytes n (i + 1) m)

two_add : (n : ℕ) → 2 + n ≡ suc (suc n)
two_add n = omega arith

take-msg_bytes : (m : PdMsg) → take (2 + 4 * numobj_get m) (msg_bytes m) ≡ wire m
unfolding msg_bytes wire
take-msg_bytes m =
    rw (two_add (4 * numobj_get m))
      (ap (λ bs. bytes16 m.hdr ++ bs) (take-obj_bytes (numobj_get m) 7 0 m (omega arith)))

length-wire : (m : PdMsg) → length (wire m) ≡ 2 + 4 * numobj_get m
unfolding wire
length-wire m = omega (arith, length-obj_bytes (numobj_get m) 0 m)

-- The token that counts the bytes.
packsym_lem :
    (n : ℕ)
    → n < 32
    → (field (bit_or fifo_tx_packsym n) 5 3 ≡ 4) × (field (bit_or fifo_tx_packsym n) 0 5 ≡ n)
packsym_lem n h =
    (field-bit_or_left 0x80 n 5 3 (omega arith), field-bit_or_right 0x80 n 0 5 refl ∙ omega arith)

-- What the chip makes of the three writes.
packet_lem :
    (n : ℕ) (bs : List ℕ)
    → length bs ≡ n
    → n < 32
    → packet (
        0x12 ∷ 0x12 ∷ 0x12 ∷ 0x13 ∷ bit_or fifo_tx_packsym n ∷ bs
        ++ (0xff ∷ 0x14 ∷ 0xfe ∷ 0xa1 ∷ []))
      ≡ some bs
packet_lem n bs e h =
    rw ((packsym_lem n h).0, (packsym_lem n h).1, ← e) (rw (drop-append, take-append))

module _ {S : Type 0} (transfer : Transfer S) (hw : HasFifos transfer) where
  send_bytes :
      (size : ℕ) (buf : List ℕ) (b : Bus S)
      → hw.tx (fusb_write_buf transfer fusb_fifos size buf b).chip ≡ hw.tx b.chip ++ take size buf
  unfolding fusb_write_buf
  send_bytes size buf b = hw.write_tx (take size buf) b.chip

  -- With the mutex free and the transmit FIFO empty, the send returns with the mutex free, and what
  -- it left in the FIFO is a packet with the message's bytes.
  pub fusb_send_message-wire :
      (m : PdMsg) (b : Bus S)
      → b.held ≡ false
      → hw.tx b.chip ≡ []
      → Ends
          (λ b'. (b'.held ≡ false) × (packet (hw.tx b'.chip) ≡ some (wire m)))
          (fusb_send_message transfer m b)
  unfolding fusb_send_message acquire release
  fusb_send_message-wire m b free empty = rw free (
    refl,
    rw (hw.write_tx, hw.write_tx, hw.write_tx, empty, take-msg_bytes)
        (packet_lem (2 + 4 * numobj_get m) (wire m) (length-wire m) (omega arith)),
  )

  -- A read of bytes that are there.
  pub read_front :
      (n : ℕ) (xs ys : List ℕ) (s : S)
      → hw.rx s ≡ xs ++ ys
      → length xs ≡ n
      → ((transfer (fusb_fifos ∷ []) n s).0 ≡ xs) × (hw.rx (transfer (fusb_fifos ∷ []) n s).1 ≡ ys)
  read_front n xs ys s e l = (
    hw.read_bytes n s fits ∙ rw (e, ← l) (take-append xs ys),
    hw.read_rest n s fits ∙ rw (e, ← l) (drop-append xs ys),
  )
    where
      fits : n ≤ length (hw.rx s)
      fits = rw e (omega (arith, length-append xs ys, l))
