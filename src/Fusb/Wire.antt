-- ===== src/Fusb/Wire.antt =====
-- A message from one FUSB302B to another, with the driver of lib/src/fusb302b.c on both sides.
use mathlib.Core.Path.{subst}
use usb_pd_firmware.Prelude.{
  ℕ, ◌≡◌, true, false, Option, none, some, List, [], ◌∷◌, ◌++◌, length, Ends, ◌∙◌, ap,
}
use usb_pd_firmware.Pd.{PdMsg}
use usb_pd_firmware.Fusb.{Transfer, Bus, fusb_send_message, fusb_read_message}
use usb_pd_firmware.Fusb.Regs.{is_rx_sop}
use usb_pd_firmware.Fusb.Chip.{HasFifos}
use usb_pd_firmware.Fusb.Message.{wire, packet, fusb_send_message-wire}
use usb_pd_firmware.Fusb.Receive.{IsWords, Received, fusb_read_message-Received}

-- What the receiving chip puts into its FIFO for a packet in the transmit FIFO of the sending one:
-- a token, the bytes of the packet, and the CRC; then other bytes. Without a packet, only these.
abbrev pub carried : ℕ → List ℕ → List ℕ → Option (List ℕ) → List ℕ
carried token crc rest none = rest
carried token crc rest (some bytes) = token ∷ (bytes ++ (crc ++ rest))

module _ {S : Type 0} (transfer : Transfer S) (hw : HasFifos transfer) where
  sent-wire :
      (m : PdMsg) (b b' : Bus S)
      → b.held ≡ false
      → hw.tx b.chip ≡ []
      → fusb_send_message transfer m b ≡ some b'
      → packet (hw.tx b'.chip) ≡ some (wire m)
  sent-wire m b b' free empty sent = made.1
    where
      made : (b'.held ≡ false) × (packet (hw.tx b'.chip) ≡ some (wire m))
      made =
          subst (λ o. Ends (λ b'. (b'.held ≡ false) × (packet (hw.tx b'.chip) ≡ some (wire m))) o)
            sent (fusb_send_message-wire transfer hw m b free empty)

  -- With both mutexes free and an empty transmit FIFO: if the sending driver leaves its bus as `b'`,
  -- and the receiving chip has in its FIFO what was carried there, behind a token for SOP and before
  -- a CRC of four bytes, then the receiving driver returns 0 and the message that was sent, with its
  -- header and the data objects that this counts, leaves what follows it, and frees the mutex.
  pub fusb_read_message-fusb_send_message :
      (m msg : PdMsg) (b b' c : Bus S) (token : ℕ) (crc rest : List ℕ)
      → b.held ≡ false
      → hw.tx b.chip ≡ []
      → fusb_send_message transfer m b ≡ some b'
      → IsWords m
      → length msg.obj ≡ 7
      → length crc ≡ 4
      → is_rx_sop token ≡ true
      → c.held ≡ false
      → hw.rx c.chip ≡ carried token crc rest (packet (hw.tx b'.chip))
      → Ends
          (λ r. (r.0 ≡ 0) × Received transfer hw m rest r.1 r.2 × (r.2.held ≡ false))
          (fusb_read_message transfer msg c)
  fusb_read_message-fusb_send_message m msg b b' c token crc rest free empty sent ok room four sop
        idle there =
      fusb_read_message-Received transfer hw m msg c token crc rest idle ok room four sop
        (there ∙ ap (carried token crc rest) (sent-wire m b b' free empty sent))
