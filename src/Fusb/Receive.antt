-- ===== src/Fusb/Receive.antt =====
-- `fusb_read_message` of lib/src/fusb302b.c: the message is read back, and nothing after it.
use usb_pd_firmware.Prelude.{
  ℕ, zero, suc, ◌+◌, ◌*◌, ◌/◌, ◌%◌, ◌^◌, ◌≤◌, ◌<◌, ◌≡◌, refl, ap, ◌∙◌, inl, inr, true, false, ◌&&◌,
  leb, ltb, ◌==◌, ==_iff, Bool-cases, if◌then◌else◌, List, [], ◌∷◌, ◌++◌, length, get_or, set,
  length-set, get_or-set_self, get_or-set_ne, Ends, arith,
}
use usb_pd_firmware.Pd.{PdMsg, obj_at, numobj_get}
use usb_pd_firmware.Fusb.{
  Transfer, Bus, bytes16, obj_bytes, store_objs, acquire, release, fusb_read_byte, fusb_read_buf,
  read_objs, read_packet, after_token, fusb_read_message,
}
use usb_pd_firmware.Fusb.Regs.{fusb_fifos, is_rx_sop}
use usb_pd_firmware.Fusb.Chip.{HasFifos}
use usb_pd_firmware.Fusb.Message.{wire, length-obj_bytes, read_front}

-- The header is a halfword, the data objects are words.
pub record IsWords (m : PdMsg) : Type 0 where
  pub halfword : m.hdr < 2 ^ 16
  pub words : (i : ℕ) → obj_at m i < 2 ^ 32

word_lem :
    (x : ℕ)
    → x < 2 ^ 32
    → x % 2 ^ 8
        + x / 2 ^ 8 % 2 ^ 8 * 2 ^ 8
        + x / 2 ^ 16 % 2 ^ 8 * 2 ^ 16
        + x / 2 ^ 24 % 2 ^ 8 * 2 ^ 24
      ≡ x
word_lem x h = omega arith

halfword_lem : (x : ℕ) → x < 2 ^ 16 → x % 2 ^ 8 + x / 2 ^ 8 % 2 ^ 8 * 2 ^ 8 ≡ x
halfword_lem x h = omega arith

get_or-set_if :
    (os : List ℕ) (i j v : ℕ)
    → i < length os
    → get_or (set os i v) j 0 ≡ (if i == j then v else get_or os j 0)
get_or-set_if os i j v h = elim (Bool-cases (i == j)) [
  | inl same ↦ rw same (rw (← (==_iff i j).0 same) (get_or-set_self os i v 0 h))
  | inr other ↦ rw other (get_or-set_ne os i j v 0 (λ p. ground arith))
]

-- The objects that a write of bytes leaves.
store_objs-get_or :
    (n i j : ℕ) (m : PdMsg) (os : List ℕ)
    → IsWords m
    → i + n ≤ length os
    → get_or (store_objs i (obj_bytes n i m) os) j 0
      ≡ (if leb i j && ltb j (i + n) then obj_at m j else get_or os j 0)
unfolding store_objs obj_bytes
store_objs-get_or zero i j m os ok fits = ground arith
store_objs-get_or (suc n) i j m os ok fits = rw (word_lem (obj_at m i) (ok.words i)) (
    store_objs-get_or n (i + 1) j m (set os i (obj_at m i)) ok
      (omega (arith, length-set os i (obj_at m i)))
    ∙ ground (arith, get_or-set_if os i j (obj_at m i)))

module _ {S : Type 0} (transfer : Transfer S) (hw : HasFifos transfer) where
  -- What a read message has to be: `m`, where `m` has data objects, and with the FIFO read up to
  -- `rest`.
  pub record Received (m : PdMsg) (rest : List ℕ) (m' : PdMsg) (b' : Bus S) : Type 0 where
    pub header : m'.hdr ≡ m.hdr
    pub objects : (i : ℕ) → i < numobj_get m → obj_at m' i ≡ obj_at m i
    pub left : hw.rx b'.chip ≡ rest

  read_objs_lem :
      (m msg : PdMsg) (b : Bus S) (rest : List ℕ)
      → IsWords m
      → length msg.obj ≡ 7
      → hw.rx b.chip ≡ obj_bytes (numobj_get m) 0 m ++ rest
      → ((i : ℕ)
          → i < numobj_get m
          → obj_at (read_objs transfer (numobj_get m) msg b).0 i ≡ obj_at m i)
        × ((read_objs transfer (numobj_get m) msg b).0.hdr ≡ msg.hdr)
        × (hw.rx (read_objs transfer (numobj_get m) msg b).1.chip ≡ rest)
  unfolding read_objs fusb_read_buf obj_bytes
  read_objs_lem m msg b rest ok room e = elim (Bool-cases (ltb 0 (numobj_get m))) [
    | inl some_objs ↦ rw some_objs (
      λ i h.
          rw front.0 (
            store_objs-get_or (numobj_get m) 0 i m msg.obj ok (omega (arith, room)) ∙ ground arith),
      refl,
      front.1,
    )
    | inr no_objs ↦ rw no_objs (λ i h. absurd (ground arith), refl, e ∙ none_there no_objs)
  ]
    where
      none_there : ltb 0 (numobj_get m) ≡ false → obj_bytes (numobj_get m) 0 m ++ rest ≡ rest
      none_there h =
          let zero_objs : numobj_get m ≡ 0 = ground arith in
          ap (λ n. obj_bytes n 0 m ++ rest) zero_objs

      front :
          ((transfer (fusb_fifos ∷ []) (numobj_get m * 4) b.chip).0 ≡ obj_bytes (numobj_get m) 0 m)
          × (hw.rx (transfer (fusb_fifos ∷ []) (numobj_get m * 4) b.chip).1 ≡ rest)
      front =
          read_front transfer hw (numobj_get m * 4) (obj_bytes (numobj_get m) 0 m) rest b.chip e
            (omega (arith, length-obj_bytes (numobj_get m) 0 m))

  read_packet-Received :
      (m msg : PdMsg) (b : Bus S) (crc rest : List ℕ)
      → IsWords m
      → length msg.obj ≡ 7
      → length crc ≡ 4
      → hw.rx b.chip ≡ wire m ++ (crc ++ rest)
      → Received m rest (read_packet transfer msg b).0 (read_packet transfer msg b).1
  unfolding read_packet fusb_read_buf wire
  read_packet-Received m msg b crc rest ok room four e =
      let objs =
        read_objs_lem m (record msg { hdr = m.hdr })
          (record b { chip = (transfer (fusb_fifos ∷ []) 2 b.chip).1 }) (crc ++ rest) ok room
          header.1 in
      rw (header.0, halfword_lem m.hdr ok.halfword)
        (record {
          header = objs.1;
          objects = objs.0;
          left = (read_front transfer hw 4 crc rest _ objs.2 four).1;
        })
    where
      header :
          ((transfer (fusb_fifos ∷ []) 2 b.chip).0 ≡ bytes16 m.hdr)
          × (hw.rx (transfer (fusb_fifos ∷ []) 2 b.chip).1
              ≡ obj_bytes (numobj_get m) 0 m ++ (crc ++ rest))
      header =
          read_front transfer hw 2 (bytes16 m.hdr) (obj_bytes (numobj_get m) 0 m ++ (crc ++ rest))
            b.chip e refl

  -- A message in the receive FIFO, after an SOP token and before its CRC: with the mutex free, the
  -- read returns 0 and the message, leaves what follows it, and frees the mutex.
  pub fusb_read_message-Received :
      (m msg : PdMsg) (b : Bus S) (token : ℕ) (crc rest : List ℕ)
      → b.held ≡ false
      → IsWords m
      → length msg.obj ≡ 7
      → length crc ≡ 4
      → is_rx_sop token ≡ true
      → hw.rx b.chip ≡ token ∷ (wire m ++ (crc ++ rest))
      → Ends
          (λ r. (r.0 ≡ 0) × Received m rest r.1 r.2 × (r.2.held ≡ false))
          (fusb_read_message transfer msg b)
  unfolding fusb_read_message acquire release fusb_read_byte after_token
  fusb_read_message-Received m msg b token crc rest free ok room four sop e =
      let got =
        read_packet-Received m msg
          (record { chip = (transfer (fusb_fifos ∷ []) 1 b.chip).1; held = true }) crc rest ok room
          four front.1 in
      rw (free, front.0, sop)
        (refl, record { header = got.header; objects = got.objects; left = got.left }, refl)
    where
      front :
          ((transfer (fusb_fifos ∷ []) 1 b.chip).0 ≡ token ∷ [])
          × (hw.rx (transfer (fusb_fifos ∷ []) 1 b.chip).1 ≡ wire m ++ (crc ++ rest))
      front = read_front transfer hw 1 (token ∷ []) (wire m ++ (crc ++ rest)) b.chip e refl
