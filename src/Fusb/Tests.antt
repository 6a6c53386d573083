-- ===== src/Fusb/Tests.antt =====
-- A concrete FUSB302B, and the driver of lib/src/fusb302b.c with it.
use usb_pd_firmware.Prelude.{
  ℕ, ◌^◌, ◌<◌, ◌≡◌, ◌≢◌, refl, false, ◌==◌, if◌then◌else◌, some, List, [], ◌∷◌, ◌++◌, append-nil,
  get_or, take, drop, Ends, arith, zero, suc,
}
use usb_pd_firmware.Pd.{PdMsg, obj_at}
use usb_pd_firmware.Fusb.{
  Transfer, Bus, fusb_send_message, fusb_read_message, fusb_setup, acquire, release, fusb_write_buf,
  msg_bytes, obj_bytes,
}
use usb_pd_firmware.Fusb.Regs.{
  fusb_fifos, fusb_reset_reg, fusb_status0, fusb_switches0, meas_cc1, bc_lvl,
}
use usb_pd_firmware.Fusb.Chip.{HasFifos, HasRegisters}
use usb_pd_firmware.Fusb.Message.{wire, packet, fusb_send_message-wire}
use usb_pd_firmware.Fusb.Receive.{IsWords, Received}
use usb_pd_firmware.Fusb.Wire.{fusb_read_message-fusb_send_message}
use usb_pd_firmware.Fusb.Setup.{IsSetUp, fusb_setup-IsSetUp}
use usb_pd_firmware.Fusb.Mutex.{send_message, setup, get_status, reset, calls, calls-Free}

-- A chip whose first CC line is at level 2, and whose second is at 0.
record Fusb302b : Type 0 where
  rx : List ℕ
  tx : List ℕ
  reg : ℕ → ℕ

abbrev write_byte : ℕ → ℕ → Fusb302b → Fusb302b
write_byte r v s =
    if r == fusb_reset_reg then s else record s { reg = λ q. if q == r then v else s.reg q }

abbrev level : Fusb302b → ℕ
level s = if meas_cc1 (s.reg fusb_switches0) then 2 else 0

abbrev fifo : List ℕ → ℕ → Fusb302b → List ℕ × Fusb302b
fifo [] n s = (take n s.rx, record s { rx = drop n s.rx })
fifo (b ∷ bs) n s = ([], record s { tx = s.tx ++ (b ∷ bs) })

abbrev transfer : Transfer Fusb302b
transfer [] n s = ([], s)
transfer (r ∷ []) n s = if r == fusb_fifos then fifo [] n s else (level s ∷ [], s)
transfer (r ∷ v ∷ rest) n s =
    if r == fusb_fifos then fifo (v ∷ rest) n s else ([], write_byte r v s)

write_tx : (bs : List ℕ) (s : Fusb302b) → (transfer (fusb_fifos ∷ bs) 0 s).1.tx ≡ s.tx ++ bs
write_tx [] s = rw append-nil
write_tx (b ∷ bs) s = refl

abbrev fifos : HasFifos transfer
fifos = record {
  rx = λ s. s.rx;
  tx = λ s. s.tx;
  write_tx = write_tx;
  read_bytes = λ n s h. refl;
  read_rest = λ n s h. refl;
}

write_reg :
    (r v : ℕ) (s : Fusb302b) (q : ℕ)
    → r ≢ fusb_reset_reg
    → r ≢ fusb_fifos
    → (transfer (r ∷ v ∷ []) 0 s).1.reg q ≡ (if q == r then v else s.reg q)
write_reg r v s q h k = ground arith

read_level :
    (s : Fusb302b)
    → bc_lvl (get_or (transfer (fusb_status0 ∷ []) 1 s).0 0 0)
      ≡ (if meas_cc1 (s.reg fusb_switches0) then 2 else 0)
read_level s = ground arith

abbrev registers : HasRegisters transfer 2 0
registers = record {
  reg = λ s. s.reg;
  write_reg = write_reg;
  pd_reset = λ s q. refl;
  read_kept = λ s q. refl;
  read_level = read_level;
}

-- A Request: type 2, MessageID 3, one data object.
abbrev request : PdMsg
request = record { hdr = 0x1642; obj = 0x1304b12c ∷ 0 ∷ 0 ∷ 0 ∷ 0 ∷ 0 ∷ 0 ∷ [] }

abbrev unused : PdMsg
unused = record { hdr = 0; obj = 9 ∷ 9 ∷ 9 ∷ 9 ∷ 9 ∷ 9 ∷ 9 ∷ [] }

abbrev idle : Bus Fusb302b
idle = record { chip = record { rx = []; tx = []; reg = λ q. 0 }; held = false }

-- The Request in the receive FIFO, and the first byte of another message.
abbrev waiting : Bus Fusb302b
waiting = record idle {
  chip = record {
    rx = 0xf2 ∷ 0x42 ∷ 0x16 ∷ 0x2c ∷ 0xb1 ∷ 0x04 ∷ 0x13 ∷ 1 ∷ 2 ∷ 3 ∷ 4 ∷ 0xe0 ∷ [];
    tx = [];
    reg = λ q. 0;
  };
}

request_words : (i : ℕ) → obj_at request i < 2 ^ 32
request_words zero = omega arith
request_words (suc zero) = omega arith
request_words (suc (suc zero)) = omega arith
request_words (suc (suc (suc zero))) = omega arith
request_words (suc (suc (suc (suc zero)))) = omega arith
request_words (suc (suc (suc (suc (suc zero))))) = omega arith
request_words (suc (suc (suc (suc (suc (suc zero)))))) = omega arith
request_words (suc (suc (suc (suc (suc (suc (suc i))))))) = omega arith

request-IsWords : IsWords request
request-IsWords = record { halfword = omega arith; words = request_words }

fusb_send_message-wire_example :
    Ends
      (λ b'. (b'.held ≡ false) × (packet (b'.chip.tx) ≡ some (wire request)))
      (fusb_send_message transfer request idle)
fusb_send_message-wire_example = fusb_send_message-wire transfer fifos request idle refl refl

-- The bus after the Request was sent.
abbrev after : Bus Fusb302b
after = record idle {
  chip = record {
    rx = [];
    tx =
        0x12 ∷ 0x12 ∷ 0x12 ∷ 0x13 ∷ 0x86 ∷ 0x42 ∷ 0x16 ∷ 0x2c ∷ 0xb1 ∷ 0x04 ∷ 0x13 ∷ 0xff ∷ 0x14
        ∷ 0xfe ∷ 0xa1 ∷ [];
    reg = λ q. 0;
  };
}

request_sent : fusb_send_message transfer request idle ≡ some after
unfolding fusb_send_message acquire release fusb_write_buf msg_bytes obj_bytes
request_sent = refl

fusb_read_message-fusb_send_message_example :
    Ends
      (λ r. (r.0 ≡ 0) × Received transfer fifos request (0xe0 ∷ []) r.1 r.2 × (r.2.held ≡ false))
      (fusb_read_message transfer unused waiting)
fusb_read_message-fusb_send_message_example =
    fusb_read_message-fusb_send_message transfer fifos request unused idle after waiting 0xf2
      (1 ∷ 2 ∷ 3 ∷ 4 ∷ []) (0xe0 ∷ []) refl refl request_sent request-IsWords refl refl refl refl
      refl

fusb_setup-IsSetUp_example : Ends (IsSetUp transfer 2 0 registers) (fusb_setup transfer idle)
fusb_setup-IsSetUp_example = fusb_setup-IsSetUp transfer 2 0 registers idle refl

calls-Free_example :
    Ends
      (λ b'. b'.held ≡ false)
      (calls transfer (setup ∷ send_message request ∷ get_status ∷ reset ∷ []) idle)
calls-Free_example =
    calls-Free transfer (setup ∷ send_message request ∷ get_status ∷ reset ∷ []) idle refl
