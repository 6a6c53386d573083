-- ===== src/Fusb/Mutex.antt =====
-- The I2C driver's mutex in lib/src/fusb302b.c: each function of the driver takes it and gives it
-- back, whatever the chip answers.
use usb_pd_firmware.Prelude.{
  ◌≡◌, refl, inl, inr, true, false, Bool-cases, Option, some, List, [], ◌∷◌, ◌>>=◌, Ends, Ends->>=,
}
use usb_pd_firmware.Pd.{PdMsg}
use usb_pd_firmware.Fusb.{
  Transfer, Bus, acquire, release, fusb_read_byte, after_token, fusb_send_message,
  fusb_read_message, fusb_send_hardrst, fusb_setup, fusb_get_status, fusb_get_typec_current,
  fusb_reset,
}
use usb_pd_firmware.Fusb.Regs.{is_rx_sop}

-- The calls of the protocol layer's threads; a read is given the message that it writes to.
pub data Call : Type 0 where
  send_message : PdMsg → Call
  read_message : PdMsg → Call
  send_hardrst : Call
  setup : Call
  get_status : Call
  get_typec_current : Call
  reset : Call

module _ {S : Type 0} (transfer : Transfer S) where
  pub call : Call → Bus S → Option (Bus S)
  call (send_message m) b = fusb_send_message transfer m b
  call (read_message m) b = do (r, m', b') ← fusb_read_message transfer m b; some b'
  call send_hardrst b = fusb_send_hardrst transfer b
  call setup b = fusb_setup transfer b
  call get_status b = do (status, b') ← fusb_get_status transfer b; some b'
  call get_typec_current b = do (current, b') ← fusb_get_typec_current transfer b; some b'
  call reset b = fusb_reset transfer b

  -- Calls one after the other; `none` is a thread that waits for itself.
  pub calls : List Call → Bus S → Option (Bus S)
  unfolding call
  calls [] b = some b
  calls (c ∷ cs) b = do b' ← call c b; calls cs b'

  abbrev IsFree : Bus S → Type 0
  IsFree b = b.held ≡ false

  call-IsFree : (c : Call) (b : Bus S) → IsFree b → Ends IsFree (call c b)
  unfolding call fusb_send_message fusb_read_message fusb_send_hardrst fusb_setup fusb_get_status
      fusb_get_typec_current fusb_reset acquire release after_token
  call-IsFree (send_message m) b free = rw free refl
  call-IsFree (read_message m) b free =
      rw free
        (elim (Bool-cases (is_rx_sop (fusb_read_byte transfer 0x43 (record b { held = true })).0)) [
          | inl sop ↦ rw sop refl
          | inr other ↦ rw other refl
        ])
  call-IsFree send_hardrst b free = rw free refl
  call-IsFree setup b free = rw free refl
  call-IsFree get_status b free = rw free refl
  call-IsFree get_typec_current b free = rw free refl
  call-IsFree reset b free = rw free refl

  -- With the mutex free, any sequence of calls returns and leaves it free, for every chip.
  pub calls-Free :
      (cs : List Call) (b : Bus S) → b.held ≡ false → Ends (λ b'. b'.held ≡ false) (calls cs b)
  unfolding calls
  calls-Free [] b free = free
  calls-Free (c ∷ cs) b free =
      Ends->>= IsFree IsFree (call c b) (calls cs) (call-IsFree c b free)
        (λ b' free'. calls-Free cs b' free')
