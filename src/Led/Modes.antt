-- ===== src/Led/Modes.antt =====
-- What the modes of src/led.c show.
use usb_pd_firmware.Prelude.{◌≡◌, refl, true, false, none, some, [], ◌∷◌}
use usb_pd_firmware.Led.{fast_blink_slow}
use usb_pd_firmware.Led.Thread.{LedThread, is_awaited, led_switch, led_step, blinks}

-- The mode that identifies a board, from any other mode: eight fast blinks, then the LED is off and
-- the thread has signalled the slow blinking mode to itself.
pub fast_blinks :
    (p : LedThread)
    → is_awaited (some fast_blink_slow) p ≡ true
    → ((led_step (some fast_blink_slow) p).line ≡ true)
      × (blinks 16 (led_step (some fast_blink_slow) p) ≡ (
        false ∷ true ∷ false ∷ true ∷ false ∷ true ∷ false ∷ true ∷ false ∷ true ∷ false ∷ true
            ∷ false ∷ true ∷ false ∷ false ∷ [],
        record p {
          state = fast_blink_slow;
          timeout = none;
          i = 17;
          line = false;
          signalled = true;
        },
      ))
unfolding blinks led_step led_switch
fast_blinks p other = rw other (refl, refl)
