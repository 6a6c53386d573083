-- ===== src/Led/Thread.antt =====
-- The LED blinker thread of src/led.c.
use usb_pd_firmware.Prelude.{
  ℕ, zero, suc, ◌+◌, ◌%◌, ◌*◌, ◌-◌, Bool, true, false, not, Option, none, some, List, [], ◌∷◌, ltb,
  ◌==◌, if◌then◌else◌,
}
use usb_pd_firmware.Led.{
  LedEvent, off, on, fast_blink, medium_blink_off, slow_blink, fast_blink_slow, long_blink,
}

-- `LED_FAST`, `LED_MEDIUM` and `LED_SLOW`, in milliseconds.
abbrev pub led_fast : ℕ
led_fast = 125

abbrev pub led_medium : ℕ
led_medium = 250

abbrev pub led_slow : ℕ
led_slow = 500

abbrev pub led_medium_blinks : ℕ
led_medium_blinks = 3

abbrev pub led_fast_blinks : ℕ
led_fast_blinks = 8

-- The thread's variables, the LED line, and whether the thread has signalled SLOW_BLINK to itself.
-- `TIME_INFINITE` is `none`.
pub record LedThread : Type 0 where
  pub state : LedEvent
  pub timeout : Option ℕ
  pub i : ℕ
  pub line : Bool
  pub signalled : Bool

unfoldable pub led_init : LedThread
led_init = record { state = off; timeout = none; i = 0; line = false; signalled = false }

-- A blinking mode without an end: on at first, then toggled.
abbrev pub blink : ℕ → LedThread → LedThread
blink t p = record p { timeout = some t; line = if p.i == 0 then true else not p.line }

-- The switch over the state.
unfoldable pub led_switch : LedThread → LedThread
led_switch p = elim p.state [
  | off ↦ record p { timeout = none; line = false }
  | on ↦ record p { timeout = none; line = true }
  | fast_blink ↦ blink led_fast p
  | medium_blink_off ↦
      if p.i == 0
      then record p { timeout = some led_medium; line = true }
      else if ltb p.i (led_medium_blinks * 2 - 1)
      then record p { timeout = some led_medium; line = not p.line }
      else record p { timeout = none; line = false }
  | slow_blink ↦ blink led_slow p
  | long_blink ↦ record p { timeout = some led_fast; line = not (p.i % 16 == 0) }
  | fast_blink_slow ↦
      if p.i == 0
      then record p { timeout = some led_fast; line = true }
      else if ltb p.i (led_fast_blinks * 2)
      then record p { timeout = some led_fast; line = not p.line }
      else record p { timeout = none; line = false; signalled = true }
]

-- The number of an event's bit.
abbrev pub event_bit : LedEvent → ℕ
event_bit off = 0
event_bit on = 1
event_bit fast_blink = 2
event_bit medium_blink_off = 3
event_bit slow_blink = 4
event_bit fast_blink_slow = 5
event_bit long_blink = 6

-- Whether the wait returns: it is for any event but that of the state the thread is in, or ends by
-- timeout, none.
abbrev pub is_awaited : Option LedEvent → LedThread → Bool
is_awaited (some e) p = not (event_bit e == event_bit p.state)
is_awaited none p = true

-- A new event clears all pending ones and starts its mode.
abbrev pub take_event : Option LedEvent → LedThread → LedThread
take_event (some e) p = record p { state = e; i = 0; signalled = false }
take_event none p = p

-- A round of the thread's loop. An event that is not awaited leaves the thread waiting.
unfoldable pub led_step : Option LedEvent → LedThread → LedThread
unfolding led_switch
led_step e p =
    if is_awaited e p
    then (let p' = led_switch (take_event e p) in record p' { i = p'.i + 1 })
    else p

-- The LED line after each of `n` rounds that end by timeout.
unfoldable pub blinks : ℕ → LedThread → List Bool × LedThread
unfolding led_step
blinks zero p = ([], p)
blinks (suc n) p =
    let p' = led_step none p in let (rest, last) = blinks n p' in (p'.line ∷ rest, last)
