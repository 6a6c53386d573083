-- ===== src/Led.antt =====
-- src/led.h and src/led.c: the events of the LED thread; the thread itself is in the children.
pub mod Thread
pub mod Modes
mod Tests

pub data LedEvent : Type 0 where
  off on fast_blink medium_blink_off slow_blink fast_blink_slow long_blink : LedEvent

-- Semantic event names.
abbrev pub config : LedEvent
config = slow_blink

abbrev pub identify : LedEvent
identify = fast_blink_slow

abbrev pub negotiating : LedEvent
negotiating = fast_blink

abbrev pub output_on : LedEvent
output_on = medium_blink_off

abbrev pub output_off : LedEvent
output_off = on

abbrev pub output_off_no_typec : LedEvent
output_off_no_typec = long_blink
