-- ===== src/Main/Tests.antt =====
-- Presses of the button of src/main.c.
use usb_pd_firmware.Prelude.{◌+◌, ◌≡◌, refl, true, false, List, [], ◌∷◌, get_or}
use usb_pd_firmware.Dpm.Request.{pd_profiles, select_voltage}
use usb_pd_firmware.Main.{
  Event, read_line, evaluate, button_init, button_run, presses, releases, profile,
  button_run-profile,
}

-- Three presses, with an evaluation after each.
abbrev events : List Event
events =
    read_line false
    ∷ read_line true
    ∷ read_line true
    ∷ read_line false
    ∷ evaluate
    ∷ read_line true
    ∷ read_line false
    ∷ evaluate
    ∷ read_line true
    ∷ read_line false
    ∷ evaluate
    ∷ []

button_run-profile_example :
    ((select_voltage (button_run events button_init).state).0
      ≡ get_or pd_profiles (profile (presses false events)) 0)
    × ((button_run events button_init).new_power ≡ 1 + releases false events)
button_run-profile_example = button_run-profile events

-- The first press skips 9 V.
first_press :
    (select_voltage (button_run (read_line true ∷ read_line false ∷ []) button_init).state).0
    ≡ 15000
unfolding button_run select_voltage
first_press = refl
