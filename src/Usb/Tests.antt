-- ===== src/Usb/Tests.antt =====
-- The descriptors with the layouts of the USB specification.
use usb_pd_firmware.Prelude.{◌≡◌, refl, ◌⊎◌, true, false, none, Ends}
use usb_pd_firmware.Usb.{get_descriptor}
use usb_pd_firmware.Usb.Layout.{
  standard, HasLayout, WellFormed, is_served, get_descriptor-WellFormed,
}

abbrev standard_layout : HasLayout standard
standard_layout = record {
  device = λ usb class subclass protocol max_packet vendor product release m p s n. refl;
  configuration = λ total interfaces value name attributes power. refl;
  interface = λ number alternate endpoints class subclass protocol name. refl;
  endpoint = λ address attributes max_packet interval. refl;
  word = λ x. refl;
  bcd = λ x. refl;
}

get_descriptor-WellFormed_example :
    ((is_served 3 2 ≡ true) × Ends (WellFormed 3) (get_descriptor standard 3 2))
    ⊎ ((is_served 3 2 ≡ false) × (get_descriptor standard 3 2 ≡ none))
get_descriptor-WellFormed_example = get_descriptor-WellFormed standard standard_layout 3 2
