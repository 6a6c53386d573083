-- ===== src/Usb/Layout.antt =====
-- How a host reads the descriptors of src/usbcfg.c: one after the other by their first byte.
use usb_pd_firmware.Prelude.{
  ℕ, zero, suc, ◌+◌, ◌-◌, ◌*◌, ◌/◌, ◌%◌, ◌^◌, ◌<◌, ◌≡◌, ◌⊎◌, inl, inr, refl, Bool, true, false,
  ◌&&◌, ◌||◌, leb, ltb, ◌==◌, if◌then◌else◌, Option, none, some, List, [], ◌∷◌, ◌++◌, length, drop,
  get_or, arith, Ends, Bool-cases, ◌>>=◌, take,
}
use usb_pd_firmware.Usb.{
  UsbDesc, get_descriptor, vcom_device_descriptor_data, vcom_configuration_descriptor_data,
  vcom_strings, vcom_string0, vcom_string1, vcom_string2, vcom_string3, header_functional,
  call_management_functional, acm_functional, union_functional, wide, usb_descriptor_configuration,
}

abbrev halfword : ℕ → List ℕ
halfword x = x % 2 ^ 8 ∷ x / 2 ^ 8 % 2 ^ 8 ∷ []

-- The layouts of the USB specification.
abbrev pub standard : UsbDesc
standard = record {
  device = λ usb class subclass protocol max_packet vendor product release m p s n.
      18
      ∷ 1
      ∷ (halfword usb
          ++ (class
              ∷ subclass
              ∷ protocol
              ∷ max_packet
              ∷ (halfword vendor
                  ++ (halfword product ++ (halfword release ++ (m ∷ p ∷ s ∷ n ∷ []))))));
  configuration = λ total interfaces value name attributes power.
      9 ∷ 2 ∷ (halfword total ++ (interfaces ∷ value ∷ name ∷ attributes ∷ power ∷ []));
  interface = λ number alternate endpoints class subclass protocol name.
      9 ∷ 4 ∷ number ∷ alternate ∷ endpoints ∷ class ∷ subclass ∷ protocol ∷ name ∷ [];
  endpoint = λ address attributes max_packet interval.
      7 ∷ 5 ∷ address ∷ attributes ∷ (halfword max_packet ++ (interval ∷ []));
  word = halfword;
  bcd = halfword;
}

-- The macros lay the fields out in this way.
pub record HasLayout (desc : UsbDesc) : Type 0 where
  pub device :
      (usb class subclass protocol max_packet vendor product release m p s n : ℕ)
      → desc.device usb class subclass protocol max_packet vendor product release m p s n
        ≡ standard.device usb class subclass protocol max_packet vendor product release m p s n
  pub configuration :
      (total interfaces value name attributes power : ℕ)
      → desc.configuration total interfaces value name attributes power
        ≡ standard.configuration total interfaces value name attributes power
  pub interface :
      (number alternate endpoints class subclass protocol name : ℕ)
      → desc.interface number alternate endpoints class subclass protocol name
        ≡ standard.interface number alternate endpoints class subclass protocol name
  pub endpoint :
      (address attributes max_packet interval : ℕ)
      → desc.endpoint address attributes max_packet interval
        ≡ standard.endpoint address attributes max_packet interval
  pub word : (x : ℕ) → desc.word x ≡ halfword x
  pub bcd : (x : ℕ) → desc.bcd x ≡ halfword x

-- The descriptors in `bs`, split where their lengths say; none if a length does not fit. The count
-- of the bytes is enough rounds, since a descriptor has two bytes at least.
unfoldable pub descriptors : ℕ → List ℕ → Option (List (List ℕ))
descriptors n [] = some []
descriptors zero (l ∷ bs) = none
descriptors (suc n) (l ∷ bs) =
    let rest = descriptors n (drop (l - 1) bs) in
    if ltb 1 l && leb l (suc (length bs))
    then (rest >>= λ ds. some ((l ∷ take (l - 1) bs) ∷ ds))
    else none

-- The length that the first descriptor states for all that is returned: a configuration's
-- wTotalLength, else its own length.
abbrev pub stated_length : ℕ → List ℕ → ℕ
stated_length dtype d =
    if dtype == usb_descriptor_configuration
    then get_or d 2 0 + get_or d 3 0 * 2 ^ 8
    else get_or d 0 0

pub record WellFormed (dtype : ℕ) (d : List ℕ) : Type 0 where
  pub total : stated_length dtype d ≡ length d
  pub kind : get_or d 1 0 ≡ dtype
  pub split : Ends (λ ds. Unit {0}) (descriptors (length d) d)

-- The requests that the device answers.
abbrev pub is_served : ℕ → ℕ → Bool
is_served dtype dindex = dtype == 1 || dtype == 2 || (dtype == 3 && ltb dindex 4)

module _ (desc : UsbDesc) (hw : HasLayout desc) where
  device-standard : vcom_device_descriptor_data desc ≡ vcom_device_descriptor_data standard
  unfolding vcom_device_descriptor_data
  device-standard = rw hw.device refl

  configuration-standard :
      vcom_configuration_descriptor_data desc ≡ vcom_configuration_descriptor_data standard
  unfolding vcom_configuration_descriptor_data header_functional
  configuration-standard =
      rw
        (
          hw.configuration, hw.interface, hw.interface, hw.interface, hw.endpoint, hw.endpoint,
          hw.endpoint, hw.bcd,
        )
        refl

  strings-standard : vcom_strings desc ≡ vcom_strings standard
  unfolding vcom_strings vcom_string0
  strings-standard = rw hw.word refl

device-WellFormed : WellFormed 1 (vcom_device_descriptor_data standard)
unfolding vcom_device_descriptor_data descriptors
device-WellFormed = record { total = refl; kind = refl; split = tt }

configuration-WellFormed : WellFormed 2 (vcom_configuration_descriptor_data standard)
unfolding vcom_configuration_descriptor_data header_functional call_management_functional
    acm_functional union_functional descriptors
configuration-WellFormed = record { total = refl; kind = refl; split = tt }

strings-WellFormed : (i : ℕ) → i < 4 → WellFormed 3 (get_or (vcom_strings standard) i [])
unfolding vcom_strings vcom_string0 vcom_string1 vcom_string2 vcom_string3 wide descriptors
strings-WellFormed zero h = record { total = refl; kind = refl; split = tt }
strings-WellFormed (suc zero) h = record { total = refl; kind = refl; split = tt }
strings-WellFormed (suc (suc zero)) h = record { total = refl; kind = refl; split = tt }
strings-WellFormed (suc (suc (suc zero))) h = record { total = refl; kind = refl; split = tt }
strings-WellFormed (suc (suc (suc (suc i)))) h = absurd (omega arith)

string-WellFormed :
    (desc : UsbDesc) (hw : HasLayout desc) (i : ℕ)
    → i < 4
    → WellFormed 3 (get_or (vcom_strings desc) i [])
string-WellFormed desc hw i h = rw (strings-standard desc hw) (strings-WellFormed i h)

-- With the layouts of the USB specification: a request for the device's or the configuration
-- descriptor, or for a string below 4, returns a descriptor of that type, of as many bytes as it
-- states, a configuration's being its wTotalLength, and it is a series of whole descriptors; any
-- other request returns NULL.
pub get_descriptor-WellFormed :
    (desc : UsbDesc) (hw : HasLayout desc) (dtype dindex : ℕ)
    → ((is_served dtype dindex ≡ true) × Ends (WellFormed dtype) (get_descriptor desc dtype dindex))
      ⊎ ((is_served dtype dindex ≡ false) × (get_descriptor desc dtype dindex ≡ none))
unfolding get_descriptor
get_descriptor-WellFormed desc hw zero dindex = inr (refl, refl)
get_descriptor-WellFormed desc hw (suc zero) dindex =
    inl (refl, rw (device-standard desc hw) device-WellFormed)
get_descriptor-WellFormed desc hw (suc (suc zero)) dindex =
    inl (refl, rw (configuration-standard desc hw) configuration-WellFormed)
get_descriptor-WellFormed desc hw (suc (suc (suc zero))) dindex = elim (Bool-cases (ltb dindex 4)) [
  | inl there ↦ rw there (inl (refl, string-WellFormed desc hw dindex (ground (arith, there))))
  | inr missing ↦ rw missing (inr (refl, refl))
]
get_descriptor-WellFormed desc hw (suc (suc (suc (suc n)))) dindex =
    inr (ground arith, ground arith)
