-- ===== src/Usb.antt =====
-- src/usbcfg.c: the USB descriptors of the device, and what the USB driver is told on its events. The
-- macros of the USB driver that lay out a descriptor are a parameter.
pub mod Layout
mod Tests
use usb_pd_firmware.Prelude.{
  ℕ, ◌+◌, ◌*◌, Option, none, some, List, [], ◌∷◌, ◌++◌, bit_or, ltb, ◌==◌, if◌then◌else◌, get_or,
}

-- `USB_DESC_DEVICE` and the other macros that lay out a descriptor's fields as bytes.
pub record UsbDesc : Type 0 where
  pub device : ℕ → ℕ → ℕ → ℕ → ℕ → ℕ → ℕ → ℕ → ℕ → ℕ → ℕ → ℕ → List ℕ
  pub configuration : ℕ → ℕ → ℕ → ℕ → ℕ → ℕ → List ℕ
  pub interface : ℕ → ℕ → ℕ → ℕ → ℕ → ℕ → ℕ → List ℕ
  pub endpoint : ℕ → ℕ → ℕ → ℕ → List ℕ
  pub word : ℕ → List ℕ
  pub bcd : ℕ → List ℕ

abbrev pub usbd1_data_request_ep : ℕ
usbd1_data_request_ep = 1

abbrev pub usbd1_data_available_ep : ℕ
usbd1_data_available_ep = 1

abbrev pub usbd1_interrupt_request_ep : ℕ
usbd1_interrupt_request_ep = 2

-- The descriptor types of a request, from the USB specification.
abbrev pub usb_descriptor_device : ℕ
usb_descriptor_device = 1

abbrev pub usb_descriptor_configuration : ℕ
usb_descriptor_configuration = 2

abbrev pub usb_descriptor_string : ℕ
usb_descriptor_string = 3

-- The characters of a string descriptor, each of two bytes.
unfoldable pub wide : List ℕ → List ℕ
wide [] = []
wide (c ∷ cs) = c ∷ 0 ∷ wide cs

module _ (desc : UsbDesc) where
  unfoldable pub vcom_device_descriptor_data : List ℕ
  vcom_device_descriptor_data = desc.device 0x0110 0x02 0x00 0x00 0x40 0x1209 0x9db5 0x0200 1 2 3 1

  unfoldable pub header_functional : List ℕ
  header_functional = 5 ∷ 0x24 ∷ 0x00 ∷ desc.bcd 0x0110

  unfoldable pub call_management_functional : List ℕ
  call_management_functional = 5 ∷ 0x24 ∷ 0x01 ∷ 0x00 ∷ 0x01 ∷ []

  unfoldable pub acm_functional : List ℕ
  acm_functional = 4 ∷ 0x24 ∷ 0x02 ∷ 0x02 ∷ []

  unfoldable pub union_functional : List ℕ
  union_functional = 5 ∷ 0x24 ∷ 0x06 ∷ 0x00 ∷ 0x01 ∷ []

  unfoldable pub vcom_configuration_descriptor_data : List ℕ
  unfolding header_functional call_management_functional acm_functional union_functional
  vcom_configuration_descriptor_data =
      desc.configuration 76 0x03 0x01 0 0xc0 50
      ++ (desc.interface 0x00 0x00 0x01 0x02 0x02 0x01 0
          ++ (header_functional
              ++ (call_management_functional
                  ++ (acm_functional
                      ++ (union_functional
                          ++ (desc.endpoint (bit_or usbd1_interrupt_request_ep 0x80) 0x03 0x0008
                                0xff
                              ++ (desc.interface 0x01 0x00 0x02 0x0a 0x00 0x00 0x00
                                  ++ (desc.endpoint usbd1_data_available_ep 0x02 0x0040 0x00
                                      ++ (desc.endpoint (bit_or usbd1_data_request_ep 0x80) 0x02
                                            0x0040 0x00
                                          ++ desc.interface 0x02 0x00 0x00 0xff 70 87 3)))))))))

  unfoldable pub vcom_string0 : List ℕ
  vcom_string0 = 4 ∷ usb_descriptor_string ∷ desc.word 0x0409

  -- "PD Buddy"
  unfoldable pub vcom_string1 : List ℕ
  unfolding wide
  vcom_string1 = 18 ∷ usb_descriptor_string ∷ wide (80 ∷ 68 ∷ 32 ∷ 66 ∷ 117 ∷ 100 ∷ 100 ∷ 121 ∷ [])

  -- "Sink"
  unfoldable pub vcom_string2 : List ℕ
  unfolding wide
  vcom_string2 = 10 ∷ usb_descriptor_string ∷ wide (83 ∷ 105 ∷ 110 ∷ 107 ∷ [])

  -- "1.3.0-dev"
  unfoldable pub vcom_string3 : List ℕ
  unfolding wide
  vcom_string3 =
      20 ∷ usb_descriptor_string ∷ wide (49 ∷ 46 ∷ 51 ∷ 46 ∷ 48 ∷ 45 ∷ 100 ∷ 101 ∷ 118 ∷ [])

  unfoldable pub vcom_strings : List (List ℕ)
  unfolding vcom_string0 vcom_string1 vcom_string2 vcom_string3
  vcom_strings = vcom_string0 ∷ vcom_string1 ∷ vcom_string2 ∷ vcom_string3 ∷ []

  -- NULL is `none`.
  unfoldable pub get_descriptor : ℕ → ℕ → Option (List ℕ)
  unfolding vcom_device_descriptor_data vcom_configuration_descriptor_data vcom_strings
  get_descriptor dtype dindex =
      if dtype == usb_descriptor_device
      then some vcom_device_descriptor_data
      else if dtype == usb_descriptor_configuration
      then some vcom_configuration_descriptor_data
      else if dtype == usb_descriptor_string
      then (if ltb dindex 4 then some (get_or vcom_strings dindex []) else none)
      else none

-- `USBEndpointConfig`, as far as the source sets it: the transfer type and the packet sizes.
pub record EndpointConfig : Type 0 where
  pub ep_mode : ℕ
  pub in_maxsize : ℕ
  pub out_maxsize : ℕ

-- `USB_EP_MODE_TYPE_BULK` and `_INTR`, with the numbers of the USB specification.
abbrev pub ep1config : EndpointConfig
ep1config = record { ep_mode = 2; in_maxsize = 0x0040; out_maxsize = 0x0040 }

abbrev pub ep2config : EndpointConfig
ep2config = record { ep_mode = 3; in_maxsize = 0x0010; out_maxsize = 0x0000 }

pub data UsbEvent : Type 0 where
  event_address event_configured event_reset event_unconfigured : UsbEvent
  event_suspend event_wakeup event_stalled : UsbEvent

-- The calls of the USB and serial drivers.
pub data UsbCall : Type 0 where
  usb_init_endpoint : ℕ → EndpointConfig → UsbCall
  sdu_configure_hook sdu_suspend_hook sdu_wakeup_hook : UsbCall

unfoldable pub usb_event : UsbEvent → List UsbCall
usb_event event_address = []
usb_event event_configured =
    usb_init_endpoint usbd1_data_request_ep ep1config
    ∷ usb_init_endpoint usbd1_interrupt_request_ep ep2config
    ∷ sdu_configure_hook
    ∷ []
usb_event event_reset = sdu_suspend_hook ∷ []
usb_event event_unconfigured = sdu_suspend_hook ∷ []
usb_event event_suspend = sdu_suspend_hook ∷ []
usb_event event_wakeup = sdu_wakeup_hook ∷ []
usb_event event_stalled = []
