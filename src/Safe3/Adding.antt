-- ===== src/Safe3/Adding.antt =====
-- The interfaces that Core adds in platform/safe3/usb_supervisor.c: usb_webusb_add and usb_hid_add.
-- (usb_vcp_add always refuses.)
pub mod Again
use virtual_trezor.Prelude.{
  ℕ, ◌+◌, ◌%◌, Bool, true, false, not, ◌&&◌, Option, none, some, List, [], ◌∷◌, get_elem?, set, leb,
  ◌==◌, if◌then◌else◌,
}
use virtual_trezor.Exec.{◌>>=◌, ◌>>◌, pure}
use virtual_trezor.Safe3.State.{
  Worker, Driver, Interface, InterfaceType, PersonalityInterface, webusb, hid, modify_usb,
  max_interfaces, built_interface, built_compatible_id,
}
use virtual_trezor.Safe3.Endpoints.{get_usb, is_disabled}
use virtual_trezor.Safe3.Lifecycle.{attempt}

-- usb_webusb_info_t and usb_hid_info_t, as far as the driver reads them: `has_rx_buffer` is
-- rx_buffer != NULL, and a NULL report descriptor is `none`.
pub record InterfaceInfo : Type 0 where
  pub iface_num : ℕ
  pub handle : ℕ
  pub subclass : ℕ
  pub protocol : ℕ
  pub polling_interval : ℕ
  pub max_packet_len : ℕ
  pub has_rx_buffer : Bool
  pub report_desc : Option (List ℕ)
  pub report_desc_len : ℕ

-- iface_num < MAX_INTERFACES and the interface is free.
unfoldable pub free_interface : Driver → ℕ → Option Interface
free_interface u n = if leb max_interfaces n then none else elim (get_elem? u.interfaces n) [
  | none ↦ none
  | some i ↦ if is_disabled i.interface_type then some i else none
]

abbrev pub personality_interface : InterfaceInfo → ℕ → List ℕ → PersonalityInterface
personality_interface info class_code class_descriptors = record {
  number = info.iface_num;
  class_code = class_code;
  subclass = info.subclass;
  protocol = info.protocol;
  string_index = 4;
  endpoint_in = 128 + (1 + info.iface_num) % 128;
  endpoint_out = (1 + info.iface_num) % 256;
  transfer_type = 3;
  max_packet_size = info.max_packet_len;
  interval = info.polling_interval;
  class_descriptors = class_descriptors;
}

abbrev pub filled : Interface → InterfaceInfo → InterfaceType → Interface
filled i info t = record i {
  interface_type = t;
  handle = info.handle;
  number = info.iface_num;
  subclass = info.subclass;
  protocol = info.protocol;
  polling_interval = info.polling_interval;
  max_packet_len = info.max_packet_len;
}

unfoldable pub store_interface : ℕ → Interface → Worker Bool
store_interface n i = modify_usb (λ u. record u { interfaces = set u.interfaces n i }) >> pure true

-- usb_webusb_add, once the interface has been looked up.
abbrev pub webusb_add_at : InterfaceInfo → Option Interface → Worker Bool
webusb_add_at info none = pure false
webusb_add_at info (some i) = if not info.has_rx_buffer then pure false else do
  added ← attempt (built_interface (personality_interface info 0xff []))
  named ←
      (if added && info.iface_num == 0
        then attempt (built_compatible_id info.iface_num)
        else pure true)
  if added && named then store_interface info.iface_num (filled i info webusb) else pure false

unfoldable pub usb_webusb_add : InterfaceInfo → Worker Bool
usb_webusb_add info = get_usb >>= λ u. webusb_add_at info (free_interface u info.iface_num)

abbrev pub hid_descriptor : ℕ → List ℕ
hid_descriptor report_desc_len = 9 ∷ 0x21 ∷ 0x11 ∷ 0x01 ∷ 0 ∷ 1 ∷ 0x22 ∷ report_desc_len ∷ 0 ∷ []

abbrev pub hid_filled : Interface → InterfaceInfo → List ℕ → Interface
hid_filled i info report = record (filled i info hid) {
  report_descriptor = report;
  report_descriptor_len = info.report_desc_len;
}

-- usb_hid_add, once the interface has been looked up.
abbrev pub hid_add_at : InterfaceInfo → Option (List ℕ) → Option Interface → Worker Bool
hid_add_at info report none = pure false
hid_add_at info none (some i) = pure false
hid_add_at info (some report) (some i) = if not info.has_rx_buffer then pure false else do
  added ←
      attempt
        (built_interface (personality_interface info 0x03 (hid_descriptor info.report_desc_len)))
  if added then store_interface info.iface_num (hid_filled i info report) else pure false

unfoldable pub usb_hid_add : InterfaceInfo → Worker Bool
usb_hid_add info =
    get_usb >>= λ u. hid_add_at info info.report_desc (free_interface u info.iface_num)
