-- ===== src/Safe3/Starting.antt =====
-- usb_start of platform/safe3/usb_supervisor.c.
use virtual_trezor.Prelude.{
  Bool, true, false, not, ◌&&◌, Option, none, some, List, [], ◌∷◌, take, ◌!=◌, if◌then◌else◌,
}
use virtual_trezor.Prelude.Text.{Text, codes, text_eq}
use virtual_trezor.Exec.{◌>>=◌, ◌>>◌, pure}
use virtual_trezor.Safe3.State.{
  Worker, Driver, Interface, modify_usb, registered, built_serial_number, built_webusb,
}
use virtual_trezor.Safe3.Endpoints.{get_usb, is_disabled}
use virtual_trezor.Safe3.Configure.{configure_until_endpoints}
use virtual_trezor.Safe3.Lifecycle.{Core, attempt, usb_stop}

-- usb_start_params_t
pub record StartParams : Type 0 where
  pub usb21_landing : Bool
  pub serial_number : Text

-- The `if` of a started driver: nothing has changed.
unfoldable pub params_are_current : Core → Driver → Option StartParams → Bool
params_are_current c u none = true
params_are_current c u (some q) =
    (if u.landing_page then q.usb21_landing else not q.usb21_landing)
    && text_eq (take c.max_str_size u.device.serial_number) (take c.max_str_size q.serial_number)

abbrev pub apply_params : Core → Option StartParams → Driver → Driver
apply_params c none u = u
apply_params c (some q) u = record u {
  landing_page = q.usb21_landing;
  device = record (u.device) { serial_number = take c.max_str_size q.serial_number };
}

-- The loop that registers the interfaces, which stops at the first failure.
unfoldable pub register_all : List Interface → Worker Bool
register_all [] = pure true
register_all (i ∷ is) =
    let rest = register_all is in
    if is_disabled i.interface_type
    then rest
    else (attempt (registered i.handle) >>= λ ok. if ok then rest else pure false)

unfoldable pub landing_url : Bool → Text
landing_url true = codes "https://trezor.io/start"
landing_url false = []

-- usb_start, behind the parameters.
unfoldable pub begin_serving : Worker Bool
begin_serving = do
  u ← get_usb
  named ← attempt (built_serial_number u.device.serial_number)
  linked ←
      (if named
        then attempt (built_webusb u.device.usb21_enabled (landing_url u.landing_page))
        else pure false)
  if not linked then pure false else do
    configured ← configure_until_endpoints (u.generation != 0)
    if not configured then pure false else do
      v ← get_usb
      all_registered ← register_all v.interfaces
      if all_registered
          then (modify_usb (λ u. record u { started = true }) >> pure true)
          else pure false

unfoldable pub usb_start : Core → Option StartParams → Worker Bool
usb_start c params = get_usb >>= λ u.
    if not u.initialized
    then pure false
    else if u.started && params_are_current c u params
    then pure true
    else do
      (if u.started then usb_stop else pure tt)
      modify_usb (apply_params c params)
      begin_serving
