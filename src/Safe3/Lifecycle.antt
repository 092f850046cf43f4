-- ===== src/Safe3/Lifecycle.antt =====
-- The life of the driver in platform/safe3/usb_supervisor.c: usb_init, usb_stop and usb_deinit. A
-- secbool is a Bool; the library calls take their results from the world's answers.
use virtual_trezor.Prelude.{
  ℕ, Bool, true, false, not, Option, none, some, is_some, List, [], ◌∷◌, if◌then◌else◌,
}
use virtual_trezor.Exec.{◌>>=◌, ◌>>◌, pure}
use virtual_trezor.Safe3.State.{
  Worker, Answer, Event, DeviceInfo, Endpoint, Interface, PersonalityDevice, failed, number, buffer,
  call, call_or_die, emit, modify_usb, kind_configure, registered, unregistered, built_device,
  freed_personality, initialize_synchronization,
}
use virtual_trezor.Safe3.Records.{send_record}
use virtual_trezor.Safe3.Endpoints.{
  get_usb, is_disabled, for_endpoints, store_endpoints, stop_endpoint_threads,
}
use virtual_trezor.Safe3.Configure.{next_request_id}

-- A library call that returns a bool, or a pointer that may be NULL.
abbrev succeeded : Answer → Bool
succeeded (failed errno) = false
succeeded (number n) = true
succeeded (buffer bytes) = true

unfoldable pub attempt : Event → Worker Bool
attempt event = call >>= λ a. emit event >> pure (succeeded a)

-- SYSHANDLE_USB and USB_MAX_STR_SIZE of Core's headers.
pub record Core : Type 0 where
  pub usb_handle : ℕ
  pub max_str_size : ℕ

abbrev pub personality_device : DeviceInfo → PersonalityDevice
personality_device d = record {
  usb_version = if d.usb21_enabled then 0x0210 else 0x0200;
  max_packet_size_0 = 64;
  info = d;
}

abbrev pub expect_pointer : Answer → Option ℕ
expect_pointer (failed errno) = none
expect_pointer (number n) = some n
expect_pointer (buffer bytes) = none

-- pthread_mutex_init and two pthread_cond_init.
unfoldable pub initialize_slot : Worker (Unit {0})
initialize_slot = do
  _ ← call_or_die initialize_synchronization
  _ ← call_or_die initialize_synchronization
  _ ← call_or_die initialize_synchronization
  pure tt

-- One round of the loop of usb_init over the endpoints.
unfoldable pub init_endpoint : Endpoint → Worker Endpoint
init_endpoint e = do
  (if e.synchronization_initialized then pure tt else initialize_slot)
  pure (record e { fd = none; event_fd = none; synchronization_initialized = true })

-- usb_init, behind the handle's registration.
unfoldable pub announce : Worker Bool
announce = do
  modify_usb λ u. record u { initialized = true }
  request_id ← next_request_id
  u ← get_usb
  send_record kind_configure u.generation request_id []
  pure true

unfoldable pub init_driver : Core → Worker Bool
init_driver c = do
  u ← get_usb
  es ← for_endpoints init_endpoint u.endpoints
  store_endpoints es
  done' ← attempt (registered c.usb_handle)
  if done'
      then announce
      else (emit freed_personality
          >> modify_usb (λ u. record u { personality = none })
          >> pure false)

unfoldable pub usb_init : Core → DeviceInfo → Worker Bool
usb_init c device = get_usb >>= λ u. if u.initialized then pure true else do
  modify_usb λ u. record u { device = device }
  a ← call
  emit (built_device (personality_device device))
  modify_usb λ u. record u { personality = expect_pointer a }
  if is_some (expect_pointer a) then init_driver c else pure false

-- The loop of usb_stop.
unfoldable pub unregister_all : List Interface → Worker (Unit {0})
unregister_all [] = pure tt
unregister_all (i ∷ is) =
    (if is_disabled i.interface_type then pure tt else emit (unregistered i.handle))
    >> unregister_all is

unfoldable pub usb_stop : Worker (Unit {0})
usb_stop = get_usb >>= λ u. if not u.started then pure tt else do
  unregister_all u.interfaces
  modify_usb λ u. record u { enabled = false }
  stop_endpoint_threads
  modify_usb λ u. record u { started = false }

unfoldable pub usb_deinit : Core → Worker (Unit {0})
usb_deinit c = get_usb >>= λ u. if not u.initialized then pure tt else do
  usb_stop
  emit (unregistered c.usb_handle)
  emit freed_personality
  modify_usb λ u. record u { personality = none; initialized = false }
