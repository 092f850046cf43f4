-- ===== src/Examples/Start.antt =====
-- The first record of the supervisor, with the descriptors of the resources, and instances of the
-- theorems about what a worker makes of it.
use Prim.Native.String.{String}
use virtual_trezor.Prelude.{
  ℕ, ◌+◌, ◌≤◌, ◌≡◌, ◌≢◌, refl, false, is_some, if◌then◌else◌, none, some, List, [], ◌∷◌, ◌++◌,
  length, replicate, arith,
}
use virtual_trezor.Prelude.Text.{Text, codes, text_eq}
use virtual_trezor.Exec.{Returns, done}
use virtual_trezor.Bytes.{be16, put_be16, put_be32}
use virtual_trezor.Config.{worker_config_parse, parse_from, worker_display_select_backend}
use virtual_trezor.Protocol.{Message, rights, number, header_is_valid, lengths_are_valid, record_of}
use virtual_trezor.Legacy.State as LegacyState
use virtual_trezor.Legacy.Records as LegacyRecords
use virtual_trezor.Legacy.Startup as LegacyStartup
use virtual_trezor.Legacy.Startup.{require_complete, worker_receive_supervisor_resources}
use virtual_trezor.Legacy.Main.{worker_main, HasResources, worker_main_complete}
use virtual_trezor.Examples.Legacy as LegacyExamples
use virtual_trezor.Safe3.State.{World, call_or_die}
use virtual_trezor.Safe3.Records.{decode_message, receive_record, receive_message, collect_fds}
use virtual_trezor.Safe3.Records.RoundTrip.{IsRead, decode_message-IsWellFormed}
use virtual_trezor.Safe3.Resources.{
  receive_initial_resources, receive_resources, assign_resources, assign_resource,
  display_backend_of, assign_display, prepare_lines, set_is_complete, make_nonblocking,
}
use virtual_trezor.Safe3.Resources.Complete.{IsComplete, receive_initial_resources-IsComplete}
use virtual_trezor.Examples.Setup.{some_world}

-- A resource's name in the record's body.
abbrev named : String → List ℕ
named name = put_be16 (length (codes name)) ++ codes name

-- The message with this body and these descriptors.
abbrev resources : List ℕ → List ℕ → Message
resources fds names = record {
  bytes =
      b'U'
      ∷ b'G'
      ∷ b'S'
      ∷ b'P'
      ∷ 1
      ∷ 0x01
      ∷ (put_be16 (length fds)
          ++ (put_be32 0
              ++ (put_be32 0
                  ++ (put_be32 (2 + length names) ++ (put_be16 (length fds) ++ names)))));
  truncated = false;
  ancillary = rights fds ∷ [];
}

abbrev one_names : List ℕ
one_names = named "display-spi" ++ (named "display-control" ++ named "buttons")

-- A worker of the Trezor One that has received nothing yet.
abbrev fresh_one : LegacyState.World
fresh_one = record (LegacyExamples.some_world) {
  usb = record ((LegacyExamples.some_world).usb) {
    display_resource_fd = none;
    display_control_fd = none;
    button_lines_fd = none;
  };
  inbox = some (resources (3 ∷ 4 ∷ 5 ∷ []) one_names) ∷ [];
  answers = number 0 ∷ [];
}

-- A firmware whose status tells whether the buttons' lines are there.
abbrev checking_main : LegacyState.Worker ℕ
checking_main w = done (if is_some w.usb.button_lines_fd then 0 else 3) w

abbrev IsExpected : ℕ → LegacyState.World → Type 0
IsExpected status w = status ≤ 2

-- The worker gets to the firmware.
worker_main_returns : Returns (worker_main [] checking_main fresh_one) λ status w.
    (status ≡ 0)
    × (w.usb.display_resource_fd ≡ some 3)
    × (w.usb.display_control_fd ≡ some 4)
    × (w.usb.button_lines_fd ≡ some 5)
unfolding worker_main worker_config_parse parse_from LegacyState.call
    worker_receive_supervisor_resources LegacyRecords.receive_record LegacyRecords.receive_message
    LegacyRecords.decode_message put_be16 put_be32 header_is_valid lengths_are_valid
    LegacyRecords.collect_fds record_of LegacyStartup.assign_resources LegacyStartup.assign_resource
    text_eq require_complete LegacyStartup.set_is_complete be16
worker_main_returns = (refl, refl, refl, refl)

checking_main_lem :
    (v : LegacyState.World)
    → HasResources v
    → (worker_config_parse []).1 ≡ none
    → Returns (checking_main v) IsExpected
checking_main_lem v r p = rw (r.button_lines.1) (omega arith)

worker_main_complete_example : Returns (worker_main [] checking_main fresh_one) IsExpected
worker_main_complete_example =
    worker_main_complete [] checking_main fresh_one IsExpected checking_main_lem (λ _. omega arith)
      (λ _. omega arith)

abbrev safe3_names : List ℕ
safe3_names =
    named "display-st7789-spi"
    ++ (named "display-control" ++ (named "buttons" ++ named "reconnect-button"))

abbrev safe3_message : Message
safe3_message = resources (3 ∷ 4 ∷ 5 ∷ 6 ∷ []) safe3_names

-- A worker of the Safe 3 that has received nothing yet.
abbrev fresh_safe3 : World
fresh_safe3 = record some_world {
  display_bus_fd = none;
  display_control_fd = none;
  button_lines_fd = none;
  reconnect_button_fd = none;
  inbox = some safe3_message ∷ [];
  answers = replicate 7 (number 0);
}

-- The start returns, with the descriptors in their places.
receive_initial_resources_returns :
    Returns (receive_initial_resources 1000 (some (codes "/var/lib/trezor")) fresh_safe3) λ _ v.
      (v.display_bus_fd ≡ some 3)
      × (v.display_control_fd ≡ some 4)
      × (v.button_lines_fd ≡ some 5)
      × (v.reconnect_button_fd ≡ some 6)
unfolding receive_initial_resources call_or_die receive_resources receive_record receive_message
    decode_message put_be16 put_be32 header_is_valid lengths_are_valid collect_fds record_of
    assign_resources assign_resource display_backend_of text_eq assign_display
    worker_display_select_backend be16 prepare_lines set_is_complete make_nonblocking
receive_initial_resources_returns = (refl, refl, refl, refl)

receive_initial_resources-IsComplete_example :
    Returns (receive_initial_resources 1000 (some (codes "/var/lib/trezor")) fresh_safe3) λ _ v.
      (◌≢◌ {A = ℕ} 1000 0)
      × ((rest : Text) × (some (codes "/var/lib/trezor") ≡ some (b'/' ∷ rest)))
      × IsComplete v
receive_initial_resources-IsComplete_example =
    receive_initial_resources-IsComplete 1000 (some (codes "/var/lib/trezor")) fresh_safe3

-- The message is read, with its four descriptors.
decode_message_returns :
    Returns
      (decode_message safe3_message some_world)
      λ r _. (r.kind ≡ 1) × (r.fds ≡ some 3 ∷ some 4 ∷ some 5 ∷ some 6 ∷ [])
unfolding decode_message put_be16 put_be32 header_is_valid lengths_are_valid collect_fds record_of
decode_message_returns = (refl, refl)

decode_message-IsWellFormed_example :
    Returns (decode_message safe3_message some_world) (IsRead safe3_message some_world)
decode_message-IsWellFormed_example = decode_message-IsWellFormed safe3_message some_world
