-- ===== src/Examples.antt =====
-- Runs of the models on small inputs, and instances of the theorems: here of those about more than one
-- part, in the children of the others.
mod Setup
mod Requests
mod Lines
mod Legacy
mod Ports
mod Devices
mod Start
mod Again
use virtual_trezor.Prelude.{
  map, length, ℕ, ◌<◌, ◌≤◌, ◌≡◌, refl, true, false, none, some, [], ◌∷◌, ◌++◌, ◌↔◌, arith,
}
use virtual_trezor.Prelude.Int.{pos, minus_one}
use virtual_trezor.Prelude.Text.{codes}
use virtual_trezor.Exec.{Returns}
use virtual_trezor.Bytes.{be32, put_be32, be32-put_be32}
use virtual_trezor.Timer.{worker_timer_state_init, worker_timer_state_value}
use virtual_trezor.Timer.Clock.{
  suspend_at, resume_at, apply_all, awake_ms, worker_timer_state_value_lem,
}
use virtual_trezor.PollTimeout.{worker_poll_timeout_ms, int_max, Within, worker_poll_timeout_ms_lem}
use virtual_trezor.Config.{
  st7789_spi, chosen, worker_config_parse, worker_display_select_backend,
  worker_display_backend_name, default_config,
}
use virtual_trezor.Config.Accepted.{Accepts, select-name, worker_config_parse-Accepts}
use virtual_trezor.Safe3.State.{number, Message}
use virtual_trezor.Safe3.Records.{receive_record, encode_record}
use virtual_trezor.Safe3.Control.Response.{sends}
use virtual_trezor.Safe3.Service.{remaining_ms, timeout_of}
use virtual_trezor.Safe3.Service.Sleep.{milliseconds, remaining_ms-timeout}
use virtual_trezor.Legacy.Records as LegacyRecords
use virtual_trezor.Legacy.Records.Same.{ending, receive_record-ending}
use virtual_trezor.Examples.Legacy as LegacyExamples
use virtual_trezor.Protocol.{buffer}
use virtual_trezor.Random.{fill_all, fill_all-lengths}
use virtual_trezor.Examples.Setup.{some_world}

worker_config_parse-Accepts_example :
    (worker_config_parse (codes "--display=st7789-spi" ∷ []) ≡ chosen st7789_spi)
    ↔ Accepts (codes "--display=st7789-spi" ∷ []) st7789_spi
worker_config_parse-Accepts_example =
    worker_config_parse-Accepts (codes "--display=st7789-spi" ∷ []) st7789_spi

select-name_example :
    worker_display_select_backend default_config (worker_display_backend_name st7789_spi)
    ≡ chosen st7789_spi
select-name_example = select-name default_config st7789_spi

worker_timer_state_value_lem_example :
    worker_timer_state_value
      (apply_all worker_timer_state_init (suspend_at 100 ∷ resume_at 250 ∷ []))
      400
    ≡ awake_ms 0 true (suspend_at 100 ∷ resume_at 250 ∷ []) 400
worker_timer_state_value_lem_example =
    worker_timer_state_value_lem (suspend_at 100 ∷ resume_at 250 ∷ []) 400
      (omega arith, (omega arith, (omega arith, omega arith)))

remaining_ms-timeout_example :
    (remaining_ms 500 4294967000 ≡ some 796)
    × ((timeout_of 796).tv_nsec < 1000000000)
    × (milliseconds (timeout_of 796) ≡ 796)
    × (remaining_ms 4294967000 4 ≡ none)
remaining_ms-timeout_example =
    remaining_ms-timeout 4294967000 796 300 (omega arith) (omega arith) (omega arith) (omega arith)

worker_poll_timeout_ms_lem_example :
    (worker_poll_timeout_ms true 1000 (pos 250) ≡ minus_one)
    × (t : ℕ) × (worker_poll_timeout_ms false 1000 (pos 250) ≡ pos t)
    × (t ≤ 1000)
    × (t ≤ int_max)
    × Within t (pos 250)
    × (200 ≤ t)
worker_poll_timeout_ms_lem_example =
    worker_poll_timeout_ms_lem 1000 (pos 250) 200 (omega arith) (omega arith) (omega arith)

be32-put_be32_example : be32 (put_be32 4294967301 ++ 9 ∷ []) 0 ≡ 5
be32-put_be32_example = be32-put_be32 4294967301 (9 ∷ [])

-- A record without a body, as the supervisor sends it.
abbrev some_message : Message
some_message = record { bytes = encode_record 0x11 3 9 []; truncated = false; ancillary = [] }

receive_record-ending_example :
    ending (
      LegacyRecords.receive_record true
        (record (LegacyExamples.some_world) { inbox = some some_message ∷ [] }))
    ≡ ending (receive_record true (record some_world { inbox = some some_message ∷ [] }))
receive_record-ending_example =
    receive_record-ending true
      (record (LegacyExamples.some_world) { inbox = some some_message ∷ [] })
      (record some_world { inbox = some some_message ∷ [] }) refl

fill_all-lengths_example :
    Returns
      (fill_all (2 ∷ 1 ∷ []) (record {
        random_source = none;
        answers = number 3 ∷ buffer (7 ∷ 8 ∷ []) ∷ buffer (9 ∷ []) ∷ [];
        opened = 0;
      }))
      λ parts s'. (map length parts ≡ 2 ∷ 1 ∷ []) × (s'.opened ≤ 1)
fill_all-lengths_example = fill_all-lengths (2 ∷ 1 ∷ []) (record {
  random_source = none;
  answers = number 3 ∷ buffer (7 ∷ 8 ∷ []) ∷ buffer (9 ∷ []) ∷ [];
  opened = 0;
})
