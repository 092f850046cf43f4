-- ===== src/Safe3/Records.antt =====
-- The records of the supervisor's protocol in platform/safe3/usb_supervisor.c: receive_record,
-- send_record and close_record_fds.
pub mod RoundTrip
unfoldable pub use virtual_trezor.Protocol.{
  has_magic, header_is_valid, lengths_are_valid, record_of, encode_record,
}
use virtual_trezor.Prelude.{
  ℕ, ◌+◌, Bool, true, false, not, ◌&&◌, ◌||◌, Option, none, some, List, [], ◌∷◌, ◌++◌, map, length,
  drop, ltb, leb, ◌==◌, ◌!=◌, if◌then◌else◌,
}
use virtual_trezor.Bytes.{byte, be16, be32, put_be16, put_be32}
use virtual_trezor.Exec.{◌>>=◌, ◌>>◌, pure, die, done, died, exited, blocked}
use virtual_trezor.Safe3.State.{
  World, Worker, Fault, Message, Ancillary, WorkerRecord, rights, other, sent,
  protocol_header_length, max_record_length, max_transferred_fds, call_or_die, emit, close_fd,
  receive_supervisor_record, invalid_record_header, invalid_record_length,
  invalid_descriptor_transfer, too_many_descriptors, descriptor_count_mismatch, record_too_large,
  allocate_record, send_failed,
}

-- The loop of close_record_fds.
unfoldable pub close_fds : List (Option ℕ) → Worker (Unit {0})
close_fds [] = pure tt
close_fds (fd ∷ fds) = close_fd fd >> close_fds fds

unfoldable pub close_record_fds : WorkerRecord → Worker (Unit {0})
unfolding close_fds
close_record_fds record' = close_fds record'.fds

-- recvmsg. With nothing there it fails under MSG_DONTWAIT, and waits without.
abbrev receive_from : Bool → List (Option Message) → Worker Message
receive_from dont_wait [] w = if dont_wait then died receive_supervisor_record w else blocked w
receive_from dont_wait (none ∷ rest) w = died receive_supervisor_record w
receive_from dont_wait (some m ∷ rest) w = done m (record w { inbox = rest })

unfoldable pub receive_message : Bool → Worker Message
receive_message dont_wait w = receive_from dont_wait w.inbox w

-- The loop over the ancillary items; `fds` are the descriptors so far.
unfoldable pub collect_fds : List Ancillary → List ℕ → Worker (List ℕ)
collect_fds [] fds = pure fds
collect_fds (other ∷ items) fds = die invalid_descriptor_transfer
collect_fds (rights new ∷ items) fds =
    let rest = collect_fds items (fds ++ new) in
    if ltb max_transferred_fds (length fds + length new) then die too_many_descriptors else rest

-- The part of receive_record behind recvmsg.
unfoldable pub decode_message : Message → Worker WorkerRecord
decode_message m =
    if length m.bytes == 0
    then exited
    else if not (header_is_valid m)
    then die invalid_record_header
    else if not (lengths_are_valid m.bytes)
    then die invalid_record_length
    else do
      fds ← collect_fds m.ancillary []
      if length fds == be16 m.bytes 6
          then pure (record_of m.bytes fds)
          else (close_record_fds (record_of m.bytes fds) >> die descriptor_count_mismatch)

unfoldable pub receive_record : Bool → Worker WorkerRecord
receive_record dont_wait = receive_message dont_wait >>= decode_message

-- malloc, then send, whose result must be the whole packet's length.
unfoldable pub send_record : ℕ → ℕ → ℕ → List ℕ → Worker (Unit {0})
send_record kind generation request_id body =
    if ltb max_record_length (length body) then die record_too_large else do
      _ ← call_or_die allocate_record
      count ← call_or_die send_failed
      if count == protocol_header_length + length body
          then emit (sent (encode_record kind generation request_id body))
          else die send_failed
