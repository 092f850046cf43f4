-- ===== src/Safe3/Threads.antt =====
-- The helper threads of platform/safe3/usb_supervisor.c, out_thread_main and in_thread_main, and
-- their interleaving with iface_read and iface_write. Each constructor of `OutStep` and `InStep` is
-- one critical section, or one system call outside of it, of one of the two threads that share an
-- endpoint's slot.
pub mod Calls
pub mod Delivery
use virtual_trezor.Prelude.{
  ℕ, ◌%◌, ◌≤◌, ◌≡◌, Bool, true, false, Option, none, some, List, [], ◌∷◌, ◌++◌, length, take, ◌==◌,
  if◌then◌else◌,
}
use virtual_trezor.Safe3.State.{Endpoint}
use virtual_trezor.Safe3.Interfaces.{consume, produce, contents}

-- out_thread_main, from the lock to the unlock once the slot is free: the packet is published.
unfoldable pub publish : Endpoint → List ℕ → Endpoint
publish e bytes = record e {
  packet = if length bytes == 0 then e.packet else some bytes;
  packet_length = length bytes % 65536;
  occupied = true;
}

-- What in_thread_main writes to FunctionFS: `length` bytes of the packet.
unfoldable pub payload : Endpoint → List ℕ
payload e = take e.packet_length (contents e.packet)

-- in_thread_main, the second critical section.
unfoldable pub release : Endpoint → Endpoint
release e = record e { packet_length = 0; occupied = false }

-- An OUT endpoint with its thread. `held` is a packet that read has returned and the thread has not
-- published yet; `arrived` are the packets that the host sent, `asked` the lengths for which iface_read
-- was called when it returned a packet, and `delivered` the bytes that it returned, oldest first.
pub record OutLine : Type 0 where
  pub endpoint : Endpoint
  pub held : Option (List ℕ)
  pub arrived : List (List ℕ)
  pub asked : List ℕ
  pub delivered : List (List ℕ)

pub data OutStep (l l' : OutLine) : Type 0 where
  -- read returns; a FunctionFS read returns at most max_packet_size bytes.
  reads :
      (bytes : List ℕ)
      → length bytes ≤ l.endpoint.max_packet_size
      → l.held ≡ none
      → l' ≡ record l { held = some bytes; arrived = l.arrived ++ bytes ∷ [] }
      → OutStep l l'
  publishes :
      (bytes : List ℕ)
      → l.held ≡ some bytes
      → l.endpoint.occupied ≡ false
      → l' ≡ record l { endpoint = publish l.endpoint bytes; held = none }
      → OutStep l l'
  -- iface_read, with a buffer of any length: one that is too short for the packet gets its beginning.
  consumes :
      (length' copied : ℕ) (bytes : List ℕ) (e : Endpoint)
      → consume l.endpoint length' ≡ some (copied, bytes, e)
      → l' ≡ record l {
        endpoint = e;
        asked = l.asked ++ length' ∷ [];
        delivered = l.delivered ++ bytes ∷ [];
      }
      → OutStep l l'

-- An IN endpoint with its thread. `writing` is the packet that the thread is writing; `accepted` are
-- the packets for which iface_write returned their length, `written` those that FunctionFS took.
pub record InLine : Type 0 where
  pub endpoint : Endpoint
  pub writing : Option (List ℕ)
  pub finished : Bool
  pub accepted : List (List ℕ)
  pub written : List (List ℕ)

pub data InStep (l l' : InLine) : Type 0 where
  produces :
      (bytes : List ℕ) (e : Endpoint)
      → length bytes ≤ l.endpoint.max_packet_size
      → produce l.endpoint bytes ≡ some e
      → l' ≡ record l { endpoint = e; accepted = l.accepted ++ bytes ∷ [] }
      → InStep l l'
  -- The first critical section, and the call of write.
  takes :
      l.endpoint.occupied ≡ true
      → l.writing ≡ none
      → l.finished ≡ false
      → l' ≡ record l { writing = some (payload l.endpoint) }
      → InStep l l'
  -- write returns the whole length.
  writes :
      (bytes : List ℕ)
      → l.writing ≡ some bytes
      → l' ≡ record l { writing = none; finished = true; written = l.written ++ bytes ∷ [] }
      → InStep l l'
  releases :
      l.finished ≡ true
      → l' ≡ record l { endpoint = release l.endpoint; finished = false }
      → InStep l l'
