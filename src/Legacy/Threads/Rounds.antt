-- ===== src/Legacy/Threads/Rounds.antt =====
-- One round of endpoint_thread_main and one virtual_ep_read_packet of
-- platform/raspberry-pi/usb_functionfs.c, on every branch of an endpoint that is running.
use virtual_trezor.Prelude.{
  ℕ, ◌≤◌, ◌<◌, ◌≡◌, true, false, Option, none, some, List, [], ◌∷◌, length, take, take_all, ltb,
  inl, inr, ◌⊎◌, Bool-cases, arith,
}
use virtual_trezor.Exec.{done, died}
use virtual_trezor.Protocol.{Answer, number, buffer}
use virtual_trezor.Legacy.State.{
  World, Fault, VirtualEndpoint, oversized_out_transfer, unconsumed_transfer, short_out_buffer,
}
use virtual_trezor.Legacy.Endpoints.{endpoint_for, put_endpoint}
use virtual_trezor.Legacy.Packets.{virtual_ep_read_packet}
use virtual_trezor.Legacy.Threads.{endpoint_thread_round, hand_over, occupy, read_host, notify_from}

-- What an endpoint's hand-over fields hold.
abbrev pub Content : Option (List ℕ) → VirtualEndpoint → Type 0
Content none e = e.transfer_occupied ≡ false
Content (some bytes) e =
    (e.transfer_occupied ≡ true)
    × (e.transfer_data ≡ some bytes)
    × (e.transfer_length ≡ length bytes)

-- The endpoint at an address is running and holds this.
abbrev pub Holds : ℕ → ℕ → Option (List ℕ) → World → Type 0
Holds address max slot w =
    (e : VirtualEndpoint) × (w.usb.usb_enabled ≡ true)
    × (endpoint_for w.usb.endpoints address ≡ some e)
    × (e.stalled ≡ false)
    × (e.max_packet_size ≡ max)
    × Content slot e

pub deliver-empty :
    (address : ℕ) (e : VirtualEndpoint) (bytes : List ℕ) (rest : List Answer) (w : World)
    → endpoint_for w.usb.endpoints address ≡ some e
    → e.transfer_occupied ≡ false
    → length bytes ≤ e.max_packet_size
    → endpoint_thread_round address (record w { answers = buffer bytes ∷ number 8 ∷ rest })
      ≡ done true (record w {
        answers = rest;
        usb = record (w.usb) { endpoints = put_endpoint address (occupy bytes e) w.usb.endpoints };
      })
unfolding endpoint_thread_round hand_over read_host notify_from
deliver-empty address e bytes rest w h empty fits = ground arith

pub deliver-failing :
    (address : ℕ) (e : VirtualEndpoint) (bytes : List ℕ) (rest : List Answer) (w : World)
    → endpoint_for w.usb.endpoints address ≡ some e
    → (e.transfer_occupied ≡ true) ⊎ (e.max_packet_size < length bytes)
    → (fault : Fault) × (v : World) × (endpoint_thread_round address
          (record w { answers = buffer bytes ∷ number 8 ∷ rest })
        ≡ died fault v)
unfolding endpoint_thread_round hand_over read_host
deliver-failing address e bytes rest w h bad =
    elim (Bool-cases (ltb e.max_packet_size (length bytes))) [
      | inl long ↦ (oversized_out_transfer, record w { answers = number 8 ∷ rest }, ground arith)
      | inr short ↦ (unconsumed_transfer, record w { answers = number 8 ∷ rest }, ground arith)
    ]

pub read-none :
    (address count : ℕ) (e : VirtualEndpoint) (w : World)
    → 0 < address
    → address ≤ 7
    → endpoint_for w.usb.endpoints address ≡ some e
    → e.transfer_occupied ≡ false
    → virtual_ep_read_packet address count w ≡ done [] w
unfolding virtual_ep_read_packet
read-none address count e w some_address low h empty = ground arith

pub read-held :
    (address count : ℕ) (e : VirtualEndpoint) (bytes : List ℕ) (w : World)
    → 0 < address
    → address ≤ 7
    → w.usb.usb_enabled ≡ true
    → e.stalled ≡ false
    → endpoint_for w.usb.endpoints address ≡ some e
    → Content (some bytes) e
    → length bytes ≤ count
    → virtual_ep_read_packet address count w
      ≡ done bytes (record w {
        usb = record (w.usb) {
          endpoints = put_endpoint address (record e { transfer_occupied = false }) w.usb.endpoints;
        };
      })
unfolding virtual_ep_read_packet
read-held address count e bytes w some_address low on ready h (full, held, size) fits =
    let whole : take e.transfer_length bytes ≡ bytes =
      take_all e.transfer_length bytes (omega arith) in
    ground arith

pub read-short :
    (address count : ℕ) (e : VirtualEndpoint) (bytes : List ℕ) (w : World)
    → 0 < address
    → address ≤ 7
    → w.usb.usb_enabled ≡ true
    → e.stalled ≡ false
    → endpoint_for w.usb.endpoints address ≡ some e
    → Content (some bytes) e
    → count < length bytes
    → virtual_ep_read_packet address count w ≡ died short_out_buffer w
unfolding virtual_ep_read_packet
read-short address count e bytes w some_address low on ready h (full, held, size) small =
    ground arith
