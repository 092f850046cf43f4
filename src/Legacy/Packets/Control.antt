-- ===== src/Legacy/Packets/Control.antt =====
-- The buffers of a control transfer in platform/raspberry-pi/usb_functionfs.c, which libopencm3 fills
-- and empties packet by packet.
use virtual_trezor.Prelude.{
  ℕ, ◌+◌, ◌-◌, ◌≤◌, ◌<◌, ◌≡◌, refl, ◌∙◌, ap, sym, subst, Bool, true, false, List, [], ◌∷◌, ◌++◌,
  length, take, drop, length-append, take-split, drop-drop, length-drop, inl, inr, ◌⊎◌, arith,
}
use Prim.Native.Nat.{min}
use mathlib.Core.List.{append_assoc, append-nil}
use virtual_trezor.Exec.{Returns, Returns->>=, Returns_imp, done, ◌>>=◌, pure, >>=-done}
use virtual_trezor.Legacy.State.{World, Worker}
use virtual_trezor.Legacy.Packets.{
  control_buffer_length, write_control, virtual_ep_write_packet, read_control,
  virtual_ep_read_packet,
}

-- The bytes of packets, one behind the other.
unfoldable pub all_bytes : List (List ℕ) → List ℕ
all_bytes [] = []
all_bytes (packet ∷ packets) = packet ++ all_bytes packets

-- libopencm3's writes to endpoint 0.
unfoldable pub write_packets : List (List ℕ) → Worker (Unit {0})
write_packets [] = pure tt
write_packets (packet ∷ packets) = virtual_ep_write_packet 0 packet >>= λ _. write_packets packets

-- Its reads, with what they returned.
unfoldable pub read_packets : List ℕ → Worker (List (List ℕ))
read_packets [] = pure []
read_packets (count ∷ counts) = virtual_ep_read_packet 0 count >>= λ packet.
    read_packets counts >>= λ packets. pure (packet ∷ packets)

unfoldable pub total : List ℕ → ℕ
total [] = 0
total (count ∷ counts) = count + total counts

-- The response so far, and whether the transfer is stalled.
abbrev with_response : List ℕ → Bool → World → World
with_response bytes stalled w = record w {
  usb = record (w.usb) { control_in = bytes; control_stalled = stalled };
}

-- What a response has become: all of it, or a part and a stall.
abbrev pub Collects : List ℕ → World → Type 0
Collects bytes w =
    ((length bytes ≤ control_buffer_length)
      × (w.usb.control_in ≡ bytes)
      × (w.usb.control_stalled ≡ false))
    ⊎ ((control_buffer_length < length bytes)
        × (length (w.usb.control_in) ≤ control_buffer_length)
        × (w.usb.control_stalled ≡ true))

write_packet-one :
    (packet bytes : List ℕ) (stalled : Bool) (w : World)
    → w.usb.control_active ≡ true
    → ((length bytes + length packet ≤ control_buffer_length)
        × (virtual_ep_write_packet 0 packet (with_response bytes stalled w)
            ≡ done (length packet) (with_response (bytes ++ packet) stalled w)))
      ⊎ ((control_buffer_length < length bytes + length packet)
          × (virtual_ep_write_packet 0 packet (with_response bytes stalled w)
              ≡ done 0 (with_response bytes true w)))
unfolding virtual_ep_write_packet write_control
write_packet-one packet bytes stalled w active = ground arith

-- A step that is known, and then the rest.
after_step :
    {A : Type 0} (m : Worker A) (f : A → Worker (Unit {0})) (w v : World) (a : A)
    (P : World → Type 0)
    → m w ≡ done a v
    → Returns (f a v) (λ _ x. P x)
    → Returns ((m >>= f) w) λ _ x. P x
after_step m f w v a P p h = subst (λ o. Returns o λ _ x. P x) (sym (>>=-done m f w v a p)) h

abbrev Stalled : World → Type 0
Stalled w = (length (w.usb.control_in) ≤ control_buffer_length) × (w.usb.control_stalled ≡ true)

write_packets-Stalled :
    (packets : List (List ℕ)) (bytes : List ℕ) (w : World)
    → w.usb.control_active ≡ true
    → length bytes ≤ control_buffer_length
    → Returns (write_packets packets (with_response bytes true w)) λ _ w'. Stalled w'
unfolding write_packets
write_packets-Stalled [] bytes w active fits = (fits, refl)
write_packets-Stalled (packet ∷ packets) bytes w active fits =
    elim (write_packet-one packet bytes true w active) [
      | inl (h, p) ↦
          after_step (virtual_ep_write_packet 0 packet) (λ _. write_packets packets) _ _ _ Stalled p
            (write_packets-Stalled packets (bytes ++ packet) w active
              (omega (arith, length-append bytes packet)))
      | inr (h, p) ↦
          after_step (virtual_ep_write_packet 0 packet) (λ _. write_packets packets) _ _ _ Stalled p
            (write_packets-Stalled packets bytes w active fits)
    ]

write_packets-from :
    (packets : List (List ℕ)) (bytes : List ℕ) (w : World)
    → w.usb.control_active ≡ true
    → length bytes ≤ control_buffer_length
    → Returns
        (write_packets packets (with_response bytes false w))
        λ _ w'. Collects (bytes ++ all_bytes packets) w'
unfolding write_packets all_bytes
write_packets-from [] bytes w active fits =
    inl (omega (arith, length-append bytes []), sym (append-nil bytes), refl)
write_packets-from (packet ∷ packets) bytes w active fits =
    elim (write_packet-one packet bytes false w active) [
      | inl (h, p) ↦
          after_step (virtual_ep_write_packet 0 packet) (λ _. write_packets packets) _ _ _
            (Collects (bytes ++ (packet ++ all_bytes packets))) p
            (subst
              (λ l.
                Returns (write_packets packets (with_response (bytes ++ packet) false w))
                  λ _ x. Collects l x)
              (append_assoc bytes packet (all_bytes packets))
              (write_packets-from packets (bytes ++ packet) w active
                (omega (arith, length-append bytes packet))))
      | inr (h, p) ↦
          after_step (virtual_ep_write_packet 0 packet) (λ _. write_packets packets) _ _ _
            (Collects (bytes ++ (packet ++ all_bytes packets))) p
            (Returns_imp (λ _ x. Stalled x) _ (write_packets packets (with_response bytes true w))
              (λ _ x (a, b). inr (
                omega (
                  arith,
                  length-append bytes (packet ++ all_bytes packets),
                  length-append packet (all_bytes packets),
                ),
                a,
                b,
              ))
              (write_packets-Stalled packets bytes w active fits))
    ]

-- The packets that are written to endpoint 0 in a control transfer that has no response yet are its
-- response, one behind the other, if they have 65535 bytes at most; with more of them the transfer is
-- stalled, and the response is never longer than the buffer.
pub write_packets-Collects :
    (packets : List (List ℕ)) (w : World)
    → w.usb.control_active ≡ true
    → w.usb.control_stalled ≡ false
    → w.usb.control_in ≡ []
    → Returns (write_packets packets w) λ _ w'. Collects (all_bytes packets) w'
write_packets-Collects packets w active quiet fresh =
    by_state w.usb.control_in w.usb.control_stalled fresh quiet
  where
    by_state :
        (bytes : List ℕ) (stalled : Bool)
        → bytes ≡ []
        → stalled ≡ false
        → Returns
            (write_packets packets (with_response bytes stalled w))
            λ _ w'. Collects (all_bytes packets) w'
    by_state (b ∷ bytes) stalled h k = absurd (cc)
    by_state [] true h k = absurd (cc)
    by_state [] false h k = write_packets-from packets [] w active (omega arith)

-- The transfer's data and how far they were read.
abbrev with_offset : ℕ → World → World
with_offset offset w = record w { usb = record (w.usb) { control_out_offset = offset } }

read_packet-one :
    (count : ℕ) (w : World)
    → w.usb.control_active ≡ true
    → w.usb.control_out_offset ≤ length w.usb.control_out_data
    → (copied : ℕ) × (copied ≡ min count (length w.usb.control_out_data - w.usb.control_out_offset))
      × (virtual_ep_read_packet 0 count w
          ≡ done
              (take copied (drop w.usb.control_out_offset w.usb.control_out_data))
              (with_offset (w.usb.control_out_offset + copied) w))
unfolding virtual_ep_read_packet read_control
read_packet-one count w active within =
    (min count (length w.usb.control_out_data - w.usb.control_out_offset), refl, ground arith)

-- What was read, and how far the reads have come.
abbrev pub Reads : List ℕ → World → List (List ℕ) → World → Type 0
Reads counts w packets w' =
    (all_bytes packets ≡ take (total counts) (drop w.usb.control_out_offset w.usb.control_out_data))
    × (w'.usb.control_out_offset
        ≡ min (length w.usb.control_out_data) (w.usb.control_out_offset + total counts))

-- The reads of endpoint 0 in a control transfer return the next bytes of its data, one packet behind
-- the other, as many as were asked for in all or as there are, and leave the offset behind them, which
-- never passes the end.
pub read_packets-Reads :
    (counts : List ℕ) (w : World)
    → w.usb.control_active ≡ true
    → w.usb.control_out_offset ≤ length w.usb.control_out_data
    → Returns (read_packets counts w) λ packets w'. Reads counts w packets w'
unfolding read_packets all_bytes total
read_packets-Reads [] w active within = (refl, omega arith)
read_packets-Reads (count ∷ counts) w active within =
    let (copied, c, p) = read_packet-one count w active within in
    let bytes = w.usb.control_out_data in
    let offset = w.usb.control_out_offset in
    let packet = take copied (drop offset bytes) in
    let v : World = with_offset (offset + copied) w in
    subst (λ o. Returns o λ packets w'. Reads (count ∷ counts) w packets w')
      (sym (
        >>=-done (virtual_ep_read_packet 0 count)
          (λ packet. read_packets counts >>= λ packets. pure (packet ∷ packets)) w v packet p))
      (Returns->>= (read_packets counts) (λ packets. pure (packet ∷ packets)) (Reads counts v) _ v
        (read_packets-Reads counts v active (omega arith))
        λ packets x (a, b). (
          ap (λ l. packet ++ l) (a ∙ ap (take (total counts)) (sym (drop-drop offset copied bytes)))
              ∙ take-split copied count (total counts) (drop offset bytes)
                  (omega (arith, length-drop offset bytes)),
          omega arith,
        ))
