-- ===== src/Safe3/Threads/Delivery.antt =====
-- The packets that pass between FunctionFS, the threads of platform/safe3/usb_supervisor.c and the
-- interface handlers, under every interleaving of their critical sections.
use virtual_trezor.Prelude.{
  ℕ, zero, suc, ◌≤◌, ◌<◌, ◌%◌, ◌≡◌, refl, ◌∙◌, ap, sym, subst, true, false, Option, none, some,
  List, [], ◌∷◌, ◌++◌, map, length, take, take_all, arith, if◌then◌else◌, Bool-cases, inl, inr,
}
use mathlib.Core.List.{append_assoc, append-nil, map-append}
use virtual_trezor.Safe3.State.{Endpoint}
use virtual_trezor.Safe3.Interfaces.{consume, produce, smaller, contents}
use virtual_trezor.Safe3.Threads.{
  publish, payload, release, OutLine, OutStep, reads, publishes, consumes, InLine, InStep, produces,
  takes, writes, releases,
}

-- The packet in the slot.
abbrev pub pending : Endpoint → List (List ℕ)
pending e = if e.occupied then payload e ∷ [] else []

abbrev pub waiting : Option (List ℕ) → List (List ℕ)
waiting none = []
waiting (some bytes) = bytes ∷ []

-- A packet that fits a uint16_t is what a later reader of the slot finds.
publish-payload :
    (e : Endpoint) (bytes : List ℕ) → length bytes < 65536 → payload (publish e bytes) ≡ bytes
unfolding publish payload
publish-payload e [] h = refl
publish-payload e (b ∷ bytes) h =
    ground (arith, take_all (suc (length bytes) % 65536) (b ∷ bytes) (omega arith))

publish-size :
    (e : Endpoint) (bytes : List ℕ) → e.max_packet_size ≡ (publish e bytes).max_packet_size
unfolding publish
publish-size e bytes = refl

publish-occupied : (e : Endpoint) (bytes : List ℕ) → (publish e bytes).occupied ≡ true
unfolding publish
publish-occupied e bytes = refl

take-smaller : (a n : ℕ) (xs : List ℕ) → take (smaller a n) xs ≡ take n (take a xs)
take-smaller zero zero xs = refl
take-smaller zero (suc n) xs = ground arith
take-smaller (suc a) zero xs = ground arith
take-smaller (suc a) (suc n) [] = ground arith
take-smaller (suc a) (suc n) (x ∷ xs) = ground (arith, take-smaller a n xs)

consume-payload :
    (e e' : Endpoint) (length' copied : ℕ) (bytes : List ℕ)
    → consume e length' ≡ some (copied, bytes, e')
    → (e.occupied ≡ true)
      × (bytes ≡ take length' (payload e))
      × (e' ≡ record e { occupied = false; packet_length = 0 })
unfolding consume payload
consume-payload e e' length' copied bytes p =
    ground (arith, take-smaller e.packet_length length' (contents e.packet))

pending_of_free : (e : Endpoint) → e.occupied ≡ false → pending e ≡ []
pending_of_free e h = rw h refl

pending_of_full : (e : Endpoint) → e.occupied ≡ true → pending e ≡ payload e ∷ []
pending_of_full e h = rw h refl

-- What a read of a length returns of a packet.
abbrev pub returned : ℕ × List ℕ → List ℕ
returned (n, packet) = take n packet

-- `consumed` are the packets that reads have taken from the slot, each with the length that was asked
-- for. They, the packet in the slot and the one that the thread holds are the packets that arrived, in
-- the order of arrival, and each read returned its packet up to the length that it asked for.
pub record IsFifo (l : OutLine) : Type 0 where
  pub fits : l.endpoint.max_packet_size < 65536
  pub held_fits : (bytes : List ℕ) → l.held ≡ some bytes → length bytes ≤ l.endpoint.max_packet_size
  pub consumed : List (ℕ × List ℕ)
  pub lengths : l.asked ≡ map (λ read. read.0) consumed
  pub results : l.delivered ≡ map returned consumed
  pub order : l.arrived ≡ map (λ read. read.1) consumed ++ (pending l.endpoint ++ waiting l.held)

abbrev packets : {l : OutLine} → IsFifo l → List (List ℕ)
packets s = map (λ read. read.1) s.consumed

module _ (l : OutLine) (s : IsFifo l) where
  reads-IsFifo :
      (bytes : List ℕ)
      → length bytes ≤ l.endpoint.max_packet_size
      → l.held ≡ none
      → IsFifo (record l { held = some bytes; arrived = l.arrived ++ bytes ∷ [] })
  reads-IsFifo bytes h p = record {
    fits = s.fits;
    held_fits = λ more q. ground (arith, h);
    consumed = s.consumed;
    lengths = s.lengths;
    results = s.results;
    order =
        ap (λ (a : List (List ℕ)). a ++ bytes ∷ [])
          (s.order ∙ ap (λ o. packets s ++ (pending l.endpoint ++ waiting o)) p)
        ∙ (append_assoc (packets s) (pending l.endpoint ++ []) (bytes ∷ [])
            ∙ ap (λ (a : List (List ℕ)). packets s ++ (a ++ bytes ∷ []))
                (append-nil (pending l.endpoint)));
  }

  publishes-IsFifo :
      (bytes : List ℕ)
      → l.held ≡ some bytes
      → l.endpoint.occupied ≡ false
      → IsFifo (record l { endpoint = publish l.endpoint bytes; held = none })
  unfolding publish
  publishes-IsFifo bytes p free =
      let le = s.held_fits bytes p in
      let small : length bytes < 65536 = omega (arith, le, s.fits) in
      record {
        fits = s.fits;
        held_fits = λ more q. absurd (cc);
        consumed = s.consumed;
        lengths = s.lengths;
        results = s.results;
        order =
            s.order
            ∙ (ap (λ (a : List (List ℕ)). packets s ++ (a ++ waiting l.held))
                  (pending_of_free l.endpoint free)
                ∙ (ap (λ o. packets s ++ waiting o) p
                    ∙ ap (λ (b : List ℕ). packets s ++ b ∷ [])
                        (sym (publish-payload l.endpoint bytes small))));
      }

  consumes-IsFifo :
      (length' copied : ℕ) (bytes : List ℕ) (e : Endpoint)
      → consume l.endpoint length' ≡ some (copied, bytes, e)
      → IsFifo (record l {
        endpoint = e;
        asked = l.asked ++ length' ∷ [];
        delivered = l.delivered ++ bytes ∷ [];
      })
  consumes-IsFifo length' copied bytes e p =
      let (full, q, r) = consume-payload l.endpoint e length' copied bytes p in
      let packet = payload l.endpoint in
      record {
        fits = subst (λ (x : Endpoint). x.max_packet_size < 65536) (sym r) s.fits;
        held_fits =
            subst (λ (x : Endpoint). (b : List ℕ) → l.held ≡ some b → length b ≤ x.max_packet_size)
              (sym r) s.held_fits;
        consumed = s.consumed ++ (length', packet) ∷ [];
        lengths =
            ap (λ (a : List ℕ). a ++ length' ∷ []) s.lengths
            ∙ sym (map-append (λ read. read.0) s.consumed ((length', packet) ∷ []));
        results =
            ap (λ (a : List (List ℕ)). a ++ bytes ∷ []) s.results
            ∙ (ap (λ (b : List ℕ). map returned s.consumed ++ b ∷ []) q
                ∙ sym (map-append returned s.consumed ((length', packet) ∷ [])));
        order =
            s.order
            ∙ (ap (λ (a : List (List ℕ)). packets s ++ (a ++ waiting l.held))
                  (pending_of_full l.endpoint full)
                ∙ (sym (append_assoc (packets s) (packet ∷ []) (waiting l.held))
                    ∙ (ap (λ (a : List (List ℕ)). a ++ waiting l.held)
                          (sym (map-append (λ read. read.1) s.consumed ((length', packet) ∷ [])))
                        ∙ ap
                            (λ (x : Endpoint).
                              map (λ read. read.1) (s.consumed ++ (length', packet) ∷ [])
                              ++ (pending x ++ waiting l.held))
                            (sym r))));
      }

  OutStep-IsFifo : (l' : OutLine) → OutStep l l' → IsFifo l'
  OutStep-IsFifo l' (reads bytes h p q) = subst IsFifo (sym q) (reads-IsFifo bytes h p)
  OutStep-IsFifo l' (publishes bytes p free q) =
      subst IsFifo (sym q) (publishes-IsFifo bytes p free)
  OutStep-IsFifo l' (consumes length' copied bytes e p q) =
      subst IsFifo (sym q) (consumes-IsFifo length' copied bytes e p)

-- Any number of steps.
pub data OutSteps : OutLine → OutLine → Type 0 where
  rest_out : (l : OutLine) → OutSteps l l
  then_out : (l m n : OutLine) → OutStep l m → OutSteps m n → OutSteps l n

-- Whatever the order in which the OUT thread and iface_read take their turns, the packets that reads
-- have taken, the one in the slot and the one that the thread holds are together the packets that
-- arrived, in their order: none is skipped, duplicated or reordered. Each read returned its packet up
-- to the length that it asked for, so the whole packet unless that length was shorter.
pub OutSteps-IsFifo : (l m : OutLine) → IsFifo l → OutSteps l m → IsFifo m
OutSteps-IsFifo l _ s (rest_out _) = s
OutSteps-IsFifo l n s (then_out _ m _ step steps) =
    OutSteps-IsFifo m n (OutStep-IsFifo l s m step) steps

produce-published :
    (e e' : Endpoint) (bytes : List ℕ)
    → produce e bytes ≡ some e'
    → (e.occupied ≡ false) × (e' ≡ publish e bytes)
unfolding produce publish
produce-published e e' bytes h = ground arith

-- The packets that were accepted and are not written yet.
abbrev pub unwritten : InLine → List (List ℕ)
unwritten l = if l.finished then [] else pending l.endpoint

-- Every packet that iface_write accepted is written, or is still in the slot, and the thread writes the
-- packet that is in the slot.
pub record IsOrderly (l : InLine) : Type 0 where
  pub fits : l.endpoint.max_packet_size < 65536
  pub current :
      (bytes : List ℕ)
      → l.writing ≡ some bytes
      → (l.endpoint.occupied ≡ true) × (bytes ≡ payload l.endpoint) × (l.finished ≡ false)
  pub taken : l.finished ≡ true → (l.endpoint.occupied ≡ true) × (l.writing ≡ none)
  pub order : l.accepted ≡ l.written ++ unwritten l

unwritten_of_finished : (l : InLine) → l.finished ≡ true → unwritten l ≡ []
unwritten_of_finished l h = rw h refl

unwritten_of_fresh : (l : InLine) → l.finished ≡ false → unwritten l ≡ pending l.endpoint
unwritten_of_fresh l h = rw h refl

unwritten_of_full :
    (l : InLine) (bytes : List ℕ)
    → l.finished ≡ false
    → l.endpoint.occupied ≡ true
    → payload l.endpoint ≡ bytes
    → unwritten l ≡ bytes ∷ []
unwritten_of_full l bytes fresh full q =
    unwritten_of_fresh l fresh ∙ (pending_of_full l.endpoint full ∙ ap (λ (b : List ℕ). b ∷ []) q)

module _ (l : InLine) (s : IsOrderly l) where
  produces-IsOrderly :
      (bytes : List ℕ) (e : Endpoint)
      → length bytes ≤ l.endpoint.max_packet_size
      → produce l.endpoint bytes ≡ some e
      → IsOrderly (record l { endpoint = e; accepted = l.accepted ++ bytes ∷ [] })
  produces-IsOrderly bytes e h p =
      let (free, q) = produce-published l.endpoint e bytes p in
      let small : length bytes < 65536 = omega (arith, h, s.fits) in
      subst
        (λ (x : Endpoint).
          IsOrderly (record l { endpoint = x; accepted = l.accepted ++ bytes ∷ [] }))
        (sym q) (published free small)
    where
      fresh : l.endpoint.occupied ≡ false → l.finished ≡ false
      fresh free = elim (Bool-cases l.finished) [
        | inl over ↦ (let (full, _) = s.taken over in absurd (cc))
        | inr on ↦ on
      ]

      published :
          l.endpoint.occupied ≡ false
          → length bytes < 65536
          → IsOrderly (record l {
            endpoint = publish l.endpoint bytes;
            accepted = l.accepted ++ bytes ∷ [];
          })
      published free small = record {
        fits = subst (λ n. n < 65536) (publish-size l.endpoint bytes) s.fits;
        current = λ more r. let (full, _, _) = s.current more r in absurd (cc);
        taken = λ over. let on = fresh free in absurd (cc);
        order =
            ap (λ (a : List (List ℕ)). a ++ bytes ∷ [])
              (s.order
                ∙ (ap (λ (a : List (List ℕ)). l.written ++ a)
                      (unwritten_of_fresh l (fresh free) ∙ pending_of_free l.endpoint free)
                    ∙ append-nil l.written))
            ∙ ap (λ (a : List (List ℕ)). l.written ++ a)
                (sym (
                  unwritten_of_full
                    (record l {
                      endpoint = publish l.endpoint bytes;
                      accepted = l.accepted ++ bytes ∷ [];
                    })
                    bytes (fresh free) (publish-occupied l.endpoint bytes)
                    (publish-payload l.endpoint bytes small)));
      }

  takes-IsOrderly :
      l.endpoint.occupied ≡ true
      → l.writing ≡ none
      → l.finished ≡ false
      → IsOrderly (record l { writing = some (payload l.endpoint) })
  takes-IsOrderly full idle fresh = record {
    fits = s.fits;
    current = λ bytes q. (full, ground arith, fresh);
    taken = λ over. absurd (cc);
    order = s.order;
  }

  writes-IsOrderly :
      (bytes : List ℕ)
      → l.writing ≡ some bytes
      → IsOrderly (record l { writing = none; finished = true; written = l.written ++ bytes ∷ [] })
  writes-IsOrderly bytes p =
      let (full, q, fresh) = s.current bytes p in
      record {
        fits = s.fits;
        current = λ more r. absurd (cc);
        taken = λ over. (full, refl);
        order =
            s.order
            ∙ (ap (λ (a : List (List ℕ)). l.written ++ a)
                  (unwritten_of_full l bytes fresh full (sym q))
                ∙ sym (append-nil (l.written ++ bytes ∷ [])));
      }

  releases-IsOrderly :
      l.finished ≡ true → IsOrderly (record l { endpoint = release l.endpoint; finished = false })
  unfolding release
  releases-IsOrderly over =
      let (full, idle) = s.taken over in
      record {
        fits = s.fits;
        current = λ more r. absurd (cc);
        taken = λ again. absurd (cc);
        order = s.order ∙ ap (λ (a : List (List ℕ)). l.written ++ a) (unwritten_of_finished l over);
      }

  InStep-IsOrderly : (l' : InLine) → InStep l l' → IsOrderly l'
  InStep-IsOrderly l' (produces bytes e h p q) =
      subst IsOrderly (sym q) (produces-IsOrderly bytes e h p)
  InStep-IsOrderly l' (takes full idle fresh q) =
      subst IsOrderly (sym q) (takes-IsOrderly full idle fresh)
  InStep-IsOrderly l' (writes bytes p q) = subst IsOrderly (sym q) (writes-IsOrderly bytes p)
  InStep-IsOrderly l' (releases over q) = subst IsOrderly (sym q) (releases-IsOrderly over)

-- Any number of steps.
pub data InSteps : InLine → InLine → Type 0 where
  rest_in : (l : InLine) → InSteps l l
  then_in : (l m n : InLine) → InStep l m → InSteps m n → InSteps l n

-- Whatever the order in which iface_write and the IN thread take their turns, the packets that were
-- written to FunctionFS and the one that is accepted and not yet written are together the packets
-- that iface_write accepted, in their order, and the thread writes the packet in the slot.
pub InSteps-IsOrderly : (l m : InLine) → IsOrderly l → InSteps l m → IsOrderly m
InSteps-IsOrderly l _ s (rest_in _) = s
InSteps-IsOrderly l n s (then_in _ m _ step steps) =
    InSteps-IsOrderly m n (InStep-IsOrderly l s m step) steps
