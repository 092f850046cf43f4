-- ===== src/Legacy/Threads/Slot.antt =====
-- The hand-over of an OUT endpoint in platform/raspberry-pi/usb_functionfs.c, the thread of
-- endpoint_thread_main on one side and virtual_ep_read_packet on the other, beside a slot for one
-- packet.
use virtual_trezor.Prelude.{
  ℕ, ◌≤◌, ◌<◌, ◌≡◌, refl, sym, subst, true, false, Option, none, some, List, [], ◌∷◌, ◌++◌, length,
  ltb, inl, inr, Bool-cases, arith, if◌then◌else◌,
}
use virtual_trezor.Exec.{Outcome, done, died, exited, blocked, ◌>>=◌, pure, >>=-done, >>=-died}
use virtual_trezor.Protocol.{Answer, number, buffer}
use virtual_trezor.Legacy.State.{World, Worker, Fault}
use virtual_trezor.Legacy.Packets.{virtual_ep_read_packet}
use virtual_trezor.Legacy.Threads.{endpoint_thread_round, occupy}
use virtual_trezor.Legacy.Endpoints.Table.{put_endpoint-found}
use virtual_trezor.Legacy.Threads.Rounds.{
  Holds, deliver-empty, deliver-failing, read-none, read-held, read-short,
}

-- What happens at an endpoint: the host's packet reaches the thread, or the firmware reads with room
-- for so many bytes.
pub data Step : Type 0 where
  deliver : List ℕ → Step
  read : ℕ → Step

-- The system's answers for the steps: the packet, and then the notification's write.
unfoldable pub answers_for : List Step → List Answer → List Answer
answers_for [] rest = rest
answers_for (deliver bytes ∷ steps) rest = buffer bytes ∷ number 8 ∷ answers_for steps rest
answers_for (read count ∷ steps) rest = answers_for steps rest

unfoldable pub perform : ℕ → Step → Worker (List (List ℕ))
perform address (deliver bytes) = endpoint_thread_round address >>= λ _. pure []
perform address (read count) = virtual_ep_read_packet address count >>= λ packet. pure (packet ∷ [])

-- The steps in their order, with what the firmware read.
unfoldable pub perform_all : ℕ → List Step → Worker (List (List ℕ))
perform_all address [] = pure []
perform_all address (step ∷ steps) =
    perform address step >>= λ packets. perform_all address steps >>= λ more. pure (packets ++ more)

-- The specification: a slot that holds one packet of `max` bytes at most. `none` is a failure.
unfoldable pub slot_step : ℕ → Step → Option (List ℕ) → Option (Option (List ℕ) × List (List ℕ))
slot_step max (deliver bytes) (some held) = none
slot_step max (deliver bytes) none = if ltb max (length bytes) then none else some (some bytes, [])
slot_step max (read count) none = some (none, [] ∷ [])
slot_step max (read count) (some held) =
    if ltb count (length held) then none else some (none, held ∷ [])

abbrev prepend :
    List (List ℕ)
    → Option (Option (List ℕ) × List (List ℕ))
    → Option (Option (List ℕ) × List (List ℕ))
prepend packets none = none
prepend packets (some (slot, more)) = some (slot, packets ++ more)

unfoldable pub slot_run : ℕ → List Step → Option (List ℕ) → Option (Option (List ℕ) × List (List ℕ))
slot_run max [] slot = some (slot, [])
slot_run max (step ∷ steps) slot = elim (slot_step max step slot) [
  | none ↦ none
  | some (slot', packets) ↦ prepend packets (slot_run max steps slot')
]

-- An outcome that is what the specification says: the packets and the slot, or a failure.
abbrev pub Agrees :
    (address max : ℕ)
    → List Answer
    → Outcome Fault World (List (List ℕ))
    → Option (Option (List ℕ) × List (List ℕ))
    → Type 0
Agrees address max rest (done packets w) (some (slot, packets')) =
    (packets ≡ packets') × (w.answers ≡ rest) × Holds address max slot w
Agrees address max rest (died e w) none = Unit
Agrees address max rest _ _ = ⊥

module _ (address max : ℕ) (some_address : 0 < address) (low : address ≤ 7) where
  outcome-Agrees :
      (step : Step) (rest : List Answer) (w : World) (o : Outcome Fault World (List (List ℕ)))
      (r : Option (Option (List ℕ) × List (List ℕ)))
      → perform address step w ≡ o
      → Agrees address max rest o r
      → Agrees address max rest (perform address step w) r
  outcome-Agrees step rest w o r p h = subst (λ q. Agrees address max rest q r) (sym p) h

  deliver-Agrees :
      (bytes : List ℕ) (slot : Option (List ℕ)) (rest : List Answer) (w : World)
      → Holds address max slot w
      → Agrees address max rest
          (perform address (deliver bytes) (record w { answers = buffer bytes ∷ number 8 ∷ rest }))
          (slot_step max (deliver bytes) slot)
  unfolding perform slot_step
  deliver-Agrees bytes (some held) rest w (e, on, found, ready, size, full) =
      let (fault, v, p) = deliver-failing address e bytes rest w found (inl full.0) in
      outcome-Agrees (deliver bytes) rest _ _ _
        (>>=-died (endpoint_thread_round address) (λ _. pure []) _ v fault p) tt
  deliver-Agrees bytes none rest w (e, on, found, ready, size, empty) =
      elim (Bool-cases (ltb max (length bytes))) [
        | inl long ↦
            let (fault, v, p) = deliver-failing address e bytes rest w found (inr (ground arith)) in
            rw long (
              outcome-Agrees (deliver bytes) rest _ _ none
                (>>=-died (endpoint_thread_round address) (λ _. pure []) _ v fault p) tt)
        | inr short ↦ rw short (
            outcome-Agrees (deliver bytes) rest _ _ (some (some bytes, []))
              (>>=-done (endpoint_thread_round address) (λ _. pure []) _ _ true
                (deliver-empty address e bytes rest w found empty (ground arith)))
              (
                refl,
                refl,
                (
                  occupy bytes e,
                  on,
                  put_endpoint-found address w.usb.endpoints e (occupy bytes e) found,
                  ready,
                  size,
                  (refl, refl, refl),
                ),
              ))
      ]

  read-Agrees :
      (count : ℕ) (slot : Option (List ℕ)) (w : World)
      → Holds address max slot w
      → Agrees address max w.answers
          (perform address (read count) w)
          (slot_step max (read count) slot)
  unfolding perform slot_step
  read-Agrees count none w (e, on, found, ready, size, empty) =
      outcome-Agrees (read count) w.answers w _ (some (none, [] ∷ []))
        (>>=-done (virtual_ep_read_packet address count) (λ packet. pure (packet ∷ [])) w w []
          (read-none address count e w some_address low found empty))
        (refl, refl, (e, on, found, ready, size, empty))
  read-Agrees count (some held) w (e, on, found, ready, size, full) =
      elim (Bool-cases (ltb count (length held))) [
        | inl short ↦ rw short (
            outcome-Agrees (read count) w.answers w _ none
              (>>=-died (virtual_ep_read_packet address count) (λ packet. pure (packet ∷ [])) w w _
                (read-short address count e held w some_address low on ready found full
                  (ground arith)))
              tt)
        | inr enough ↦ rw enough (
            outcome-Agrees (read count) w.answers w _ (some (none, held ∷ []))
              (>>=-done (virtual_ep_read_packet address count) (λ packet. pure (packet ∷ [])) w _
                held
                (read-held address count e held w some_address low on ready found full
                  (ground arith)))
              (
                refl,
                refl,
                (
                  record e { transfer_occupied = false },
                  on,
                  put_endpoint-found address w.usb.endpoints e
                      (record e { transfer_occupied = false }) found,
                  ready,
                  size,
                  refl,
                ),
              ))
      ]

  prepend-Agrees :
      (packets packets' : List (List ℕ)) (rest : List Answer)
      (o : Outcome Fault World (List (List ℕ))) (r : Option (Option (List ℕ) × List (List ℕ)))
      → packets ≡ packets'
      → Agrees address max rest o r
      → Agrees address max rest
          (elim o [
            | done more w ↦ done (packets ++ more) w
            | died e w ↦ died e w
            | exited w ↦ exited w
            | blocked w ↦ blocked w
          ])
          (prepend packets' r)
  prepend-Agrees packets packets' rest (done more w) (some (slot, more')) same (p, left, holds) =
      (cc, left, holds)
  prepend-Agrees packets packets' rest (done more w) none same h = absurd h
  prepend-Agrees packets packets' rest (died e w) none same h = tt
  prepend-Agrees packets packets' rest (died e w) (some r) same h = absurd h
  prepend-Agrees packets packets' rest (exited w) r same h = absurd h
  prepend-Agrees packets packets' rest (blocked w) r same h = absurd h

  then-Agrees :
      (steps : List Step) (mid rest : List Answer) (o : Outcome Fault World (List (List ℕ)))
      (r : Option (Option (List ℕ) × List (List ℕ)))
      → Agrees address max mid o r
      → ((slot : Option (List ℕ)) (v : World)
          → v.answers ≡ mid
          → Holds address max slot v
          → Agrees address max rest (perform_all address steps v) (slot_run max steps slot))
      → Agrees address max rest
          (elim o [
            | done packets w ↦ (perform_all address steps >>= λ more. pure (packets ++ more)) w
            | died e w ↦ died e w
            | exited w ↦ exited w
            | blocked w ↦ blocked w
          ])
          (elim r [
            | none ↦ none
            | some (slot, packets) ↦ prepend packets (slot_run max steps slot)
          ])
  then-Agrees steps mid rest (done packets v) (some (slot, packets')) (same, left, holds) k =
      prepend-Agrees packets packets' rest (perform_all address steps v) (slot_run max steps slot)
        same (k slot v left holds)
  then-Agrees steps mid rest (done packets v) none h k = absurd h
  then-Agrees steps mid rest (died e v) none h k = tt
  then-Agrees steps mid rest (died e v) (some r) h k = absurd h
  then-Agrees steps mid rest (exited v) r h k = absurd h
  then-Agrees steps mid rest (blocked v) r h k = absurd h

  answered-Agrees :
      (step : Step) (steps : List Step) (slot : Option (List ℕ)) (rest : List Answer) (w : World)
      → w.answers ≡ answers_for (step ∷ steps) rest
      → Holds address max slot w
      → Agrees address max
          (answers_for steps rest)
          (perform address step w)
          (slot_step max step slot)
  unfolding answers_for
  answered-Agrees (deliver bytes) steps slot rest w p h =
      subst
        (λ l.
          Agrees address max (answers_for steps rest)
            (perform address (deliver bytes) (record w { answers = l }))
            (slot_step max (deliver bytes) slot))
        (sym p) (deliver-Agrees bytes slot (answers_for steps rest) w h)
  answered-Agrees (read count) steps slot rest w p h =
      subst
        (λ l.
          Agrees address max l (perform address (read count) w) (slot_step max (read count) slot))
        p (read-Agrees count slot w h)

  run-Agrees :
      (steps : List Step) (slot : Option (List ℕ)) (rest : List Answer) (w : World)
      → w.answers ≡ answers_for steps rest
      → Holds address max slot w
      → Agrees address max rest (perform_all address steps w) (slot_run max steps slot)
  unfolding perform_all slot_run answers_for
  run-Agrees [] slot rest w p h = (refl, p, h)
  run-Agrees (step ∷ steps) slot rest w p h =
      then-Agrees steps (answers_for steps rest) rest (perform address step w)
        (slot_step max step slot) (answered-Agrees step steps slot rest w p h)
        λ slot' v left holds. run-Agrees steps slot' rest v left holds

-- The hand-over of an OUT endpoint that is enabled and not stalled refines a slot for one packet: for
-- every sequence of packets that the host sends and of reads by the firmware, where the system's reads
-- and notifications succeed, the firmware reads what the slot gives and the endpoint holds what the
-- slot holds, and the worker dies where the slot fails: a packet that is longer than the endpoint's
-- maximum, one that finds the slot occupied, and a read with less room than the packet.
pub perform_all-Agrees :
    (address max : ℕ) (steps : List Step) (slot : Option (List ℕ)) (rest : List Answer) (w : World)
    → 0 < address
    → address ≤ 7
    → w.answers ≡ answers_for steps rest
    → Holds address max slot w
    → Agrees address max rest (perform_all address steps w) (slot_run max steps slot)
perform_all-Agrees address max steps slot rest w some_address low p h =
    run-Agrees address max some_address low steps slot rest w p h
