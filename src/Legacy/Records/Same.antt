-- ===== src/Legacy/Records/Same.antt =====
-- receive_record of platform/raspberry-pi/usb_functionfs.c beside that of
-- platform/safe3/usb_supervisor.c.
use virtual_trezor.Prelude.{
  ℕ, ◌+◌, ◌≡◌, refl, subst, ◌∙◌, ap, Bool, true, false, Option, none, some, List, [], ◌∷◌, ◌++◌,
  length, ltb, ◌==◌, if◌then◌else◌, Bool-cases, inl, inr,
}
use virtual_trezor.Bytes.{be16}
use virtual_trezor.Exec.{Outcome, Exec, done, died, exited, blocked, ◌>>◌, pure, die}
use virtual_trezor.Protocol.{
  Message, Ancillary, rights, other, header_is_valid, lengths_are_valid, record_of,
  max_transferred_fds,
}
use virtual_trezor.Legacy.State as LegacyState
use virtual_trezor.Legacy.Records as LegacyRecords
use virtual_trezor.Safe3.State as Safe3State
use virtual_trezor.Safe3.Records as Safe3Records

-- How a call ended, without the state that it left and the message that it died with.
pub data Ending {ℓ} (A : Type ℓ) : Type ℓ where
  returned : A → Ending A
  refused left waiting : Ending A

unfoldable pub ending {ℓ} : {F W : Type 0} {A : Type ℓ} → Outcome F W A → Ending A
ending (done a w) = returned a
ending (died e w) = refused
ending (exited w) = left
ending (blocked w) = waiting

ending->>= {ℓ κ} :
    {F G V W : Type 0} {A : Type ℓ} {B : Type κ} (f : A → Exec F V B) (g : A → Exec G W B)
    (o : Outcome F V A) (p : Outcome G W A)
    → ending o ≡ ending p
    → ((a : A) (v : V) (w : W) → ending (f a v) ≡ ending (g a w))
    → ending (elim o [
      | done a x ↦ f a x
      | died e x ↦ died e x
      | exited x ↦ exited x
      | blocked x ↦ blocked x
    ])
      ≡ ending (elim p [
        | done a x ↦ g a x
        | died e x ↦ died e x
        | exited x ↦ exited x
        | blocked x ↦ blocked x
      ])
unfolding ending
ending->>= f g (done a v) (done b w) h k =
    let e : a ≡ b = cc in subst (λ c. ending (f a v) ≡ ending (g c w)) e (k a v w)
ending->>= f g (died e v) (died e' w) h k = refl
ending->>= f g (exited v) (exited w) h k = refl
ending->>= f g (blocked v) (blocked w) h k = refl
ending->>= f g (done a v) (died e w) h k = absurd (cc)
ending->>= f g (done a v) (exited w) h k = absurd (cc)
ending->>= f g (done a v) (blocked w) h k = absurd (cc)
ending->>= f g (died e v) (done a w) h k = absurd (cc)
ending->>= f g (died e v) (exited w) h k = absurd (cc)
ending->>= f g (died e v) (blocked w) h k = absurd (cc)
ending->>= f g (exited v) (done a w) h k = absurd (cc)
ending->>= f g (exited v) (died e w) h k = absurd (cc)
ending->>= f g (exited v) (blocked w) h k = absurd (cc)
ending->>= f g (blocked v) (done a w) h k = absurd (cc)
ending->>= f g (blocked v) (died e w) h k = absurd (cc)
ending->>= f g (blocked v) (exited w) h k = absurd (cc)

close_fds-ending :
    (fds : List (Option ℕ)) (w : LegacyState.World) (v : Safe3State.World)
    → ending (LegacyRecords.close_fds fds w) ≡ ending (Safe3Records.close_fds fds v)
unfolding ending LegacyRecords.close_fds Safe3Records.close_fds
close_fds-ending [] w v = refl
close_fds-ending (none ∷ fds) w v = close_fds-ending fds w v
close_fds-ending (some fd ∷ fds) w v = close_fds-ending fds _ _

collect_fds-ending :
    (items : List Ancillary) (fds : List ℕ) (w : LegacyState.World) (v : Safe3State.World)
    → ending (LegacyRecords.collect_fds items fds w) ≡ ending (Safe3Records.collect_fds items fds v)
unfolding ending LegacyRecords.collect_fds Safe3Records.collect_fds
collect_fds-ending [] fds w v = refl
collect_fds-ending (other ∷ items) fds w v = refl
collect_fds-ending (rights new ∷ items) fds w v =
    elim (Bool-cases (ltb max_transferred_fds (length fds + length new))) [
      | inl h ↦ rw h refl
      | inr h ↦ rw h (collect_fds-ending items (fds ++ new) w v)
    ]

count-ending :
    (packet : List ℕ) (b : Bool) (fds : List ℕ) (w : LegacyState.World) (v : Safe3State.World)
    → ending (
        (if b
            then pure (record_of packet fds)
            else (LegacyRecords.close_record_fds (record_of packet fds)
                >> die LegacyState.descriptor_count_mismatch))
          w)
      ≡ ending (
          (if b
              then pure (record_of packet fds)
              else (Safe3Records.close_record_fds (record_of packet fds)
                  >> die Safe3State.descriptor_count_mismatch))
            v)
unfolding ending LegacyRecords.close_record_fds Safe3Records.close_record_fds
count-ending packet true fds w v = refl
count-ending packet false fds w v =
    ending->>= (λ _. die LegacyState.descriptor_count_mismatch)
      (λ _. die Safe3State.descriptor_count_mismatch) _ _
      (close_fds-ending ((record_of packet fds).fds) w v) (λ _ _ _. refl)

decode_message-ending :
    (m : Message) (w : LegacyState.World) (v : Safe3State.World)
    → ending (LegacyRecords.decode_message m w) ≡ ending (Safe3Records.decode_message m v)
unfolding ending LegacyRecords.decode_message Safe3Records.decode_message
decode_message-ending m w v = elim (Bool-cases (length m.bytes == 0)) [
  | inl h ↦ rw h refl
  | inr h ↦ elim (Bool-cases (header_is_valid m)) [
    | inr bad ↦ rw (h, bad) refl
    | inl good ↦ elim (Bool-cases (lengths_are_valid m.bytes)) [
      | inr bad ↦ rw (h, good, bad) refl
      | inl fit ↦
          rw (h, good, fit)
            (ending->>= _ _ (LegacyRecords.collect_fds m.ancillary [] w)
              (Safe3Records.collect_fds m.ancillary [] v) (collect_fds-ending m.ancillary [] w v)
              λ fds w' v'. count-ending m.bytes (length fds == be16 m.bytes 6) fds w' v')
    ]
  ]
]

receive_from-ending :
    (dont_wait : Bool) (inbox : List (Option Message)) (w : LegacyState.World)
    (v : Safe3State.World)
    → ending (LegacyRecords.receive_record dont_wait (record w { inbox = inbox }))
      ≡ ending (Safe3Records.receive_record dont_wait (record v { inbox = inbox }))
unfolding ending LegacyRecords.receive_record LegacyRecords.receive_message
    Safe3Records.receive_record Safe3Records.receive_message
receive_from-ending true [] w v = refl
receive_from-ending false [] w v = refl
receive_from-ending dont_wait (none ∷ rest) w v = refl
receive_from-ending dont_wait (some m ∷ rest) w v = decode_message-ending m _ _

-- Where the same messages are there to be received, the receive_record of the Trezor One's worker
-- ends as that of the Safe 3 worker does, with the same record where one is returned: both return it,
-- both fail, both exit or both wait.
pub receive_record-ending :
    (dont_wait : Bool) (w : LegacyState.World) (v : Safe3State.World)
    → w.inbox ≡ v.inbox
    → ending (LegacyRecords.receive_record dont_wait w)
      ≡ ending (Safe3Records.receive_record dont_wait v)
receive_record-ending dont_wait w v h =
    receive_from-ending dont_wait w.inbox w v
    ∙ ap (λ inbox. ending (Safe3Records.receive_record dont_wait (record v { inbox = inbox }))) h
