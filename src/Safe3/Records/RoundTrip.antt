-- ===== src/Safe3/Records/RoundTrip.antt =====
-- What a record is on the wire in platform/safe3/usb_supervisor.c, between send_record and
-- receive_record.
use virtual_trezor.Prelude.{
  ℕ, ◌+◌, ◌^◌, ◌≤◌, ◌<◌, ◌≡◌, refl, sym, ap, subst, ◌∙◌, true, false, some, List, [], ◌∷◌, ◌++◌,
  map, length, drop, arith, if◌then◌else◌, length-append, Bool-cases, inl, inr, ltb, ◌==◌,
}
use mathlib.Core.List.{append_assoc, append-nil}
use virtual_trezor.Bytes.{byte, be16, be32, put_be32}
use virtual_trezor.Exec.{Returns, Returns->>=, Returns_imp, Returns-all, pure, done, ◌>>◌, die}
use virtual_trezor.Safe3.State.{
  World, Fault, Message, Ancillary, WorkerRecord, rights, other, max_record_length,
  max_transferred_fds, descriptor_count_mismatch,
}
use virtual_trezor.Safe3.Records.{
  decode_message, collect_fds, header_is_valid, lengths_are_valid, record_of, encode_record,
  close_record_fds,
}

-- The message that carries a packet without descriptors.
abbrev pub carries : List ℕ → Message
carries packet = record { bytes = packet; truncated = false; ancillary = [] }

length-encode_record :
    (kind generation request_id : ℕ) (body : List ℕ)
    → length (encode_record kind generation request_id body) ≡ 20 + length body
unfolding encode_record
length-encode_record kind generation request_id body = omega arith

-- A record that the worker encodes is read back with its kind, generation, request id and body, and
-- with no descriptors; the world is left alone.
pub decode-encode_record :
    (kind generation request_id : ℕ) (body : List ℕ) (w : World)
    → generation < 2 ^ 32
    → request_id < 2 ^ 32
    → length body ≤ max_record_length
    → decode_message (carries (encode_record kind generation request_id body)) w
      ≡ done
          (record {
            kind = kind;
            generation = generation;
            request_id = request_id;
            body = body;
            fds = [];
          })
          w
unfolding decode_message encode_record header_is_valid lengths_are_valid collect_fds record_of be16
    be32 put_be32
decode-encode_record kind generation request_id body w g r b = ground arith

-- The descriptors of the SCM_RIGHTS items, one group behind the other.
abbrev pub joined : List (List ℕ) → List ℕ
joined [] = []
joined (group ∷ groups) = group ++ joined groups

-- The message that a record came from, described by its bytes: the magic and the version, a header of
-- the declared length, and descriptors in `groups` of SCM_RIGHTS items and in nothing else.
pub record IsWellFormed (m : Message) (groups : List (List ℕ)) : Type 0 where
  pub whole : m.truncated ≡ false
  pub letter_u : byte m.bytes 0 ≡ b'U'
  pub letter_g : byte m.bytes 1 ≡ b'G'
  pub letter_s : byte m.bytes 2 ≡ b'S'
  pub letter_p : byte m.bytes 3 ≡ b'P'
  pub version : byte m.bytes 4 ≡ 1
  pub exact : length m.bytes ≡ 20 + be32 m.bytes 16
  pub short : be32 m.bytes 16 ≤ 1048576
  pub items : m.ancillary ≡ map rights groups
  pub declared : length (joined groups) ≡ be16 m.bytes 6
  pub few : length (joined groups) ≤ 32

-- The record has the message's fields and descriptors, and nothing else has changed.
abbrev pub IsRead : Message → World → WorkerRecord → World → Type 0
IsRead m w r w' =
    (groups : List (List ℕ)) × IsWellFormed m groups
    × (r ≡ record {
      kind = byte m.bytes 5;
      generation = be32 m.bytes 8;
      request_id = be32 m.bytes 12;
      body = drop 20 m.bytes;
      fds = map some (joined groups);
    })
    × (w' ≡ w)

-- What collect_fds returns behind the descriptors that it has.
abbrev Collected : List Ancillary → List ℕ → List ℕ → Type 0
Collected items fds out =
    (groups : List (List ℕ)) × (items ≡ map rights groups) × (out ≡ fds ++ joined groups)

collect_fds-Collected :
    (items : List Ancillary) (fds : List ℕ) (w : World)
    → length fds ≤ 32
    → Returns
        (collect_fds items fds w)
        λ out w'. Collected items fds out × (length out ≤ 32) × (w' ≡ w)
unfolding collect_fds
collect_fds-Collected [] fds w h = (([], refl, sym (append-nil fds)), h, refl)
collect_fds-Collected (other ∷ items) fds w h = tt
collect_fds-Collected (rights new ∷ items) fds w h =
    elim (Bool-cases (ltb max_transferred_fds (length fds + length new))) [
      | inl many ↦ rw many tt
      | inr few ↦ rw few (
          Returns_imp (λ out w'. Collected items (fds ++ new) out × (length out ≤ 32) × (w' ≡ w)) _
            (collect_fds items (fds ++ new) w)
            (λ out _ ((groups, p, q), le, same). (
              (new ∷ groups, ap (◌∷◌ (rights new)) p, q ∙ append_assoc fds new (joined groups)),
              le,
              same,
            ))
            (collect_fds-Collected items (fds ++ new) w (ground (arith, length-append fds new))))
    ]

close_fds_dies :
    (r : WorkerRecord) (e : Fault) (w : World) (P : WorkerRecord → World → Type 0)
    → Returns ((close_record_fds r >> die e) w) P
close_fds_dies r e w P =
    Returns->>= (close_record_fds r) (λ _. die e) (λ _ _. Unit {0}) P w
      (Returns-all (close_record_fds r w)) (λ _ _ _. tt)

well_formed :
    (m : Message) (groups : List (List ℕ))
    → header_is_valid m ≡ true
    → lengths_are_valid m.bytes ≡ true
    → m.ancillary ≡ map rights groups
    → length (joined groups) ≤ 32
    → (length (joined groups) == be16 m.bytes 6) ≡ true
    → IsWellFormed m groups
unfolding header_is_valid lengths_are_valid
well_formed m groups h l p few d = record {
  whole = ground arith;
  letter_u = ground arith;
  letter_g = ground arith;
  letter_s = ground arith;
  letter_p = ground arith;
  version = ground arith;
  exact = ground arith;
  short = ground arith;
  items = p;
  declared = ground arith;
  few = few;
}

take_fds :
    (m : Message) (w w' : World) (fds : List ℕ)
    → header_is_valid m ≡ true
    → lengths_are_valid m.bytes ≡ true
    → Collected m.ancillary [] fds × (length fds ≤ 32) × (w' ≡ w)
    → Returns
        ((if length fds == be16 m.bytes 6
            then pure (record_of m.bytes fds)
            else (close_record_fds (record_of m.bytes fds) >> die descriptor_count_mismatch))
          w')
        (IsRead m w)
unfolding record_of
take_fds m w w' fds h l ((groups, p, q), few, same) =
    elim (Bool-cases (length fds == be16 m.bytes 6)) [
      | inl d ↦ rw d (
        groups,
        well_formed m groups h l p (subst (λ (x : List ℕ). length x ≤ 32) q few)
            (subst (λ (x : List ℕ). (length x == be16 m.bytes 6) ≡ true) q d),
        ap (record_of m.bytes) q,
        same,
      )
      | inr d ↦ rw d (close_fds_dies _ _ w' (IsRead m w))
    ]

-- A record is read only from a message that is not truncated, begins with the magic and the version,
-- is as long as it declares, and carries its descriptors, as many as it declares, in SCM_RIGHTS items
-- alone. The record has the message's kind, generation, request id and body and exactly those
-- descriptors, in their order, and the worker's state is left alone.
pub decode_message-IsWellFormed :
    (m : Message) (w : World) → Returns (decode_message m w) (IsRead m w)
unfolding decode_message
decode_message-IsWellFormed m w = elim (Bool-cases (length m.bytes == 0)) [
  | inl empty ↦ rw empty tt
  | inr some_bytes ↦ elim (Bool-cases (header_is_valid m)) [
    | inr bad ↦ rw (some_bytes, bad) tt
    | inl h ↦ elim (Bool-cases (lengths_are_valid m.bytes)) [
      | inr bad ↦ rw (some_bytes, h, bad) tt
      | inl l ↦
          rw (some_bytes, h, l)
            (Returns->>= (collect_fds m.ancillary []) _
              (λ out w'. Collected m.ancillary [] out × (length out ≤ 32) × (w' ≡ w)) (IsRead m w) w
              (collect_fds-Collected m.ancillary [] w (omega arith))
              (λ fds w' p. take_fds m w w' fds h l p))
    ]
  ]
]
