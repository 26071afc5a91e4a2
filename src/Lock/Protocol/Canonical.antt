-- ===== src/Lock/Protocol/Canonical.antt =====
-- What is decoded is encoded again: no frame but the encoder's own is accepted.
use orbitive.Prelude.{
  ℕ, ◌+◌, ◌-◌, ◌<◌, ◌≤◌, ◌≡◌, refl, ap, ap₂, ◌∙◌, Bool, true, false, List, ◌++◌, Option, none, some,
  length, get_or, min, if◌then◌else◌, u64_mod, Result, ok, arith,
}
use orbitive.Prelude.Bytes.{AreBytes}
use orbitive.Lock.Types.{
  LockKey, LockOwner, LockTransition, renewed, released, transition_key, transition_owner,
  transition_lock_id, transition_revision, Error,
}
use orbitive.Prelude.Bytes.{slice}
use orbitive.Ring.Frame.{Frame}
use orbitive.Lock.Protocol.{
  LockEvent, magic, version, event_header_len, stamps, header, encode, decode_transition,
  well_formed, decode,
}
use orbitive.Prelude.Bytes.{word}
use orbitive.Lock.Protocol.Pieces.{length-slice, word_bound, whole}

-- The transition that is decoded has the parts it was decoded from.
decode_transition-parts :
    (kind ver id acquired expires : ℕ) (key : LockKey) (owner : LockOwner) (t : LockTransition)
    → decode_transition kind ver id acquired expires key owner ≡ some t
    → (stamps t ≡ (kind, acquired, expires))
      × (transition_lock_id t ≡ id)
      × (transition_key t ≡ key)
      × (transition_owner t ≡ owner)
      × (transition_revision t ≡ ver)
unfolding decode_transition transition_revision transition_lock_id transition_key transition_owner
decode_transition-parts kind ver id acquired expires key owner (LockTransition.acquired l) e =
    (ground arith, ground arith, ground arith, ground arith, ground arith)
decode_transition-parts kind ver id acquired expires key owner (renewed l) e =
    (ground arith, ground arith, ground arith, ground arith, ground arith)
decode_transition-parts kind ver id acquired expires key owner (released i k o r) e =
    (ground arith, ground arith, ground arith, ground arith, ground arith)

-- What a well formed payload says.
well_formed-says :
    (payload_max : ℕ) (f : Frame)
    → AreBytes f.payload
    → well_formed payload_max f ≡ true
    → (event_header_len + word f.payload 5 2 + word f.payload 7 2 + word f.payload 9 2
        ≡ length f.payload)
      × (word f.payload 0 4 ≡ magic)
      × (get_or f.payload 4 0 ≡ version)
      × (word f.payload 5 2 + word f.payload 7 2 + word f.payload 9 2 ≤ payload_max)
unfolding well_formed
well_formed-says payload_max f b h =
    let long : event_header_len ≤ length f.payload = ground arith in
    let n = word_bound f.payload b 5 (omega arith) in
    let l = word_bound f.payload b 7 (omega arith) in
    let o = word_bound f.payload b 9 (omega arith) in
    (ground arith, ground arith, ground arith, ground arith)

decoded : Frame → Option LockTransition
decoded f =
    decode_transition f.kind f.ver (word f.payload 11 8) (word f.payload 19 8) (word f.payload 27 8)
      (record {
        namespace = slice event_header_len (word f.payload 5 2) f.payload;
        label = slice (event_header_len + word f.payload 5 2) (word f.payload 7 2) f.payload;
      })
      (slice (event_header_len + word f.payload 5 2 + word f.payload 7 2) (word f.payload 9 2)
        f.payload)

picked :
    (b : Bool) (o : Option LockTransition) (id : ℕ) (e : LockEvent)
    → (if b
        then elim o [ none ↦ none | some t ↦ some (record { event_id = id; transition = t }) ]
        else none)
      ≡ some e
    → (b ≡ true) × (o ≡ some e.transition) × (e.event_id ≡ id)
picked true (some t) id e h = (refl, ground arith, ground arith)
picked true none id e h = cc
picked false o id e h = cc

decode-some :
    (payload_max : ℕ) (f : Frame) (e : LockEvent)
    → decode payload_max f ≡ some e
    → (well_formed payload_max f ≡ true) × (decoded f ≡ some e.transition) × (e.event_id ≡ f.id)
unfolding decode decoded
decode-some payload_max f e h = picked (well_formed payload_max f) (decoded f) f.id e h

abbrev built : (kind id acquired expires : ℕ) → LockKey → LockOwner → Result Error (ℕ × List ℕ)
built kind id acquired expires key owner = ok (
  kind,
  header (length key.namespace) (length key.label) (length owner) id acquired expires
      ++ (key.namespace ++ (key.label ++ owner)),
)

encode-built :
    (payload_capacity payload_max : ℕ) (t : LockTransition)
    → length (transition_key t).namespace
        + length (transition_key t).label
        + length (transition_owner t)
      ≤ min (payload_capacity - event_header_len) payload_max
    → length (transition_key t).namespace + length (transition_key t).label < u64_mod - 1
    → encode payload_capacity payload_max t
      ≡ built
          (stamps t).0
          (transition_lock_id t)
          (stamps t).1
          (stamps t).2
          (transition_key t)
          (transition_owner t)
unfolding encode
encode-built payload_capacity payload_max t room small = ground arith

-- A frame that fits the ring's slots and is decoded is the encoder's own: its event's transition is
-- encoded to the same kind and the same bytes, with the frame's revision.
pub encode-decode :
    (payload_capacity payload_max : ℕ) (f : Frame) (e : LockEvent)
    → AreBytes f.payload
    → length f.payload ≤ payload_capacity
    → decode payload_max f ≡ some e
    → (encode payload_capacity payload_max e.transition ≡ ok (f.kind, f.payload))
      × (transition_revision e.transition ≡ f.ver)
      × (e.event_id ≡ f.id)
unfolding decoded
encode-decode payload_capacity payload_max f e b room h =
    let (w, d, id) = decode-some payload_max f e h in
    let (sum, signed, versioned, fits) = well_formed-says payload_max f b w in
    let (s, i, k, o, r) = decode_transition-parts _ _ _ _ _ _ _ _ d in
    let n = length-slice f.payload b event_header_len (word f.payload 5 2) (omega arith) in
    let l =
      length-slice f.payload b (event_header_len + word f.payload 5 2) (word f.payload 7 2)
        (omega arith) in
    let w' =
      length-slice f.payload b (event_header_len + word f.payload 5 2 + word f.payload 7 2)
        (word f.payload 9 2) (omega arith) in
    let kn = ap (λ (x : LockKey). length x.namespace) k ∙ n in
    let kl = ap (λ (x : LockKey). length x.label) k ∙ l in
    let kw = ap length o ∙ w' in
    let bn = word_bound f.payload b 5 (omega arith) in
    let bl = word_bound f.payload b 7 (omega arith) in
    (
      encode-built payload_capacity payload_max e.transition (omega arith) (omega arith)
          ∙ ap₂
              (λ (x : ℕ × ℕ × ℕ) y.
                built x.0 y x.1 x.2 (transition_key e.transition) (transition_owner e.transition))
              s i
          ∙ ap₂
              (λ x y.
                built f.kind (word f.payload 11 8) (word f.payload 19 8) (word f.payload 27 8) x y)
              k o
          ∙ ap (λ x. ok (f.kind, x)) (whole f.payload b sum signed versioned),
      r,
      id,
    )
