-- ===== src/Lock/Protocol/Roundtrip.antt =====
-- What is encoded is decoded again.
use orbitive.Prelude.{
  ℕ, ◌+◌, ◌-◌, ◌%◌, ◌<◌, ◌≤◌, ◌≡◌, refl, ap, ◌∙◌, true, List, [], ◌∷◌, ◌++◌, some, length, take,
  drop, length-append, take-length_append, drop-append, drop-length_append, min, u16_mod, u64_mod,
  ok, arith,
}
use native.Mathlib.Nat.{mod-eq_of_lt}
use orbitive.Prelude.Bytes.{from_le_bytes-to_le_bytes}
use orbitive.Lock.Types.{
  LockTransition, renewed, released, transition_key, transition_owner, transition_lock_id,
  transition_revision,
}
use orbitive.Prelude.Bytes.{slice}
use orbitive.Lock.Protocol.{
  event_header_len, stamps, header, encode, decode_transition, well_formed, decode,
}
use orbitive.Prelude.Bytes.{word}

-- What every transition of the table has: names that are not empty and fit, words in range, a
-- revision from 1 on, and for a lease a time span.
abbrev pub Spans : LockTransition → Type 0
Spans (LockTransition.acquired l) =
    (0 < l.acquired_at_ms) × (l.acquired_at_ms < l.expires_at_ms) × (l.expires_at_ms < u64_mod)
Spans (renewed l) =
    (0 < l.acquired_at_ms) × (l.acquired_at_ms < l.expires_at_ms) × (l.expires_at_ms < u64_mod)
Spans (released i k o r) = Unit {0}

pub record Proper (t : LockTransition) : Type 0 where
  pub namespace_pos : 0 < length (transition_key t).namespace
  pub namespace_fits : length (transition_key t).namespace < u16_mod
  pub label_pos : 0 < length (transition_key t).label
  pub label_fits : length (transition_key t).label < u16_mod
  pub owner_pos : 0 < length (transition_owner t)
  pub owner_fits : length (transition_owner t) < u16_mod
  pub id_word : transition_lock_id t < u64_mod
  pub revision_pos : 0 < transition_revision t
  pub spans : Spans t

take_all : (xs : List ℕ) → take (length xs) xs ≡ xs
take_all [] = refl
take_all (x ∷ xs) = ap (◌∷◌ x) (take_all xs)

add_assoc : (a b c : ℕ) → a + b + c ≡ a + (b + c)
add_assoc a b c = omega arith

module _ (ns lb ow : List ℕ) (id acquired expires : ℕ) (hn : length ns < u16_mod)
    (hl : length lb < u16_mod) (ho : length ow < u16_mod) (hi : id < u64_mod)
    (ha : acquired < u64_mod) (he : expires < u64_mod) where
  abbrev head : List ℕ
  head = header (length ns) (length lb) (length ow) id acquired expires

  abbrev packed : List ℕ
  packed = head ++ (ns ++ (lb ++ ow))

  word-namespace : word packed 5 2 ≡ length ns
  word-namespace = from_le_bytes-to_le_bytes 2 (length ns % u16_mod) (omega arith) ∙ mod-eq_of_lt hn

  word-label : word packed 7 2 ≡ length lb
  word-label = from_le_bytes-to_le_bytes 2 (length lb % u16_mod) (omega arith) ∙ mod-eq_of_lt hl

  word-owner : word packed 9 2 ≡ length ow
  word-owner = from_le_bytes-to_le_bytes 2 (length ow % u16_mod) (omega arith) ∙ mod-eq_of_lt ho

  word-id : word packed 11 8 ≡ id
  word-id = from_le_bytes-to_le_bytes 8 id hi

  word-acquired : word packed 19 8 ≡ acquired
  word-acquired = from_le_bytes-to_le_bytes 8 acquired ha

  word-expires : word packed 27 8 ≡ expires
  word-expires = from_le_bytes-to_le_bytes 8 expires he

  slice-namespace : slice event_header_len (length ns) packed ≡ ns
  slice-namespace = take-length_append ns (lb ++ ow)

  slice-label : slice (event_header_len + length ns) (length lb) packed ≡ lb
  slice-label =
      ap (take (length lb))
        (drop-append head (ns ++ (lb ++ ow)) (length ns) ∙ drop-length_append ns (lb ++ ow))
      ∙ take-length_append lb ow

  slice-owner : slice (event_header_len + length ns + length lb) (length ow) packed ≡ ow
  slice-owner =
      ap (λ n. take (length ow) (drop n packed))
        (add_assoc event_header_len (length ns) (length lb))
      ∙ ap (take (length ow)) (
          drop-append head (ns ++ (lb ++ ow)) (length ns + length lb)
          ∙ drop-append ns (lb ++ ow) (length lb)
          ∙ drop-length_append lb ow)
      ∙ take_all ow

  length-packed : length packed ≡ event_header_len + length ns + length lb + length ow
  length-packed =
      let inner = length-append lb ow in let outer = length-append ns (lb ++ ow) in omega arith

  well_formed-packed :
      (payload_max id' kind ver : ℕ)
      → 0 < length ns
      → 0 < length lb
      → 0 < length ow
      → length ns + length lb + length ow ≤ payload_max
      → 0 < ver
      → well_formed payload_max (record { id = id'; kind = kind; ver = ver; payload = packed })
        ≡ true
  unfolding well_formed
  well_formed-packed payload_max id' kind ver pn pl po room pv =
      ground (arith, word-namespace, word-label, word-owner, length-packed)

  decode-packed :
      (payload_max id' kind ver : ℕ)
      → well_formed payload_max (record { id = id'; kind = kind; ver = ver; payload = packed })
        ≡ true
      → (t : LockTransition)
      → decode_transition kind ver id acquired expires (record { namespace = ns; label = lb }) ow
        ≡ some t
      → decode payload_max (record { id = id'; kind = kind; ver = ver; payload = packed })
        ≡ some (record { event_id = id'; transition = t })
  unfolding decode
  decode-packed payload_max id' kind ver w t e = rw (
    w, word-namespace, word-label, word-owner, word-id, word-acquired, word-expires,
    slice-namespace, slice-label, slice-owner, e,
  )

stamp_bound : (t : LockTransition) → Spans t → ((stamps t).1 < u64_mod) × ((stamps t).2 < u64_mod)
stamp_bound (LockTransition.acquired l) s = (omega arith, s.2)
stamp_bound (renewed l) s = (omega arith, s.2)
stamp_bound (released i k o r) s = (omega arith, omega arith)

decode_transition-stamps :
    (t : LockTransition)
    → Spans t
    → decode_transition
        (stamps t).0
        (transition_revision t)
        (transition_lock_id t)
        (stamps t).1
        (stamps t).2
        (transition_key t)
        (transition_owner t)
      ≡ some t
unfolding decode_transition transition_revision transition_lock_id transition_key transition_owner
decode_transition-stamps (LockTransition.acquired l) s = ground arith
decode_transition-stamps (renewed l) s = ground arith
decode_transition-stamps (released i k o r) s = ground arith

abbrev pub names : LockTransition → ℕ
names t =
    length (transition_key t).namespace
    + length (transition_key t).label
    + length (transition_owner t)

-- The payload that the encoder writes.
abbrev payload_of : LockTransition → List ℕ
payload_of t =
    header (length (transition_key t).namespace) (length (transition_key t).label)
      (length (transition_owner t)) (transition_lock_id t) (stamps t).1 (stamps t).2
    ++ ((transition_key t).namespace ++ ((transition_key t).label ++ transition_owner t))

encode-eq :
    (payload_capacity payload_max : ℕ) (t : LockTransition)
    → Proper t
    → names t ≤ min (payload_capacity - event_header_len) payload_max
    → encode payload_capacity payload_max t ≡ ok ((stamps t).0, payload_of t)
unfolding encode
encode-eq payload_capacity payload_max t p room =
    let n = p.namespace_fits in let l = p.label_fits in let o = p.owner_fits in ground arith

-- A proper transition whose names fit the frame and the table is encoded, and the frame that
-- carries the payload with the transition's revision is decoded to the same transition.
pub decode-encode :
    (payload_capacity payload_max id : ℕ) (t : LockTransition)
    → Proper t
    → names t ≤ min (payload_capacity - event_header_len) payload_max
    → (kind : ℕ) × (payload : List ℕ) × (encode payload_capacity payload_max t ≡ ok (kind, payload))
      × (decode payload_max
            (record { id = id; kind = kind; ver = transition_revision t; payload = payload })
          ≡ some (record { event_id = id; transition = t }))
decode-encode payload_capacity payload_max id t p room =
    let ns = (transition_key t).namespace in
    let lb = (transition_key t).label in
    let ow = transition_owner t in
    let b = stamp_bound t p.spans in
    (
      (stamps t).0,
      payload_of t,
      encode-eq payload_capacity payload_max t p room,
      decode-packed ns lb ow (transition_lock_id t) (stamps t).1 (stamps t).2 p.namespace_fits
          p.label_fits p.owner_fits p.id_word b.0 b.1 payload_max id (stamps t).0
          (transition_revision t)
          (well_formed-packed ns lb ow (transition_lock_id t) (stamps t).1 (stamps t).2
            p.namespace_fits p.label_fits p.owner_fits p.id_word b.0 b.1 payload_max id (stamps t).0
            (transition_revision t) p.namespace_pos p.label_pos p.owner_pos (omega arith)
            p.revision_pos)
          t (decode_transition-stamps t p.spans),
    )
