-- ===== src/Cache/Protocol/Roundtrip.antt =====
-- Every mutation that an encoder accepts is decoded again.
use orbitive.Prelude.{
  ℕ, ◌<◌, ◌≡◌, refl, sym, ap, ◌∙◌, List, [], Option, none, some, length, u16_mod, u64_mod, u32_mod,
  Result, ok, err, ◌>>◌, arith, lt→ltb,
}
use orbitive.Ring.Frame.{Frame}
use orbitive.Cache.Revision.{CacheRevision, CacheMutation, put, delete, reset}
use orbitive.Cache.Protocol.{
  Error, frame_kind_put, frame_kind_delete, frame_kind_reset, validate_store, validate_key,
  encode_put, encode_delete, encode_reset, decode_with_slot_limit, decode_mutation, unwrap_or_zero,
  deadline_of,
}
use orbitive.Cache.Protocol.Packed.{decode-packed_mutation}

-- What a validated store name and key are.
validate_store-fits :
    (capacity : ℕ) (store : List ℕ)
    → validate_store capacity store ≡ ok tt
    → (0 < length store) × (length store < u16_mod)
unfolding validate_store
validate_store-fits capacity store h = ground arith

validate_key-fits :
    (capacity n : ℕ) (key : List ℕ)
    → validate_key capacity n key ≡ ok tt
    → (0 < length key) × (length key < u16_mod)
unfolding validate_key
validate_key-fits capacity n key h = ground arith

-- The arguments of an encoder are in the ranges of their words. A put has a generation, a slot that
-- the reader's arena has, and a deadline that is not zero.
abbrev pub InRange : Option ℕ → Type 0
InRange none = Unit {0}
InRange (some deadline) = (0 < deadline) × (deadline < u64_mod)

abbrev pub Encodable : (slots : ℕ) → CacheMutation → Type 0
Encodable slots (put store key r expires_at_ms payload) =
    (0 < payload.address.generation)
    × (payload.address.generation < u64_mod)
    × (payload.address.slot < slots)
    × (payload.address.slot < u32_mod)
    × (payload.value_len < u64_mod)
    × InRange expires_at_ms
Encodable slots (delete store key r) = Unit {0}
Encodable slots (reset store r) = Unit {0}

-- The encoder and the kind of frame of each mutation.
unfoldable pub encode_mutation : ℕ → CacheMutation → Result Error (List ℕ)
encode_mutation capacity (put store key r expires_at_ms payload) =
    encode_put capacity store key expires_at_ms payload
encode_mutation capacity (delete store key r) = encode_delete capacity store key
encode_mutation capacity (reset store r) = encode_reset capacity store

abbrev pub frame_of : CacheMutation → List ℕ → Frame
frame_of (put store key r expires_at_ms payload) bytes = record {
  id = r.mutation_id;
  kind = frame_kind_put;
  ver = r.sequence;
  payload = bytes;
}
frame_of (delete store key r) bytes = record {
  id = r.mutation_id;
  kind = frame_kind_delete;
  ver = r.sequence;
  payload = bytes;
}
frame_of (reset store r) bytes = record {
  id = r.mutation_id;
  kind = frame_kind_reset;
  ver = r.sequence;
  payload = bytes;
}

deadline_round : (o : Option ℕ) → InRange o → deadline_of (unwrap_or_zero o) ≡ o
deadline_round none h = refl
deadline_round (some d) h = ground arith

deadline_word : (o : Option ℕ) → InRange o → unwrap_or_zero o < u64_mod
deadline_word none h = omega arith
deadline_word (some d) h = h.1

module _ (slots : ℕ) (r : CacheRevision) (store key : List ℕ) (ps : 0 < length store) where
  decode_mutation-put :
      (expires slot generation value_len : ℕ)
      → 0 < length key
      → 0 < generation
      → slot < slots
      → value_len < u64_mod
      → decode_mutation slots frame_kind_put r
          (length store)
          (length key)
          store
          key
          expires
          slot
          generation
          value_len
        ≡ some (
            put store key r (deadline_of expires) (record {
              address = record { slot = slot; generation = generation };
              value_len = value_len;
            }))
  unfolding decode_mutation
  decode_mutation-put expires slot generation value_len pk pg hl hv =
      rw
        (
          lt→ltb 0 (length store) ps,
          lt→ltb 0 (length key) pk,
          lt→ltb 0 generation pg,
          lt→ltb slot slots hl,
          lt→ltb value_len u64_mod hv,
        )
        refl

  decode_mutation-delete :
      0 < length key
      → decode_mutation slots frame_kind_delete r (length store) (length key) store key 0 0 0 0
        ≡ some (delete store key r)
  unfolding decode_mutation
  decode_mutation-delete pk = rw (lt→ltb 0 (length store) ps, lt→ltb 0 (length key) pk) refl

  decode_mutation-reset :
      decode_mutation slots frame_kind_reset r (length store) 0 store [] 0 0 0 0
      ≡ some (reset store r)
  unfolding decode_mutation
  decode_mutation-reset = rw (lt→ltb 0 (length store) ps) refl

-- What a chain of checks that succeeds has checked.
two_checks :
    (a b : Result Error (Unit {0})) (out written : List ℕ)
    → (a >> (b >> ok out)) ≡ ok written
    → (a ≡ ok tt) × (b ≡ ok tt) × (out ≡ written)
two_checks (err e) b out written h = cc
two_checks (ok x) (err e) out written h = cc
two_checks (ok x) (ok y) out written h = (refl, refl, cc)

one_check :
    (a : Result Error (Unit {0})) (out written : List ℕ)
    → (a >> ok out) ≡ ok written
    → (a ≡ ok tt) × (out ≡ written)
one_check (err e) out written h = cc
one_check (ok x) out written h = (refl, cc)

-- A mutation that an encoder accepts is decoded from its frame as it was: a put, with its store, key,
-- revision, deadline and body's address, a delete or a reset. The words are in their ranges, and a
-- put's generation and deadline are not zero and its slot is one of the reader's arena.
pub decode_with_slot_limit-encode_mutation :
    (capacity slots : ℕ) (mutation : CacheMutation) (payload : List ℕ)
    → Encodable slots mutation
    → encode_mutation capacity mutation ≡ ok payload
    → decode_with_slot_limit slots (frame_of mutation payload) ≡ some mutation
unfolding encode_mutation encode_put encode_delete encode_reset
decode_with_slot_limit-encode_mutation capacity slots (put store key r expires_at_ms ref) payload
      (pg, hg, hl, hw, hv, he) h =
    let parts =
      two_checks (validate_store capacity store) (validate_key capacity (length store) key) _
        payload h in
    let s = validate_store-fits capacity store parts.0 in
    let k = validate_key-fits capacity (length store) key parts.1 in
    ap (λ p. decode_with_slot_limit slots (frame_of (put store key r expires_at_ms ref) p))
      (sym parts.2)
    ∙ decode-packed_mutation store key (unwrap_or_zero expires_at_ms) ref.address.slot
        ref.address.generation ref.value_len s.1 k.1 (deadline_word expires_at_ms he) hw hg hv slots
        r.mutation_id frame_kind_put r.sequence
    ∙ decode_mutation-put slots r store key s.0 (unwrap_or_zero expires_at_ms) ref.address.slot
        ref.address.generation ref.value_len k.0 pg hl hv
    ∙ ap (λ e. some (put store key r e ref)) (deadline_round expires_at_ms he)
decode_with_slot_limit-encode_mutation capacity slots (delete store key r) payload range h =
    let parts =
      two_checks (validate_store capacity store) (validate_key capacity (length store) key) _
        payload h in
    let s = validate_store-fits capacity store parts.0 in
    let k = validate_key-fits capacity (length store) key parts.1 in
    ap (λ p. decode_with_slot_limit slots (frame_of (delete store key r) p)) (sym parts.2)
    ∙ decode-packed_mutation store key 0 0 0 0 s.1 k.1 (omega arith) (omega arith) (omega arith)
        (omega arith) slots r.mutation_id frame_kind_delete r.sequence
    ∙ decode_mutation-delete slots r store key s.0 k.0
decode_with_slot_limit-encode_mutation capacity slots (reset store r) payload range h =
    let parts = one_check (validate_store capacity store) _ payload h in
    let s = validate_store-fits capacity store parts.0 in
    ap (λ p. decode_with_slot_limit slots (frame_of (reset store r) p)) (sym parts.1)
    ∙ decode-packed_mutation store [] 0 0 0 0 s.1 (omega arith) (omega arith) (omega arith)
        (omega arith) (omega arith) slots r.mutation_id frame_kind_reset r.sequence
    ∙ decode_mutation-reset slots r store [] s.0
