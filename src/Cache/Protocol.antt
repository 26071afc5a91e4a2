-- ===== src/Cache/Protocol.antt =====
-- cache/src/protocol.rs: the payload of a mutation on the ring.
pub mod Packed
pub mod Roundtrip
use orbitive.Prelude.{
  ℕ, ◌+◌, ◌-◌, ◌%◌, ◌<◌, ◌≡◌, min, not, ◌&&◌, ◌||◌, Bool, true, false, List, [], ◌∷◌, ◌++◌, Option,
  none, some, length, get_or, ltb, ◌==◌, if◌then◌else◌, u16_mod, u64_mod, Result, ok, err,
  refuse_if, ◌>>=◌, ◌>>◌,
}
use orbitive.Prelude.Bytes.{to_le_bytes, slice, word}
use orbitive.Ring.Frame.{Frame}
use orbitive.Cache.Revision.{CacheRevision, PayloadRef, Address, CacheMutation, put, delete, reset}

-- The errors of the encoders, of `Error`.
pub data Error : Type 0 where
  store_empty : Error
  store_too_large : (store_len max : ℕ) → Error
  key_empty : Error
  key_too_large : (key_len max : ℕ) → Error

abbrev pub protocol_version : ℕ
protocol_version = 3

abbrev pub frame_kind_put : ℕ
frame_kind_put = 1

abbrev pub frame_kind_delete : ℕ
frame_kind_delete = 2

abbrev pub frame_kind_reset : ℕ
frame_kind_reset = 3

abbrev pub min_mutation_header_len : ℕ
min_mutation_header_len = 1 + 2 + 2 + 8 + 4 + 8 + 8

-- `payload_capacity` is the one of the layout's ring.
abbrev pub max_store_len : (payload_capacity : ℕ) → ℕ
max_store_len payload_capacity =
    min (payload_capacity - (min_mutation_header_len + 1)) (u16_mod - 1)

abbrev pub max_key_len : (payload_capacity store_len : ℕ) → ℕ
max_key_len payload_capacity store_len =
    min (payload_capacity - min_mutation_header_len - store_len) (u16_mod - 1)

unfoldable pub validate_store : ℕ → List ℕ → Result Error (Unit {0})
validate_store payload_capacity store = do
  refuse_if (length store == 0) store_empty
  refuse_if (ltb (max_store_len payload_capacity) (length store))
      (store_too_large (length store) (max_store_len payload_capacity))

unfoldable pub validate_key : ℕ → ℕ → List ℕ → Result Error (Unit {0})
validate_key payload_capacity store_len key = do
  refuse_if (length key == 0) key_empty
  refuse_if (ltb (max_key_len payload_capacity store_len) (length key))
      (key_too_large (length key) (max_key_len payload_capacity store_len))

abbrev pub mutation_header :
    (store_len key_len expires_at_ms slot generation value_len : ℕ) → List ℕ
mutation_header store_len key_len expires_at_ms slot generation value_len =
    protocol_version ∷ to_le_bytes 2 (store_len % u16_mod)
    ++ (to_le_bytes 2 (key_len % u16_mod)
        ++ (to_le_bytes 8 expires_at_ms
            ++ (to_le_bytes 4 slot ++ (to_le_bytes 8 generation ++ to_le_bytes 8 value_len))))

-- What the three encoders write: `as u16` keeps the low word of a length.
abbrev pub packed_mutation :
    (expires_at_ms slot generation value_len : ℕ) → List ℕ → List ℕ → List ℕ
packed_mutation expires_at_ms slot generation value_len store key =
    mutation_header (length store) (length key) expires_at_ms slot generation value_len
    ++ (store ++ key)

abbrev pub unwrap_or_zero : Option ℕ → ℕ
unwrap_or_zero none = 0
unwrap_or_zero (some n) = n

unfoldable pub encode_put : ℕ → List ℕ → List ℕ → Option ℕ → PayloadRef → Result Error (List ℕ)
encode_put payload_capacity store key expires_at_ms payload = do
  validate_store payload_capacity store
  validate_key payload_capacity (length store) key
  ok (
      packed_mutation (unwrap_or_zero expires_at_ms) payload.address.slot payload.address.generation
        payload.value_len store key)

unfoldable pub encode_delete : ℕ → List ℕ → List ℕ → Result Error (List ℕ)
encode_delete payload_capacity store key = do
  validate_store payload_capacity store
  validate_key payload_capacity (length store) key
  ok (packed_mutation 0 0 0 0 store key)

unfoldable pub encode_reset : ℕ → List ℕ → Result Error (List ℕ)
encode_reset payload_capacity store = do
  validate_store payload_capacity store
  ok (packed_mutation 0 0 0 0 store [])

-- `(expires_at_ms != 0).then_some(expires_at_ms)`
abbrev pub deadline_of : ℕ → Option ℕ
deadline_of n = if n == 0 then none else some n

-- The last `match` of `decode_with_slot_limit`, on a machine of 64 bits.
unfoldable pub decode_mutation :
    (slots kind : ℕ)
    → CacheRevision
    → (store_len key_len : ℕ) → (store key : List ℕ) → (expires_at_ms slot generation value_len : ℕ)
    → Option CacheMutation
decode_mutation slots kind r store_len key_len store key expires_at_ms slot generation value_len =
    if kind == frame_kind_put
      && (ltb 0 store_len
          && (ltb 0 key_len && (ltb 0 generation && (ltb slot slots && ltb value_len u64_mod))))
    then some (
        put store key r (deadline_of expires_at_ms) (record {
          address = record { slot = slot; generation = generation };
          value_len = value_len;
        }))
    else if kind == frame_kind_delete
        && (ltb 0 store_len
            && (ltb 0 key_len
                && (expires_at_ms == 0 && (slot == 0 && (generation == 0 && value_len == 0)))))
    then some (delete store key r)
    else if kind == frame_kind_reset
        && (ltb 0 store_len
            && (key_len == 0
                && (expires_at_ms == 0 && (slot == 0 && (generation == 0 && value_len == 0)))))
    then some (reset store r)
    else none

-- The checks on the version and the lengths. The checked sums never fail: each is of two bytes.
unfoldable pub well_formed_mutation : Frame → Bool
well_formed_mutation f =
    not (ltb (length f.payload) min_mutation_header_len)
    && (get_or f.payload 0 0 == protocol_version
        && min_mutation_header_len + word f.payload 1 2 + word f.payload 3 2 == length f.payload)

-- `decode_with_slot_limit`
unfoldable pub decode_with_slot_limit : (slots : ℕ) → Frame → Option CacheMutation
decode_with_slot_limit slots f =
    let store_end : ℕ = min_mutation_header_len + word f.payload 1 2 in
    if well_formed_mutation f
    then decode_mutation slots f.kind (record { sequence = f.ver; mutation_id = f.id })
        (word f.payload 1 2) (word f.payload 3 2)
        (slice min_mutation_header_len (word f.payload 1 2) f.payload)
        (slice store_end (word f.payload 3 2) f.payload) (word f.payload 5 8) (word f.payload 13 4)
        (word f.payload 17 8) (word f.payload 25 8)
    else none

-- `decode` reads with the slots of the arena as it was compiled, `decode_observed` with no limit.
abbrev pub decode : (arena_slots : ℕ) → Frame → Option CacheMutation
decode arena_slots f = decode_with_slot_limit arena_slots f

abbrev pub decode_observed : Frame → Option CacheMutation
decode_observed f = decode_with_slot_limit (u64_mod - 1) f
