-- ===== src/Lock/Table/Slot.antt =====
-- lock/src/state.rs: `LockStateSlot`, a lease laid out in one fixed record.
pub mod Layout
use orbitive.Prelude.Bytes.{slice}
use orbitive.Prelude.{
  ℕ, ◌+◌, ◌%◌, ◌≡◌, Bool, true, false, ◌&&◌, List, [], ◌∷◌, ◌++◌, length, take, drop, replicate,
  ◌==◌, leb, bytes_eq, u16_mod, if◌then◌else◌,
}
use orbitive.Lock.Types.{LockKey, LockOwner, LockLease}

-- The state byte holds one of three constants.
pub data SlotState : Type 0 where
  empty occupied tombstoned : SlotState

pub record LockStateSlot : Type 0 where
  pub state : SlotState
  pub namespace_len : ℕ
  pub key_len : ℕ
  pub owner_len : ℕ
  pub key_hash : ℕ
  pub lock_id : ℕ
  pub state_revision : ℕ
  pub acquired_at_ms : ℕ
  pub expires_at_ms : ℕ
  pub payload : List ℕ

-- `LockStateSlot::empty` for a payload of the given size.
abbrev pub empty_slot : ℕ → LockStateSlot
empty_slot payload_max = record {
  state = empty;
  namespace_len = 0;
  key_len = 0;
  owner_len = 0;
  key_hash = 0;
  lock_id = 0;
  state_revision = 0;
  acquired_at_ms = 0;
  expires_at_ms = 0;
  payload = replicate payload_max 0;
}

unfoldable pub namespace_bytes : LockStateSlot → List ℕ
namespace_bytes s = slice 0 s.namespace_len s.payload

unfoldable pub key_bytes : LockStateSlot → List ℕ
key_bytes s = slice s.namespace_len s.key_len s.payload

-- `LockStateSlot::owner`
unfoldable pub owner_bytes : LockStateSlot → List ℕ
owner_bytes s = slice (s.namespace_len + s.key_len) s.owner_len s.payload

abbrev pub is_occupied : SlotState → Bool
is_occupied empty = false
is_occupied occupied = true
is_occupied tombstoned = false

-- `LockStateSlot::matches`
unfoldable pub matches : LockStateSlot → ℕ → LockKey → Bool
matches s hash key =
    is_occupied s.state
    && (s.key_hash == hash
        && (bytes_eq (namespace_bytes s) key.namespace && bytes_eq (key_bytes s) key.label))

-- `LockStateSlot::lease`
unfoldable pub lease : LockStateSlot → LockLease
lease s = record {
  lock_id = s.lock_id;
  key = record { namespace = namespace_bytes s; label = key_bytes s };
  owner = owner_bytes s;
  acquired_at_ms = s.acquired_at_ms;
  expires_at_ms = s.expires_at_ms;
  state_revision = s.state_revision;
}

-- `bytes[start..start + src.len()].copy_from_slice(src)`. A slice that does not fit panics in the
-- source, and makes the list longer here: `validate_entry` runs before each write and refuses such
-- an entry.
abbrev pub copy_at : ℕ → List ℕ → List ℕ → List ℕ
copy_at start src bytes = take start bytes ++ (src ++ drop (start + length src) bytes)

-- `LockStateSlot::write`. The store of the tombstone state that comes first is overwritten by the
-- last one; the table's lock covers both.
unfoldable pub write : LockStateSlot → ℕ → LockLease → LockStateSlot
write s hash l =
    let namespace_end : ℕ = length l.key.namespace in
    let key_end : ℕ = namespace_end + length l.key.label in
    let zeros = replicate (length s.payload) 0 in
    record {
      state = occupied;
      namespace_len = length l.key.namespace % u16_mod;
      key_len = length l.key.label % u16_mod;
      owner_len = length l.owner % u16_mod;
      key_hash = hash;
      lock_id = l.lock_id;
      state_revision = l.state_revision;
      acquired_at_ms = l.acquired_at_ms;
      expires_at_ms = l.expires_at_ms;
      payload =
          copy_at key_end l.owner
            (copy_at namespace_end l.key.label (copy_at 0 l.key.namespace zeros));
    }

-- `LockStateSlot::tombstone` and `LockStateSlot::clear` store the state alone.
unfoldable pub tombstone : LockStateSlot → LockStateSlot
tombstone s = record s { state = tombstoned }

unfoldable pub clear : LockStateSlot → LockStateSlot
clear s = record s { state = empty }
