-- ===== src/Lock/Types.antt =====
-- lock/src/lib.rs and lock/src/error.rs: keys, leases, transitions and errors.
use orbitive.Prelude.{
  ℕ, ◌/◌, List, none, some, Bool, leb, max, if◌then◌else◌, ltb, ◌==◌, u64_mod, checked_add, Result,
  ok_or, refuse_if, ◌>>=◌, ◌>>◌,
}
use orbitive.NetId.{NetIds}

pub record LockKey : Type 0 where
  pub namespace : List ℕ
  pub label : List ℕ

-- `LockOwner` wraps its bytes.
abbrev pub LockOwner : Type 0
LockOwner = List ℕ

-- `lock_id` is the raw word of a `NetId64`.
pub record LockLease : Type 0 where
  pub lock_id : ℕ
  pub key : LockKey
  pub owner : LockOwner
  pub acquired_at_ms : ℕ
  pub expires_at_ms : ℕ
  pub state_revision : ℕ

-- `LockLease::fencing_token`
abbrev pub fencing_token : NetIds → LockLease → ℕ
fencing_token ids l = ids.counter l.lock_id

-- `LockLease::is_expired_at`
abbrev pub is_expired_at : LockLease → ℕ → Bool
is_expired_at l now = leb l.expires_at_ms now

pub data LockAcquire : Type 0 where
  acquired : LockLease → LockAcquire
  occupied : LockLease → LockAcquire

pub data LockTransition : Type 0 where
  acquired : LockLease → LockTransition
  renewed : LockLease → LockTransition
  released : (lock_id : ℕ) → LockKey → LockOwner → (state_revision : ℕ) → LockTransition

unfoldable pub transition_key : LockTransition → LockKey
transition_key (LockTransition.acquired l) = l.key
transition_key (renewed l) = l.key
transition_key (released i k o r) = k

unfoldable pub transition_owner : LockTransition → LockOwner
transition_owner (LockTransition.acquired l) = l.owner
transition_owner (renewed l) = l.owner
transition_owner (released i k o r) = o

unfoldable pub transition_lock_id : LockTransition → ℕ
transition_lock_id (LockTransition.acquired l) = l.lock_id
transition_lock_id (renewed l) = l.lock_id
transition_lock_id (released i k o r) = i

unfoldable pub transition_revision : LockTransition → ℕ
transition_revision (LockTransition.acquired l) = l.state_revision
transition_revision (renewed l) = l.state_revision
transition_revision (released i k o r) = r

-- `Error`, with the sizes that it reports and without the payload of `Io`.
pub data Error : Type 0 where
  invalid_layout namespace_empty key_empty owner_empty id_exhausted : Error
  ttl_zero ttl_overflow io : Error
  entry_too_large : (namespace_len key_len owner_len max_payload : ℕ) → Error
  state_full : (capacity : ℕ) → Error

-- `deadline`: the time to live in nanoseconds, rounded down to milliseconds and up to one.
unfoldable pub deadline : (now_ms ttl_nanos : ℕ) → Result Error ℕ
deadline now_ms ttl_nanos = do
  refuse_if (ttl_nanos == 0) ttl_zero
  ttl_ms ←
      ok_or
        (if ltb (max (ttl_nanos / 1_000_000) 1) u64_mod
          then some (max (ttl_nanos / 1_000_000) 1)
          else none)
        ttl_overflow
  ok_or (checked_add u64_mod now_ms ttl_ms) ttl_overflow
