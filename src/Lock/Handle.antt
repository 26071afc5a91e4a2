-- ===== src/Lock/Handle.antt =====
-- lock/src/lib.rs: the methods of `Lock`, which read the clock, work out a deadline, operate on the
-- table and announce the transition on the fleet's ring. The clock and the ring are parameters.
pub mod Tenure
pub mod Tests
use orbitive.Prelude.{
  ℕ, List, Option, none, some, Bool, true, false, bytes_eq, Result, ok, err, ◌>>=◌, if◌then◌else◌,
}
use orbitive.Lock.Types.{
  LockKey, LockOwner, LockLease, LockAcquire, LockTransition, Error, deadline, transition_revision,
}
use orbitive.Lock.Protocol.{LockEvent, encode}
use orbitive.Lock.Table.Ops.{
  LockStateStore, LockTable, Publish, Outcome, ◌&>◌, acquire, renew_id, renew_owner, release_id,
  release_owner, force_release, current,
}

pub record Lock : Type 0 where
  pub state : LockStateStore
  pub payload_capacity : ℕ
  pub announce : (kind ver : ℕ) → List ℕ → Result Error ℕ
  pub monotonic_ms : Result Error ℕ

unfoldable pub publish : Lock → LockTransition → Result Error LockEvent
publish lock t = do
  encoded ← encode lock.payload_capacity lock.state.payload_max t
  id ← lock.announce encoded.0 (transition_revision t) encoded.1
  ok (record { event_id = id; transition = t })

-- `self.publish(transition).map(|_| ())`
abbrev pub announced : Lock → Publish
announced lock t = publish lock t >>= λ _. ok tt

unfoldable pub try_acquire :
    Lock → LockKey → LockOwner → (ttl_nanos : ℕ) → LockTable → Outcome LockAcquire
try_acquire lock key owner ttl_nanos t = (lock.monotonic_ms, t) &> λ now_ms t.
    (deadline now_ms ttl_nanos, t) &> λ expires_at_ms t.
    acquire lock.state (announced lock) key owner now_ms expires_at_ms t

unfoldable pub renew : Lock → LockLease → (ttl_nanos : ℕ) → LockTable → Outcome (Option LockLease)
renew lock l ttl_nanos t = (lock.monotonic_ms, t) &> λ now_ms t.
    (deadline now_ms ttl_nanos, t) &> λ expires_at_ms t.
    renew_id lock.state (announced lock) l now_ms expires_at_ms t

unfoldable pub renew_owned :
    Lock → LockKey → LockOwner → (ttl_nanos : ℕ) → LockTable → Outcome (Option LockLease)
renew_owned lock key owner ttl_nanos t = (lock.monotonic_ms, t) &> λ now_ms t.
    (deadline now_ms ttl_nanos, t) &> λ expires_at_ms t.
    renew_owner lock.state (announced lock) key owner now_ms expires_at_ms t

unfoldable pub release : Lock → LockLease → LockTable → Outcome Bool
release lock l t =
    (lock.monotonic_ms, t) &> λ now_ms t. release_id lock.state (announced lock) l now_ms t

unfoldable pub release_owned : Lock → LockKey → LockOwner → LockTable → Outcome Bool
release_owned lock key owner t = (lock.monotonic_ms, t) &> λ now_ms t.
    release_owner lock.state (announced lock) key owner now_ms t

unfoldable pub force_release_now : Lock → LockKey → LockTable → Outcome Bool
force_release_now lock key t =
    (lock.monotonic_ms, t) &> λ now_ms t. force_release lock.state (announced lock) key now_ms t

unfoldable pub current_now : Lock → LockKey → LockTable → Outcome (Option LockLease)
current_now lock key t = (lock.monotonic_ms, t) &> λ now_ms t. current lock.state key now_ms t

-- `filter(|lease| lease.owner == owner)`
abbrev pub owned_by : LockOwner → Option LockLease → Option LockLease
owned_by owner none = none
owned_by owner (some l) = if bytes_eq l.owner owner then some l else none

unfoldable pub restore : Lock → LockKey → LockOwner → LockTable → Outcome (Option LockLease)
unfolding current_now
restore lock key owner t = current_now lock key t &> λ found t. (ok (owned_by owner found), t)
