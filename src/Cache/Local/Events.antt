-- ===== src/Cache/Local/Events.antt =====
-- What happens to the cache of one store, as explicit sequences of steps.

use orbitive.Cache.Local.Following.{Concerns}
use orbitive.Prelude.{ℕ, ◌≤◌, ◌≡◌, List, [], ◌∷◌, Option}
use orbitive.Cache.Revision.{CacheRevision, PayloadRef, CacheMutation, revision_of}
use orbitive.Cache.Lru.{LruCache}
use orbitive.Cache.Local.{
  LocalSlot, LocalState, Arena, read_at, require_resync, recover_from_backing, apply, install_local,
  install_missing, reset_local,
}

-- What happens to the cache of one store: a mutation of the ring, the calls of its own process, a
-- read, the loss of ring history, and the recovery from the backing store.
pub data Event : Type 0 where
  polled : (arena : Arena) (mutation : CacheMutation) → Event
  installed :
      (key : List ℕ) (payload : PayloadRef) (r : CacheRevision) (expires_at_ms : Option ℕ) → Event
  deleted : (key : List ℕ) (r : CacheRevision) → Event
  reset_here : (r : CacheRevision) → Event
  looked : (arena : Arena) (key : List ℕ) (now_ms : ℕ) → Event
  lost : Event
  recovered : (floor : ℕ) → Event

-- The revision that an event tells of a key.
abbrev pub Told : Event → List ℕ → CacheRevision → Type 0
Told (polled arena mutation) j r = Concerns mutation j × (revision_of mutation ≡ r)
Told (installed key payload q expires_at_ms) j r = (key ≡ j) × (q ≡ r)
Told (deleted key q) j r = (key ≡ j) × (q ≡ r)
Told (reset_here q) j r = q ≡ r
Told (looked arena key now_ms) j r = ⊥
Told lost j r = ⊥
Told (recovered floor) j r = ⊥

-- A recovery begins above every revision that has been given out.
abbrev pub Resumes : CacheRevision → List Event → Type 0
Resumes r [] = Unit {0}
Resumes r (recovered floor ∷ es) = (r.sequence ≤ floor) × Resumes r es
Resumes r (e ∷ es) = Resumes r es

module _ (L : LruCache LocalSlot) where
  unfoldable pub step : Event → LocalState L → LocalState L
  step (polled arena mutation) s = (apply L arena mutation s).1
  step (installed key payload r expires_at_ms) s = install_local L key payload r expires_at_ms s
  step (deleted key r) s = install_missing L key r s
  step (reset_here r) s = reset_local L r s
  step (looked arena key now_ms) s = (read_at L arena key now_ms s).1
  step lost s = require_resync L s
  step (recovered floor) s = recover_from_backing L floor s

  unfoldable pub run : List Event → LocalState L → LocalState L
  run [] s = s
  run (e ∷ es) s = run es (step e s)
