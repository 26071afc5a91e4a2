-- ===== src/Cache/Local/History.antt =====
-- Runs of a cache: what it serves is never older than what it has been told.

use orbitive.Cache.Local.Following.{
  advance_floor-Follows, put_slot-Follows, apply-Follows, apply-Covers,
}
use orbitive.Prelude.{ℕ, ◌<◌, ◌≡◌, subst, true, List, [], ◌∷◌, none, some, arith}
use orbitive.Cache.Revision.{CacheRevision, older}
use orbitive.Cache.Lru.{LruCache, IsLru}
use orbitive.Cache.Local.{
  LocalSlot, present, missing, LocalState, new_local, revision, advance_floor, map_or_max, put_slot,
  Arena, CacheEntry, hit, read_at, recover_from_backing, apply, install_local, install_missing,
  reset_local,
}
use orbitive.Cache.Local.Serving.{read_at-Follows, read_at-newest}
use orbitive.Cache.Local.Coverage.{Covers, Sound, advance_floor-below}
use orbitive.Cache.Local.Events.{
  Event, polled, installed, deleted, reset_here, looked, lost, recovered, Told, Resumes, step, run,
}
use orbitive.Cache.Local.Recovery.{
  guarded-Follows, guarded-Covers, cleared-Sound, require_resync-Follows, recovered-Covers,
}
use orbitive.Cache.Local.Putting.{put_slot-key}

module _ (L : LruCache LocalSlot) (lru : IsLru L) where
  step-Sound : (e : Event) (s : LocalState L) → Sound L lru s → Sound L lru (step L e s)
  unfolding step install_local install_missing reset_local recover_from_backing
  step-Sound (polled arena mutation) s h = (apply-Follows L lru arena mutation s).sound h
  step-Sound (installed key payload r expires_at_ms) s h =
      (guarded-Follows L lru s _ r
          (put_slot-Follows L lru key (present payload r expires_at_ms) s)).sound
        h
  step-Sound (deleted key r) s h =
      (guarded-Follows L lru s _ r (put_slot-Follows L lru key (missing r) s)).sound h
  step-Sound (reset_here r) s h =
      (guarded-Follows L lru s _ r (λ a. advance_floor-Follows L lru r.sequence s)).sound h
  step-Sound (looked arena key now_ms) s h = (read_at-Follows L lru arena key now_ms s).sound h
  step-Sound lost s h = (require_resync-Follows L lru s).sound h
  step-Sound (recovered floor) s h =
      cleared-Sound L lru s.slots (some (map_or_max s.revision_floor floor)) true

  step-Covers :
      (e : Event) (s : LocalState L) (j : List ℕ) (r : CacheRevision)
      → Resumes r (e ∷ [])
      → Covers L lru s j r
      → Covers L lru (step L e s) j r
  unfolding step install_local install_missing reset_local
  step-Covers (polled arena mutation) s j r h k =
      (apply-Follows L lru arena mutation s).covers j r k
  step-Covers (installed key payload q expires_at_ms) s j r h k =
      (guarded-Follows L lru s _ q
          (put_slot-Follows L lru key (present payload q expires_at_ms) s)).covers
        j r k
  step-Covers (deleted key q) s j r h k =
      (guarded-Follows L lru s _ q (put_slot-Follows L lru key (missing q) s)).covers j r k
  step-Covers (reset_here q) s j r h k =
      (guarded-Follows L lru s _ q (λ a. advance_floor-Follows L lru q.sequence s)).covers j r k
  step-Covers (looked arena key now_ms) s j r h k =
      (read_at-Follows L lru arena key now_ms s).covers j r k
  step-Covers lost s j r h k = (require_resync-Follows L lru s).covers j r k
  step-Covers (recovered floor) s j r h k = recovered-Covers L lru floor s j r h.0

  -- What an event tells of a key is covered after it.
  Told-Covers :
      (e : Event) (s : LocalState L) (j : List ℕ) (r : CacheRevision)
      → Told e j r
      → Covers L lru (step L e s) j r
  unfolding step install_local install_missing reset_local
  Told-Covers (polled arena mutation) s j r (about, same) =
      subst (Covers L lru (apply L arena mutation s).1 j) same
        (apply-Covers L lru arena mutation s j about)
  Told-Covers (installed key payload q expires_at_ms) s j r (about, same) =
      subst (λ k. Covers L lru (step L (installed key payload q expires_at_ms) s) k r) about
        (subst (Covers L lru (step L (installed key payload q expires_at_ms) s) key) same (
          guarded-Covers L lru s (put_slot L key (present payload q expires_at_ms) s).1 key q
            (put_slot-key L lru key (present payload q expires_at_ms) s)))
  Told-Covers (deleted key q) s j r (about, same) =
      subst (λ k. Covers L lru (step L (deleted key q) s) k r) about
        (subst (Covers L lru (step L (deleted key q) s) key) same (
          guarded-Covers L lru s (put_slot L key (missing q) s).1 key q
            (put_slot-key L lru key (missing q) s)))
  Told-Covers (reset_here q) s j r same = subst (Covers L lru (step L (reset_here q) s) j) same (
      guarded-Covers L lru s (advance_floor L q.sequence s) j q
        (advance_floor-below L lru q.sequence s j q (omega arith)))
  Told-Covers (looked arena key now_ms) s j r told = absurd told
  Told-Covers lost s j r told = absurd told
  Told-Covers (recovered floor) s j r told = absurd told

  run-Sound : (es : List Event) (s : LocalState L) → Sound L lru s → Sound L lru (run L es s)
  unfolding run
  run-Sound [] s h = h
  run-Sound (e ∷ es) s h = run-Sound es (step L e s) (step-Sound e s h)

  Resumes-head :
      (r : CacheRevision) (e : Event) (es : List Event)
      → Resumes r (e ∷ es)
      → Resumes r (e ∷ []) × Resumes r es
  Resumes-head r (recovered floor) es h = ((h.0, tt), h.1)
  Resumes-head r (polled arena mutation) es h = (tt, h)
  Resumes-head r (installed key payload q expires_at_ms) es h = (tt, h)
  Resumes-head r (deleted key q) es h = (tt, h)
  Resumes-head r (reset_here q) es h = (tt, h)
  Resumes-head r (looked arena key now_ms) es h = (tt, h)
  Resumes-head r lost es h = (tt, h)

  run-Covers :
      (es : List Event) (s : LocalState L) (j : List ℕ) (r : CacheRevision)
      → Resumes r es
      → Covers L lru s j r
      → Covers L lru (run L es s) j r
  unfolding run
  run-Covers [] s j r h k = k
  run-Covers (e ∷ es) s j r h k =
      let parts = Resumes-head r e es h in
      run-Covers es (step L e s) j r parts.1 (step-Covers e s j r parts.0 k)

  -- For every run of a cache from its start, over any cache that behaves as the lru crate documents:
  -- once an event has told the cache of a revision of a key, be it a mutation of the ring, the
  -- process's own write or a reset of the store, a read of that key never serves an entry of an older
  -- revision, whatever has been dropped for room, has expired, was lost or arrives late. Each recovery
  -- after that event starts from a floor that is not below the revision's sequence.
  pub never_stale :
      (capacity : ℕ) (before after : List Event) (e : Event) (j : List ℕ) (r : CacheRevision)
      (arena : Arena) (now_ms : ℕ) (entry : CacheEntry)
      → Told e j r
      → Resumes r after
      → (read_at L arena j now_ms (run L after (step L e (run L before (new_local L capacity))))).0
        ≡ hit entry
      → older r entry.revision ≡ true
  never_stale capacity before after e j r arena now_ms entry told resumes served_entry =
      let start = run L before (new_local L capacity) in
      let now = run L after (step L e start) in
      let sound =
        run-Sound after (step L e start)
          (step-Sound e start (run-Sound before (new_local L capacity) fresh)) in
      read_at-newest L lru arena j now_ms now entry r sound
        (run-Covers after (step L e start) j r resumes (Told-Covers e start j r told)) served_entry
    where
      fresh : Sound L lru (new_local L capacity)
      fresh k slot f resident at = absurd_none at
        where
          absurd_none : none ≡ some f → f < (revision slot).sequence
          absurd_none h = cc
