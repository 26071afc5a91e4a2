-- ===== src/Cache/Local/Recovery.antt =====
-- Losing the history of the ring, and starting again above a floor.
use orbitive.Cache.Local.{advanced_to}
use orbitive.Cache.Local.Following.{Follows, Follows-refl, refused-Covers}
use orbitive.Prelude.{
  ℕ, ◌≤◌, ◌<◌, ◌≡◌, ◌⊎◌, inl, inr, refl, sym, subst, ◌∙◌, Bool, true, false, List, Option, none,
  some, if◌then◌else◌, arith, Bool-cases,
}
use orbitive.Cache.Revision.{CacheRevision, older-sequence}
use orbitive.Cache.Lru.{LruCache, IsLru}
use orbitive.Cache.Local.{
  LocalSlot, LocalState, revision, advance_floor_from_slots, newest, map_or_max, accepts,
  require_resync, recover_from_backing,
}
use orbitive.Cache.Local.Coverage.{
  map_or_max-right, map_or_max-left, floor-advance_floor, Covers, Sound,
}
use orbitive.Cache.Local.Floor.{peek_bounded, peek_none}

module _ (L : LruCache LocalSlot) (lru : IsLru L) where
  pub guarded-Follows :
      (s t : LocalState L) (r : CacheRevision)
      → (accepts L s r ≡ true → Follows L lru s t)
      → Follows L lru s (if accepts L s r then t else s)
  guarded-Follows s t r follows = split (accepts L s r) follows
    where
      split : (b : Bool) → (b ≡ true → Follows L lru s t) → Follows L lru s (if b then t else s)
      split true f = f refl
      split false f = Follows-refl L lru s

  pub guarded-Covers :
      (s t : LocalState L) (j : List ℕ) (r : CacheRevision)
      → Covers L lru t j r
      → Covers L lru (if accepts L s r then t else s) j r
  guarded-Covers s t j r known = split (Bool-cases (accepts L s r))
    where
      split :
          (accepts L s r ≡ true) ⊎ (accepts L s r ≡ false)
          → Covers L lru (if accepts L s r then t else s) j r
      split (inl h) = subst (λ b. Covers L lru (if b then t else s) j r) (sym h) known
      split (inr h) =
          subst (λ b. Covers L lru (if b then t else s) j r) (sym h) (refused-Covers L lru s j r h)

  pub cleared-Sound :
      (c : L.Cache) (floor : Option ℕ) (b : Bool)
      → Sound L lru (record { slots = L.clear c; revision_floor = floor; coherent = b })
  cleared-Sound c floor b j slot f resident at = absurd_none (sym (lru.peek-clear c j) ∙ resident)
    where
      absurd_none : none ≡ some slot → f < (revision slot).sequence
      absurd_none h = cc

  -- After a loss the floor stands for every slot that there was.
  pub require_resync-Follows : (s : LocalState L) → Follows L lru s (require_resync L s)
  unfolding require_resync advance_floor_from_slots
  require_resync-Follows s = record {
    sound = λ h.
        cleared-Sound (advance_floor_from_slots L s).slots
          (advance_floor_from_slots L s).revision_floor false;
    covers = λ j r known. inr (floor_for j r known (newest (L.iter s.slots)) refl);
  }
    where
      floor_for :
          (j : List ℕ) (r : CacheRevision)
          → Covers L lru s j r
          → (o : Option CacheRevision) → newest (L.iter s.slots) ≡ o
          → (f : ℕ) × ((advanced_to L o s).revision_floor ≡ some f) × (r.sequence ≤ f)
      floor_for j r (inr known) none newest_is = known
      floor_for j r (inl (slot, found, below)) none newest_is =
          absurd_none (sym (peek_none L lru s.slots j newest_is) ∙ found)
        where
          absurd_none : none ≡ some slot → (f : ℕ) × (s.revision_floor ≡ some f) × (r.sequence ≤ f)
          absurd_none h = cc
      floor_for j r (inr (f, at, below)) (some q) newest_is = (
        map_or_max s.revision_floor q.sequence,
        floor-advance_floor L lru q.sequence s,
        omega (arith, map_or_max-left s.revision_floor f q.sequence at),
      )
      floor_for j r (inl (slot, found, below)) (some q) newest_is = (
        map_or_max s.revision_floor q.sequence,
        floor-advance_floor L lru q.sequence s,
        omega (
          arith,
          map_or_max-right s.revision_floor q.sequence,
          older-sequence r (revision slot) below,
          peek_bounded L lru s.slots q j slot newest_is found,
        ),
      )

  -- A recovery keeps what is not above its floor.
  pub recovered-Covers :
      (floor : ℕ) (s : LocalState L) (j : List ℕ) (r : CacheRevision)
      → r.sequence ≤ floor
      → Covers L lru (recover_from_backing L floor s) j r
  unfolding recover_from_backing
  recovered-Covers floor s j r below = inr (
    map_or_max s.revision_floor floor,
    refl,
    omega (arith, map_or_max-right s.revision_floor floor),
  )
