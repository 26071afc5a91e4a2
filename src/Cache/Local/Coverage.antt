-- ===== src/Cache/Local/Coverage.antt =====
-- What a cache knows of a key: a slot, or the floor, stands for every revision it has been told.
use orbitive.Prelude.{
  ℕ, ◌≤◌, ◌<◌, ◌≡◌, ◌⊎◌, inl, inr, refl, sym, ap, subst, ◌∙◌, true, false, List, Option, none, some,
  leb, if◌then◌else◌, arith, leb→le, Bool-cases,
}
use orbitive.Cache.Revision.{CacheRevision, older, older-sequence}
use orbitive.Cache.Lru.{LruCache, IsLru}
use orbitive.Cache.Local.{LocalSlot, LocalState, revision, advance_floor, map_or_max}
use orbitive.Cache.Local.Floor.{kept_above, peek-advance_floor}

-- The revision is no newer than a slot's, or not above the floor.
abbrev pub Knows : Option LocalSlot → Option ℕ → CacheRevision → Type 0
Knows o floor r =
    ((slot : LocalSlot) × (o ≡ some slot) × (older r (revision slot) ≡ true))
    ⊎ ((f : ℕ) × (floor ≡ some f) × (r.sequence ≤ f))

pub map_or_max-left : (floor : Option ℕ) (f n : ℕ) → floor ≡ some f → f ≤ map_or_max floor n
map_or_max-left none f n h = cc
map_or_max-left (some g) f n h = let same : g ≡ f = cc in omega arith

pub map_or_max-right : (floor : Option ℕ) (n : ℕ) → n ≤ map_or_max floor n
map_or_max-right none n = omega arith
map_or_max-right (some g) n = omega arith

-- Raising the floor and dropping what is below it loses nothing.
Knows-kept_above :
    (o : Option LocalSlot) (floor : Option ℕ) (n : ℕ) (r : CacheRevision)
    → Knows o floor r
    → Knows (kept_above (map_or_max floor n) o) (some (map_or_max floor n)) r
Knows-kept_above o floor n r (inr (f, at, below)) =
    inr (map_or_max floor n, refl, omega (arith, map_or_max-left floor f n at))
Knows-kept_above o floor n r (inl (slot, at, below)) =
    subst (λ o. Knows (kept_above (map_or_max floor n) o) (some (map_or_max floor n)) r) (sym at)
      (split (Bool-cases (leb (revision slot).sequence (map_or_max floor n))))
  where
    F : ℕ
    F = map_or_max floor n

    split :
        (leb (revision slot).sequence F ≡ true) ⊎ (leb (revision slot).sequence F ≡ false)
        → Knows (kept_above F (some slot)) (some F) r
    split (inl h) =
        let p = older-sequence r (revision slot) below in inr (F, refl, omega (arith, leb→le _ _ h))
    split (inr h) = inl (slot, ap (λ b. if b then none else some slot) h, below)

pub some_injective : {A : Type 0} {a b : A} → some a ≡ some b → a ≡ b
some_injective h = cc

module _ (L : LruCache LocalSlot) (lru : IsLru L) where
  abbrev pub Covers : LocalState L → List ℕ → CacheRevision → Type 0
  Covers s key r = Knows (L.peek s.slots key) s.revision_floor r

  -- Every slot is above the floor.
  abbrev pub Sound : LocalState L → Type 0
  Sound s =
      (j : List ℕ) (slot : LocalSlot) (f : ℕ)
      → L.peek s.slots j ≡ some slot
      → s.revision_floor ≡ some f
      → f < (revision slot).sequence

  pub floor-advance_floor :
      (n : ℕ) (s : LocalState L)
      → (advance_floor L n s).revision_floor ≡ some (map_or_max s.revision_floor n)
  unfolding advance_floor
  floor-advance_floor n s = refl

  pub advance_floor-Covers :
      (n : ℕ) (s : LocalState L) (j : List ℕ) (r : CacheRevision)
      → Covers s j r
      → Covers (advance_floor L n s) j r
  unfolding advance_floor
  advance_floor-Covers n s j r known =
      subst (λ o. Knows o (some (map_or_max s.revision_floor n)) r)
        (sym (peek-advance_floor L lru n s j))
        (Knows-kept_above (L.peek s.slots j) s.revision_floor n r known)

  pub advance_floor-below :
      (n : ℕ) (s : LocalState L) (j : List ℕ) (r : CacheRevision)
      → r.sequence ≤ n
      → Covers (advance_floor L n s) j r
  unfolding advance_floor
  advance_floor-below n s j r below =
      inr (map_or_max s.revision_floor n, refl, omega (arith, map_or_max-right s.revision_floor n))

  pub advance_floor-Sound : (n : ℕ) (s : LocalState L) → Sound (advance_floor L n s)
  unfolding advance_floor
  advance_floor-Sound n s j slot f resident at =
      split (L.peek s.slots j) (sym (peek-advance_floor L lru n s j) ∙ resident)
    where
      F : ℕ
      F = map_or_max s.revision_floor n

      sequence_of : Option LocalSlot → ℕ
      sequence_of none = 0
      sequence_of (some x) = (revision x).sequence

      split :
          (o : Option LocalSlot)
          → kept_above (map_or_max s.revision_floor n) o ≡ some slot
          → f < (revision slot).sequence
      split none h = cc
      split (some old) h = keep (Bool-cases (leb (revision old).sequence F))
        where
          keep :
              (leb (revision old).sequence F ≡ true) ⊎ (leb (revision old).sequence F ≡ false)
              → f < (revision slot).sequence
          keep (inl b) = absurd_none (sym (ap (λ b. if b then none else some old) b) ∙ h)
            where
              absurd_none : none ≡ some slot → f < (revision slot).sequence
              absurd_none e = cc
          keep (inr b) =
              let same : some old ≡ some slot =
                sym (ap (λ b. if b then none else some old) b) ∙ h in
              let level : F ≡ f = cc in let sequence = ap (sequence_of) same in ground (arith, b)
