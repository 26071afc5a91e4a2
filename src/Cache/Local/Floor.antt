-- ===== src/Cache/Local/Floor.antt =====
-- What is left of the slots after `advance_floor`: those above the floor.
use orbitive.Prelude.{
  ℕ, ◌≤◌, ◌≡◌, refl, sym, ap, subst, ◌∙◌, Bool, true, false, ◌&&◌, ◌||◌, List, [], ◌∷◌, Option,
  none, some, leb, ltb, bytes_eq, if◌then◌else◌, arith,
}
use orbitive.Cache.Revision.{CacheRevision, older, older-sequence, older_total}
use orbitive.Cache.Lru.{LruCache, IsLru, any_entry, holds}
use orbitive.Cache.Local.{
  LocalSlot, LocalState, revision, stale_keys, pop_all, advance_floor, map_or_max, newest,
}

-- A slot that a floor leaves in place.
abbrev pub kept_above : ℕ → Option LocalSlot → Option LocalSlot
kept_above floor none = none
kept_above floor (some slot) = if leb (revision slot).sequence floor then none else some slot

abbrev stale : ℕ → LocalSlot → Bool
stale floor slot = leb (revision slot).sequence floor

module _ (L : LruCache LocalSlot) (lru : IsLru L) where
  among-stale_keys :
      (floor : ℕ) (j : List ℕ) (es : List (List ℕ × LocalSlot))
      → any_entry (λ k. bytes_eq k j) (stale_keys L floor es)
        ≡ any_entry (λ e. bytes_eq e.0 j && stale floor e.1) es
  among-stale_keys floor j [] = refl
  among-stale_keys floor j (e ∷ es) =
      split (leb (revision e.1).sequence floor) (among-stale_keys floor j es)
    where
      tail : (c x y : Bool) → x ≡ y → (c || x) ≡ (c && true || y)
      tail true x y h = refl
      tail false x y h = h

      skip : (c x y : Bool) → x ≡ y → x ≡ (c && false || y)
      skip true x y h = h
      skip false x y h = h

      split :
          (b : Bool)
          → any_entry (λ k. bytes_eq k j) (stale_keys L floor es)
            ≡ any_entry (λ e. bytes_eq e.0 j && stale floor e.1) es
          → any_entry
              (λ k. bytes_eq k j)
              (if b then e.0 ∷ stale_keys L floor es else stale_keys L floor es)
            ≡ (bytes_eq e.0 j && b || any_entry (λ e. bytes_eq e.0 j && stale floor e.1) es)
      split true rest = tail (bytes_eq e.0 j) _ _ rest
      split false rest = skip (bytes_eq e.0 j) _ _ rest

  peek-pop_all :
      (ks : List (List ℕ)) (c : L.Cache) (j : List ℕ)
      → L.peek (pop_all L ks c) j ≡ (if any_entry (λ k. bytes_eq k j) ks then none else L.peek c j)
  peek-pop_all [] c j = refl
  peek-pop_all (k ∷ ks) c j =
      peek-pop_all ks (L.pop c k) j
      ∙ split (bytes_eq k j) (any_entry (λ k. bytes_eq k j) ks) (lru.peek-pop c k j)
    where
      split :
          (b r : Bool)
          → L.peek (L.pop c k) j ≡ (if b then none else L.peek c j)
          → (if r then none else L.peek (L.pop c k) j) ≡ (if b || r then none else L.peek c j)
      split true true e = refl
      split true false e = e
      split false true e = refl
      split false false e = e

  pub peek-advance_floor :
      (n : ℕ) (s : LocalState L) (j : List ℕ)
      → L.peek (advance_floor L n s).slots j
        ≡ kept_above (map_or_max s.revision_floor n) (L.peek s.slots j)
  unfolding advance_floor
  peek-advance_floor n s j =
      let floor = map_or_max s.revision_floor n in
      let among =
        among-stale_keys floor j (L.iter s.slots) ∙ lru.iter-entries s.slots j (stale floor) in
      peek-pop_all (stale_keys L floor (L.iter s.slots)) s.slots j
      ∙ split floor (L.peek s.slots j) _ among
    where
      split :
          (floor : ℕ) (o : Option LocalSlot) (b : Bool)
          → b ≡ holds (stale floor) o
          → (if b then none else o) ≡ kept_above floor o
      split floor none b e = rw (e) refl
      split floor (some slot) b e = rw (e) refl

abbrev Bounded : Option CacheRevision → ℕ → Type 0
Bounded none n = Unit {0}
Bounded (some m) n = m.sequence ≤ n

not_above :
    (j k : List ℕ) (n m : ℕ) (rest : Bool)
    → m ≤ n
    → rest ≡ false
    → (bytes_eq k j && ltb n m || rest) ≡ false
not_above j k n m rest h e = split (bytes_eq k j)
  where
    split : (b : Bool) → (b && ltb n m || rest) ≡ false
    split true = ground arith
    split false = e

-- No slot is above the newest revision.
newest_bounds :
    (es : List (List ℕ × LocalSlot)) (n : ℕ) (j : List ℕ)
    → Bounded (newest es) n
    → any_entry (λ e. bytes_eq e.0 j && ltb n (revision e.1).sequence) es ≡ false
newest_bounds [] n j h = refl
newest_bounds (e ∷ es) n j h = split (newest es) h (newest_bounds es n j)
  where
    choose :
        (r : CacheRevision) (b : Bool)
        → older (revision e.1) r ≡ b
        → Bounded (if b then some r else some (revision e.1)) n
        → ((revision e.1).sequence ≤ n) × (r.sequence ≤ n)
    choose r true o h = let p = older-sequence (revision e.1) r o in (omega arith, h)
    choose r false o h =
        let p = older-sequence r (revision e.1) (older_total (revision e.1) r o) in (h, omega arith)

    split :
        (o : Option CacheRevision)
        → Bounded
            (elim o [
              | none ↦ some (revision e.1)
              | some r ↦ if older (revision e.1) r then some r else some (revision e.1)
            ])
            n
        → (Bounded o n
            → any_entry (λ e. bytes_eq e.0 j && ltb n (revision e.1).sequence) es ≡ false)
        → any_entry (λ e. bytes_eq e.0 j && ltb n (revision e.1).sequence) (e ∷ es) ≡ false
    split none h rest = not_above j e.0 n (revision e.1).sequence _ h (rest tt)
    split (some r) h rest =
        let both = choose r (older (revision e.1) r) refl h in
        not_above j e.0 n (revision e.1).sequence _ both.0 (rest both.1)

newest-none :
    (es : List (List ℕ × LocalSlot)) (q : List ℕ × LocalSlot → Bool)
    → newest es ≡ none
    → any_entry q es ≡ false
newest-none [] q h = refl
newest-none (e ∷ es) q h = split (newest es) h
  where
    choose :
        (r : CacheRevision) (b : Bool)
        → (if b then some r else some (revision e.1)) ≡ none
        → any_entry q (e ∷ es) ≡ false
    choose r true h = cc
    choose r false h = cc

    split :
        (o : Option CacheRevision)
        → elim o [
          | none ↦ some (revision e.1)
          | some r ↦ if older (revision e.1) r then some r else some (revision e.1)
        ]
          ≡ none
        → any_entry q (e ∷ es) ≡ false
    split none h = cc
    split (some r) h = choose r (older (revision e.1) r) h

module _ (L : LruCache LocalSlot) (lru : IsLru L) where
  -- A resident slot is no newer than the newest of the cache.
  pub peek_bounded :
      (c : L.Cache) (r : CacheRevision) (j : List ℕ) (slot : LocalSlot)
      → newest (L.iter c) ≡ some r
      → L.peek c j ≡ some slot
      → (revision slot).sequence ≤ r.sequence
  peek_bounded c r j slot newest_is resident =
      let bounded =
        newest_bounds (L.iter c) r.sequence j
          (subst (λ o. Bounded o r.sequence) (sym newest_is) self) in
      let below =
        sym (ap (holds (λ v. ltb r.sequence (revision v).sequence)) resident)
        ∙ sym (lru.iter-entries c j (λ v. ltb r.sequence (revision v).sequence))
        ∙ bounded in
      ground (arith, below)
    where
      self : r.sequence ≤ r.sequence
      self = omega arith

  -- A cache with no newest revision has no slot.
  pub peek_none : (c : L.Cache) (j : List ℕ) → newest (L.iter c) ≡ none → L.peek c j ≡ none
  peek_none c j newest_is = split (L.peek c j) (lru.iter-entries c j (λ v. true))
    where
      split :
          (o : Option LocalSlot)
          → any_entry (λ e. bytes_eq e.0 j && true) (L.iter c) ≡ holds (λ v. true) o
          → o ≡ none
      split none e = refl
      split (some slot) e =
          absurd_true (sym e ∙ newest-none (L.iter c) (λ e. bytes_eq e.0 j && true) newest_is)
        where
          absurd_true : true ≡ false → some slot ≡ none
          absurd_true h = cc
