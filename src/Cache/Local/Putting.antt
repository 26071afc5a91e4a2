-- ===== src/Cache/Local/Putting.antt =====
-- What `put_slot` does to what a cache knows: the new revision is covered, and nothing is lost.
use orbitive.Prelude.{
  ℕ, ◌≤◌, ◌≡◌, ◌⊎◌, inl, inr, refl, sym, ap, subst, ◌∙◌, Bool, true, false, List, Option, none,
  some, bytes_eq, bytes_eq_sound, if◌then◌else◌, Bool-cases,
}
use orbitive.Cache.Revision.{
  CacheRevision, older, older_self, older_trans, older_total, older-sequence,
}
use orbitive.Cache.Lru.{LruCache, IsLru, holds}
use orbitive.Cache.Local.{
  LocalSlot, LocalState, revision, advance_floor, put_slot, after_push, superseded, is_some,
}
use orbitive.Cache.Local.Coverage.{
  Knows, Covers, advance_floor-Covers, advance_floor-below, some_injective,
}

clash {ℓ} : {A : Type ℓ} {b : Bool} → b ≡ true → b ≡ false → A
clash h k = absurd (true_false (sym h ∙ k))
  where
    true_false : true ≡ false → ⊥
    true_false e = cc

module _ (L : LruCache LocalSlot) (lru : IsLru L) where
  module _ (key : List ℕ) (slot : LocalSlot) (s : LocalState L) where
    abbrev pub pushed : LocalState L
    pushed = record s { slots = (L.push s.slots key slot).1 }

    -- What the push leaves covered stays so when the floor is raised for a dropped entry.
    after_push-Covers :
        (o : Option (List ℕ × LocalSlot)) (j : List ℕ) (r : CacheRevision)
        → Covers L lru pushed j r
        → Covers L lru (after_push L key pushed o) j r
    after_push-Covers none j r known = known
    after_push-Covers (some (removed_key, removed)) j r known = split (bytes_eq removed_key key)
      where
        split :
            (b : Bool)
            → Covers L lru
                (if b then pushed else advance_floor L (revision removed).sequence pushed)
                j
                r
        split true = known
        split false = advance_floor-Covers L lru (revision removed).sequence pushed j r known

    -- Any other key: the one that is dropped is below the floor at the end.
    after_push-other :
        (j : List ℕ) (r : CacheRevision) (o : Option (List ℕ × LocalSlot))
        → (L.push s.slots key slot).0 ≡ o
        → bytes_eq key j ≡ false
        → Covers L lru s j r
        → Covers L lru (after_push L key pushed o) j r
    after_push-other j r none dropped apart known =
        subst (λ p. Knows p s.revision_floor r)
          (sym (
            lru.peek-push_other s.slots key j slot apart
              (ap (holds (λ d. bytes_eq d.0 j)) dropped)))
          known
    after_push-other j r (some (removed_key, removed)) dropped apart known =
        split (Bool-cases (bytes_eq removed_key j)) (Bool-cases (bytes_eq removed_key key))
      where
        Left : Bool → Type 0
        Left b =
            Covers L lru (if b then pushed else advance_floor L (revision removed).sequence pushed)
              j r

        stays : bytes_eq removed_key j ≡ false → Covers L lru pushed j r
        stays h =
            subst (λ p. Knows p s.revision_floor r)
              (sym (
                lru.peek-push_other s.slots key j slot apart
                  (ap (holds (λ d. bytes_eq d.0 j)) dropped ∙ h)))
              known

        gone :
            bytes_eq removed_key j ≡ true
            → Knows (L.peek s.slots j) s.revision_floor r
            → Covers L lru (advance_floor L (revision removed).sequence pushed) j r
        gone h (inr (f, at, below)) =
            advance_floor-Covers L lru (revision removed).sequence pushed j r (inr (f, at, below))
        gone h (inl (old, resident, below)) =
            advance_floor-below L lru (revision removed).sequence pushed j r (
              subst (λ o. r.sequence ≤ (revision o).sequence) same
                (older-sequence r (revision old) below))
          where
            same : old ≡ removed
            same =
                let there = lru.push-dropped s.slots key removed_key slot removed dropped in
                some_injective (
                  sym resident ∙ ap (L.peek s.slots) (sym (bytes_eq_sound removed_key j h)) ∙ there)

        split :
            (bytes_eq removed_key j ≡ true) ⊎ (bytes_eq removed_key j ≡ false)
            → (bytes_eq removed_key key ≡ true) ⊎ (bytes_eq removed_key key ≡ false)
            → Left (bytes_eq removed_key key)
        split (inl a) (inl b) =
            clash (subst (λ k. bytes_eq k j ≡ true) (bytes_eq_sound removed_key key b) a) apart
        split (inl a) (inr b) = subst Left (sym b) (gone a known)
        split (inr a) (inl b) = subst Left (sym b) (stays a)
        split (inr a) (inr b) =
            subst Left (sym b)
              (advance_floor-Covers L lru (revision removed).sequence pushed j r (stays a))

  superseded_by :
      (r : CacheRevision) (o : Option LocalSlot)
      → superseded L r o ≡ true
      → (current : LocalSlot) × (o ≡ some current) × (older r (revision current) ≡ true)
  superseded_by r none h = cc
  superseded_by r (some current) h = (current, refl, h)

  not_superseded :
      (r : CacheRevision) (o : Option LocalSlot) (current : LocalSlot)
      → o ≡ some current
      → superseded L r o ≡ false
      → older (revision current) r ≡ true
  not_superseded r none current at h = cc
  not_superseded r (some other) current at h =
      subst (λ x. older (revision x) r ≡ true) (some_injective at)
        (older_total r (revision other) h)

  module _ (key : List ℕ) (slot : LocalSlot) (s : LocalState L) where
    abbrev pub at_end : LocalState L
    at_end = after_push L key (pushed key slot s) (L.push s.slots key slot).0

    pub put_slot_rule :
        (Q : LocalState L → Type 0)
        → (superseded L (revision slot) (L.peek s.slots key) ≡ true → Q s)
        → (superseded L (revision slot) (L.peek s.slots key) ≡ false → Q at_end)
        → Q (put_slot L key slot s).1
    unfolding put_slot
    put_slot_rule Q stale new = split (superseded L (revision slot) (L.peek s.slots key)) stale new
      where
        split :
            (b : Bool)
            → (b ≡ true → Q s)
            → (b ≡ false → Q at_end)
            → Q
                (if◌then◌else◌ {A = Bool × LocalState L} b
                  (false, s)
                  (is_some (L.peek at_end.slots key), at_end)).1
        split true stale new = stale refl
        split false stale new = new refl

    -- After the slot is put, its revision is covered, also when it has been refused.
    pub put_slot-key : Covers L lru (put_slot L key slot s).1 key (revision slot)
    put_slot-key =
        put_slot_rule (λ after. Covers L lru after key (revision slot))
          (λ stale. inl (superseded_by (revision slot) (L.peek s.slots key) stale))
          (λ new.
            after_push-Covers key slot s (L.push s.slots key slot).0 key (revision slot)
              (inl (slot, lru.peek-push s.slots key slot, older_self (revision slot))))

    -- Nothing that was covered is lost, whatever entry has been dropped.
    pub put_slot-Covers :
        (j : List ℕ) (r : CacheRevision)
        → Covers L lru s j r
        → Covers L lru (put_slot L key slot s).1 j r
    put_slot-Covers j r known =
        put_slot_rule (λ after. Covers L lru after j r) (λ stale. known)
          (λ new. split new (Bool-cases (bytes_eq key j)) known)
      where
        split :
            superseded L (revision slot) (L.peek s.slots key) ≡ false
            → (bytes_eq key j ≡ true) ⊎ (bytes_eq key j ≡ false)
            → Covers L lru s j r
            → Covers L lru at_end j r
        split new (inr apart) known =
            after_push-other key slot s j r (L.push s.slots key slot).0 refl apart known
        split new (inl same) (inr (f, at, below)) =
            after_push-Covers key slot s (L.push s.slots key slot).0 j r (inr (f, at, below))
        split new (inl same) (inl (old, resident, below)) =
            let one = bytes_eq_sound key j same in
            let replaced =
              not_superseded (revision slot) (L.peek s.slots key) old
                (ap (L.peek s.slots) one ∙ resident) new in
            after_push-Covers key slot s (L.push s.slots key slot).0 j r (
              inl (
                slot,
                ap (L.peek (L.push s.slots key slot).1) (sym one) ∙ lru.peek-push s.slots key slot,
                older_trans r (revision old) (revision slot) below replaced,
              ))
