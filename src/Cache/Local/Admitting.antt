-- ===== src/Cache/Local/Admitting.antt =====
-- A slot that is put above the floor leaves every slot above it.
use orbitive.Prelude.{
  ℕ, ◌<◌, ◌≡◌, ◌⊎◌, inl, inr, refl, sym, ap, subst, ◌∙◌, true, false, List, Option, none, some,
  bytes_eq, bytes_eq_sound, if◌then◌else◌, arith, Bool-cases,
}
use orbitive.Cache.Lru.{LruCache, IsLru, holds}
use orbitive.Cache.Local.{
  LocalSlot, LocalState, revision, advance_floor, put_slot, after_push, accepts, above,
}
use orbitive.Cache.Local.Coverage.{Sound, advance_floor-Sound, some_injective}
use orbitive.Cache.Local.Putting.{pushed, put_slot_rule}

module _ (L : LruCache LocalSlot) (lru : IsLru L) where
  module _ (key : List ℕ) (slot : LocalSlot) (s : LocalState L) where
    -- Every slot stays above the floor, if the new one is.
    pub put_slot-Sound :
        accepts L s (revision slot) ≡ true → Sound L lru s → Sound L lru (put_slot L key slot s).1
    unfolding accepts
    put_slot-Sound accepted sound =
        put_slot_rule L lru key slot s (Sound L lru) (λ stale. sound)
          (λ new. split (L.push s.slots key slot).0 refl)
      where
        accepted_above :
            (floor : Option ℕ) (f : ℕ)
            → above L floor (revision slot).sequence ≡ true
            → floor ≡ some f
            → f < (revision slot).sequence
        accepted_above none f h at = cc
        accepted_above (some g) f h at = let same : g ≡ f = some_injective at in ground arith

        pushed-Sound :
            ((j : List ℕ)
              → bytes_eq key j ≡ false
              → holds (λ d. bytes_eq d.0 j) (L.push s.slots key slot).0 ≡ false)
            → Sound L lru (pushed L lru key slot s)
        pushed-Sound kept j other f resident at = choose (Bool-cases (bytes_eq key j))
          where
            choose :
                (bytes_eq key j ≡ true) ⊎ (bytes_eq key j ≡ false) → f < (revision other).sequence
            choose (inl same) =
                subst (λ o. f < (revision o).sequence)
                  (some_injective (
                    sym (lru.peek-push s.slots key slot)
                    ∙ ap (L.peek (L.push s.slots key slot).1) (bytes_eq_sound key j same)
                    ∙ resident))
                  (accepted_above s.revision_floor f accepted at)
            choose (inr apart) =
                sound j other f
                  (sym (lru.peek-push_other s.slots key j slot apart (kept j apart)) ∙ resident) at

        split :
            (o : Option (List ℕ × LocalSlot))
            → (L.push s.slots key slot).0 ≡ o
            → Sound L lru (after_push L key (pushed L lru key slot s) o)
        split none dropped = pushed-Sound (λ j apart. ap (holds (λ d. bytes_eq d.0 j)) dropped)
        split (some (removed_key, removed)) dropped = choose (Bool-cases (bytes_eq removed_key key))
          where
            choose :
                (bytes_eq removed_key key ≡ true) ⊎ (bytes_eq removed_key key ≡ false)
                → Sound L lru (
                    if bytes_eq removed_key key
                    then pushed L lru key slot s
                    else advance_floor L (revision removed).sequence (pushed L lru key slot s))
            choose (inl b) =
                subst
                  (λ b. Sound L lru (
                    if b
                    then pushed L lru key slot s
                    else advance_floor L (revision removed).sequence (pushed L lru key slot s)))
                  (sym b)
                  (pushed-Sound (λ j apart.
                    ap (holds (λ d. bytes_eq d.0 j)) dropped
                    ∙ subst (λ k. bytes_eq k j ≡ false) (sym (bytes_eq_sound removed_key key b))
                        apart))
            choose (inr b) =
                subst
                  (λ b. Sound L lru (
                    if b
                    then pushed L lru key slot s
                    else advance_floor L (revision removed).sequence (pushed L lru key slot s)))
                  (sym b)
                  (advance_floor-Sound L lru (revision removed).sequence (pushed L lru key slot s))
