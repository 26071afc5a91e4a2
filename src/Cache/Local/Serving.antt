-- ===== src/Cache/Local/Serving.antt =====
-- Reading, losing the ring and recovering, as steps that keep what a cache knows.
use orbitive.Cache.Local.{served, looked_up}
use orbitive.Cache.Local.Following.{Follows, Follows-refl}
use orbitive.Prelude.{
  ℕ, ◌<◌, ◌≡◌, ◌⊎◌, inl, inr, refl, sym, ap, subst, ◌∙◌, Bool, true, false, List, Option, none,
  some, bytes_eq, bytes_eq_sound, if◌then◌else◌, arith, Bool-cases,
}
use orbitive.Cache.Revision.{CacheRevision, older, sequence-older}
use orbitive.Cache.Lru.{LruCache, IsLru}
use orbitive.Cache.Local.{
  LocalSlot, present, missing, LocalState, revision, Arena, resolve_payload, CacheEntry, CacheRead,
  hit, resync_required, entry_at, expired, demoted, read_at,
}
use orbitive.Cache.Local.Coverage.{Knows, Covers, Sound, some_injective}

-- An entry that is served has the revision of the slot that it is served from.
entry_at-revision :
    (arena : Arena) (now_ms : ℕ) (slot : LocalSlot) (entry : CacheEntry)
    → entry_at arena now_ms slot ≡ some entry
    → entry.revision ≡ revision slot
entry_at-revision arena now_ms (missing r) entry h = cc
entry_at-revision arena now_ms (present payload r expires_at_ms) entry h =
    split (expired expires_at_ms now_ms) (resolve_payload arena payload) h
  where
    found :
        (o : Option (List ℕ))
        → elim o [
          | none ↦ none
          | some body ↦ some (record { value = body; revision = r; expires_at_ms = expires_at_ms })
        ]
          ≡ some entry
        → entry.revision ≡ r
    found none h = cc
    found (some body) h = ap (λ e. e.revision) (sym (some_injective h))

    split :
        (b : Bool) (o : Option (List ℕ))
        → (if b then none else elim o [
          | none ↦ none
          | some body ↦ some (record { value = body; revision = r; expires_at_ms = expires_at_ms })
        ])
          ≡ some entry
        → entry.revision ≡ r
    split true o h = cc
    split false o h = found o h

module _ (L : LruCache LocalSlot) (lru : IsLru L) where
  same_peeks-Follows :
      (s : LocalState L) (c : L.Cache)
      → ((j : List ℕ) → L.peek c j ≡ L.peek s.slots j)
      → Follows L lru s (record s { slots = c })
  same_peeks-Follows s c same = record {
    sound = λ h j slot f resident at. h j slot f (sym (same j) ∙ resident) at;
    covers = λ j r known. subst (λ o. Knows o s.revision_floor r) (sym (same j)) known;
  }

  -- A slot that turns into the tombstone of its revision.
  demoted-Follows :
      (s : LocalState L) (key : List ℕ) (slot : LocalSlot)
      → L.peek s.slots key ≡ some slot
      → Follows L lru s (record s { slots = demoted L slot (L.get s.slots key).1 key })
  demoted-Follows s key (missing r) resident =
      same_peeks-Follows s (L.get s.slots key).1 (lru.peek-get s.slots key)
  demoted-Follows s key (present payload r expires_at_ms) resident = record {
    sound = λ h j slot f found at. sound h j slot f found at (Bool-cases (bytes_eq key j));
    covers = λ j q known. covers j q (Bool-cases (bytes_eq key j)) known;
  }
    where
      old : LocalSlot
      old = present payload r expires_at_ms

      c : L.Cache
      c = (L.get s.slots key).1

      peeks :
          (j : List ℕ)
          → L.peek (L.put c key (missing r)) j
            ≡ (if bytes_eq key j then some (missing r) else L.peek s.slots j)
      peeks j =
          lru.peek-put c key j (missing r) old (lru.peek-get s.slots key key ∙ resident)
          ∙ ap (λ o. if bytes_eq key j then some (missing r) else o) (lru.peek-get s.slots key j)

      replaced :
          (j : List ℕ)
          → bytes_eq key j ≡ true
          → L.peek (L.put c key (missing r)) j ≡ some (missing r)
      replaced j same = peeks j ∙ ap (λ b. if b then some (missing r) else L.peek s.slots j) same

      untouched :
          (j : List ℕ)
          → bytes_eq key j ≡ false
          → L.peek (L.put c key (missing r)) j ≡ L.peek s.slots j
      untouched j apart = peeks j ∙ ap (λ b. if b then some (missing r) else L.peek s.slots j) apart

      sound :
          Sound L lru s
          → (j : List ℕ) (slot : LocalSlot) (f : ℕ) → L.peek (L.put c key (missing r)) j ≡ some slot
          → s.revision_floor ≡ some f
          → (bytes_eq key j ≡ true) ⊎ (bytes_eq key j ≡ false)
          → f < (revision slot).sequence
      sound h j slot f found at (inl same) =
          subst (λ o. f < (revision o).sequence) (some_injective (sym (replaced j same) ∙ found))
            (h key old f resident at)
      sound h j slot f found at (inr apart) = h j slot f (sym (untouched j apart) ∙ found) at

      covers :
          (j : List ℕ) (q : CacheRevision)
          → (bytes_eq key j ≡ true) ⊎ (bytes_eq key j ≡ false)
          → Covers L lru s j q
          → Knows (L.peek (L.put c key (missing r)) j) s.revision_floor q
      covers j q (inr apart) known =
          subst (λ o. Knows o s.revision_floor q) (sym (untouched j apart)) known
      covers j q (inl same) (inr (f, at, below)) = inr (f, at, below)
      covers j q (inl same) (inl (slot, found, below)) = inl (
        missing r,
        replaced j same,
        subst (λ o. older q (revision o) ≡ true)
            (some_injective
              (sym found ∙ ap (L.peek s.slots) (sym (bytes_eq_sound key j same)) ∙ resident))
            below,
      )

  pub read_at-Follows :
      (arena : Arena) (key : List ℕ) (now_ms : ℕ) (s : LocalState L)
      → Follows L lru s (read_at L arena key now_ms s).1
  unfolding read_at
  read_at-Follows arena key now_ms s = coherent s.coherent
    where
      entry :
          (slot : LocalSlot) (o : Option CacheEntry)
          → L.peek s.slots key ≡ some slot
          → Follows L lru s (served L o slot (L.get s.slots key).1 key s).1
      entry slot (some e) resident =
          same_peeks-Follows s (L.get s.slots key).1 (lru.peek-get s.slots key)
      entry slot none resident = demoted-Follows s key slot resident

      looked :
          (o : Option LocalSlot)
          → L.peek s.slots key ≡ o
          → Follows L lru s (looked_up L arena now_ms o (L.get s.slots key).1 key s).1
      looked none h = same_peeks-Follows s (L.get s.slots key).1 (lru.peek-get s.slots key)
      looked (some slot) h = entry slot (entry_at arena now_ms slot) h

      coherent :
          (b : Bool)
          → Follows L lru s
              (if◌then◌else◌ {A = CacheRead × LocalState L} b
                (looked_up L arena now_ms (L.get s.slots key).0 (L.get s.slots key).1 key s)
                (resync_required, s)).1
      coherent true = looked (L.get s.slots key).0 (sym (lru.get-value s.slots key))
      coherent false = Follows-refl L lru s

  -- What a read serves is as new as everything that the cache covers at the key.
  pub read_at-newest :
      (arena : Arena) (key : List ℕ) (now_ms : ℕ) (s : LocalState L) (entry : CacheEntry)
      (r : CacheRevision)
      → Sound L lru s
      → Covers L lru s key r
      → (read_at L arena key now_ms s).0 ≡ hit entry
      → older r entry.revision ≡ true
  unfolding read_at
  read_at-newest arena key now_ms s entry r sound known h = coherent s.coherent h
    where
      newest_known :
          (slot : LocalSlot)
          → L.peek s.slots key ≡ some slot
          → Covers L lru s key r
          → older r (revision slot) ≡ true
      newest_known slot resident (inl (old, found, below)) =
          subst (λ o. older r (revision o) ≡ true) (some_injective (sym found ∙ resident)) below
      newest_known slot resident (inr (f, at, below)) =
          let above_floor = sound key slot f resident at in
          sequence-older r (revision slot) (omega arith)

      found :
          (slot : LocalSlot) (o : Option CacheEntry)
          → entry_at arena now_ms slot ≡ o
          → L.peek s.slots key ≡ some slot
          → (served L o slot (L.get s.slots key).1 key s).0 ≡ hit entry
          → older r entry.revision ≡ true
      found slot none at resident h = cc
      found slot (some e) at resident h =
          let one : e ≡ entry = cc in
          subst (λ x. older r x ≡ true)
            (sym (entry_at-revision arena now_ms slot entry (at ∙ ap some one)))
            (newest_known slot resident known)

      looked :
          (o : Option LocalSlot)
          → L.peek s.slots key ≡ o
          → (looked_up L arena now_ms o (L.get s.slots key).1 key s).0 ≡ hit entry
          → older r entry.revision ≡ true
      looked none at h = cc
      looked (some slot) at h = found slot (entry_at arena now_ms slot) refl at h

      coherent :
          (b : Bool)
          → (if◌then◌else◌ {A = CacheRead × LocalState L} b
              (looked_up L arena now_ms (L.get s.slots key).0 (L.get s.slots key).1 key s)
              (resync_required, s)).0
            ≡ hit entry
          → older r entry.revision ≡ true
      coherent true h = looked (L.get s.slots key).0 (sym (lru.get-value s.slots key)) h
      coherent false h = cc
