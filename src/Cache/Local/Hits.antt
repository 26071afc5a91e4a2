-- ===== src/Cache/Local/Hits.antt =====
-- What is served after a put has been applied.
use orbitive.Prelude.{
  ℕ, ◌≡◌, refl, sym, ap, ◌∙◌, Bool, true, false, List, Option, none, some, bytes_eq, if◌then◌else◌,
}
use orbitive.Cache.Revision.{CacheRevision, PayloadRef, put, revision_of}
use orbitive.Cache.Lru.{LruCache, IsLru}
use orbitive.Cache.Local.{
  LocalSlot, present, missing, LocalState, revision, advance_floor, map_or_max, put_slot,
  superseded, after_push, accepts, is_some, Arena, resolve_payload, expired, hit, read_at, apply,
  carry_out, answered, ApplyOutcome, applied, ignored, payload_unavailable,
}
use orbitive.Cache.Local.Floor.{kept_above, peek-advance_floor}

module _ (L : LruCache LocalSlot) (lru : IsLru L) where
  -- The slot is there, and the cache has not become incoherent.
  abbrev Stored : List ℕ → LocalSlot → LocalState L → LocalState L → Type 0
  Stored key slot s t = (L.peek t.slots key ≡ some slot) × (t.coherent ≡ s.coherent)

  coherent-advance_floor : (n : ℕ) (s : LocalState L) → (advance_floor L n s).coherent ≡ s.coherent
  unfolding advance_floor
  coherent-advance_floor n s = refl

  put_slot-Stored :
      (key : List ℕ) (slot : LocalSlot) (s : LocalState L)
      → (put_slot L key slot s).0 ≡ true
      → Stored key slot s (put_slot L key slot s).1
  unfolding put_slot
  put_slot-Stored key slot s h = split (superseded L (revision slot) (L.peek s.slots key)) h
    where
      pushed : LocalState L
      pushed = record s { slots = (L.push s.slots key slot).1 }

      kept :
          (floor : ℕ) (b : Bool)
          → is_some (if b then none else some slot) ≡ true
          → (if b then none else some slot) ≡ some slot
      kept floor true h = cc
      kept floor false h = refl

      ended :
          (o : Option (List ℕ × LocalSlot))
          → is_some (L.peek (after_push L key pushed o).slots key) ≡ true
          → Stored key slot s (after_push L key pushed o)
      ended none h = (lru.peek-push s.slots key slot, refl)
      ended (some (removed_key, removed)) h = choose (bytes_eq removed_key key) h
        where
          n : ℕ
          n = (revision removed).sequence

          there :
              L.peek (advance_floor L n pushed).slots key
              ≡ kept_above (map_or_max s.revision_floor n) (some slot)
          there =
              peek-advance_floor L lru n pushed key
              ∙ ap (kept_above (map_or_max s.revision_floor n)) (lru.peek-push s.slots key slot)

          choose :
              (b : Bool)
              → is_some (L.peek (if b then pushed else advance_floor L n pushed).slots key) ≡ true
              → Stored key slot s (if b then pushed else advance_floor L n pushed)
          choose true h = (lru.peek-push s.slots key slot, refl)
          choose false h = (
            there ∙ kept (map_or_max s.revision_floor n) _ (sym (ap is_some there) ∙ h),
            coherent-advance_floor n pushed,
          )

      split :
          (b : Bool)
          → (if◌then◌else◌ {A = Bool × LocalState L} b
              (false, s)
              (
                is_some (L.peek (after_push L key pushed (L.push s.slots key slot).0).slots key),
                after_push L key pushed (L.push s.slots key slot).0,
              )).0
            ≡ true
          → Stored key slot s
              (if◌then◌else◌ {A = Bool × LocalState L} b
                (false, s)
                (
                  is_some (L.peek (after_push L key pushed (L.push s.slots key slot).0).slots key),
                  after_push L key pushed (L.push s.slots key slot).0,
                )).1
      split true h = cc
      split false h = ended (L.push s.slots key slot).0 h

  served_now :
      (arena : Arena) (key : List ℕ) (r : CacheRevision) (expires_at_ms : Option ℕ)
      (payload : PayloadRef) (body : List ℕ) (now_ms : ℕ) (s : LocalState L)
      → s.coherent ≡ true
      → L.peek s.slots key ≡ some (present payload r expires_at_ms)
      → resolve_payload arena payload ≡ some body
      → expired expires_at_ms now_ms ≡ false
      → (read_at L arena key now_ms s).0
        ≡ hit (record { value = body; revision = r; expires_at_ms = expires_at_ms })
  unfolding read_at
  served_now arena key r expires_at_ms payload body now_ms s coherent resident resolved fresh =
      rw (coherent, lru.get-value s.slots key, resident, fresh, resolved) refl

  -- When a put is answered "applied" by a coherent cache, a read of its key at a time before the
  -- entry's deadline, while its body is in the arena, is a hit with that body and that revision.
  pub apply-read_at :
      (arena : Arena) (store key : List ℕ) (r : CacheRevision) (expires_at_ms : Option ℕ)
      (payload : PayloadRef) (body : List ℕ) (now_ms : ℕ) (s : LocalState L)
      → s.coherent ≡ true
      → (apply L arena (put store key r expires_at_ms payload) s).0 ≡ applied
      → resolve_payload arena payload ≡ some body
      → expired expires_at_ms now_ms ≡ false
      → (read_at L arena key now_ms (apply L arena (put store key r expires_at_ms payload) s).1).0
        ≡ hit (record { value = body; revision = r; expires_at_ms = expires_at_ms })
  unfolding apply carry_out revision_of
  apply-read_at arena store key r expires_at_ms payload body now_ms s coherent done resolved fresh =
      split (accepts L s r) (resolve_payload arena payload) resolved done
    where
      slot : LocalSlot
      slot = present payload r expires_at_ms

      put_done :
          (d : Bool × LocalState L)
          → (d.0 ≡ true → Stored key slot s d.1)
          → (answered L applied d).0 ≡ applied
          → Stored key slot s (answered L applied d).1
      put_done (true, t) stored h = stored refl
      put_done (false, t) stored h = cc

      read :
          (t : LocalState L)
          → Stored key slot s t
          → (read_at L arena key now_ms t).0
            ≡ hit (record { value = body; revision = r; expires_at_ms = expires_at_ms })
      read t (resident, same) =
          served_now arena key r expires_at_ms payload body now_ms t (same ∙ coherent) resident
            resolved fresh

      split :
          (b : Bool) (o : Option (List ℕ))
          → o ≡ some body
          → (if◌then◌else◌ {A = ApplyOutcome × LocalState L} b
              (if is_some o
                then answered L applied (put_slot L key slot s)
                else answered L (payload_unavailable key) (put_slot L key (missing r) s))
              (ignored, s)).0
            ≡ applied
          → (read_at L arena key now_ms
              (if◌then◌else◌ {A = ApplyOutcome × LocalState L} b
                (if is_some o
                  then answered L applied (put_slot L key slot s)
                  else answered L (payload_unavailable key) (put_slot L key (missing r) s))
                (ignored, s)).1).0
            ≡ hit (record { value = body; revision = r; expires_at_ms = expires_at_ms })
      split false o found h = cc
      split true none found h = cc
      split true (some other) found h =
          read (answered L applied (put_slot L key slot s)).1
            (put_done (put_slot L key slot s) (put_slot-Stored key slot s) h)
