-- ===== src/Cache/Local/Following.antt =====
-- Every operation of a cache keeps what it knows, and what it serves is no older than that.
use orbitive.Prelude.{
  ℕ, ◌≡◌, ◌⊎◌, inl, inr, refl, sym, subst, Bool, true, false, List, Option, none, some,
  if◌then◌else◌, arith, Bool-cases,
}
use orbitive.Cache.Revision.{
  CacheRevision, PayloadRef, CacheMutation, put, delete, reset, revision_of,
}
use orbitive.Cache.Lru.{LruCache, IsLru}
use orbitive.Cache.Local.{
  LocalSlot, present, missing, LocalState, revision, advance_floor, put_slot, accepts, above,
  is_some, Arena, resolve_payload, apply, carry_out, answered, ApplyOutcome, applied,
  payload_unavailable,
}
use orbitive.Cache.Local.Coverage.{
  Covers, Sound, advance_floor-Covers, advance_floor-below, advance_floor-Sound,
}
use orbitive.Cache.Local.Putting.{put_slot-key, put_slot-Covers}
use orbitive.Cache.Local.Admitting.{put_slot-Sound}

-- The keys that a mutation speaks of.
abbrev pub Concerns : CacheMutation → List ℕ → Type 0
Concerns (put store key r expires_at_ms payload) j = key ≡ j
Concerns (delete store key r) j = key ≡ j
Concerns (reset store r) j = Unit {0}

module _ (L : LruCache LocalSlot) (lru : IsLru L) where
  -- A step that keeps every slot above the floor and loses nothing that was covered.
  pub record Follows (s t : LocalState L) : Type 0 where
    pub sound : Sound L lru s → Sound L lru t
    pub covers : (j : List ℕ) (r : CacheRevision) → Covers L lru s j r → Covers L lru t j r

  pub Follows-refl : (s : LocalState L) → Follows s s
  Follows-refl s = record { sound = λ h. h; covers = λ j r h. h }

  pub advance_floor-Follows : (n : ℕ) (s : LocalState L) → Follows s (advance_floor L n s)
  advance_floor-Follows n s = record {
    sound = λ h. advance_floor-Sound L lru n s;
    covers = advance_floor-Covers L lru n s;
  }

  pub put_slot-Follows :
      (key : List ℕ) (slot : LocalSlot) (s : LocalState L)
      → accepts L s (revision slot) ≡ true
      → Follows s (put_slot L key slot s).1
  put_slot-Follows key slot s accepted = record {
    sound = put_slot-Sound L lru key slot s accepted;
    covers = put_slot-Covers L lru key slot s;
  }

  -- A refused revision is not above the floor.
  pub refused-Covers :
      (s : LocalState L) (j : List ℕ) (r : CacheRevision)
      → accepts L s r ≡ false
      → Covers L lru s j r
  unfolding accepts
  refused-Covers s j r refused = split s.revision_floor refl refused
    where
      split :
          (o : Option ℕ) → s.revision_floor ≡ o → above L o r.sequence ≡ false → Covers L lru s j r
      split none at h = cc
      split (some f) at h = inr (f, at, ground arith)

  answered_state :
      (outcome : ApplyOutcome) (d : Bool × LocalState L) → (answered L outcome d).1 ≡ d.1
  answered_state outcome (true, s) = refl
  answered_state outcome (false, s) = refl

  -- An accepted mutation of a key puts a slot of its revision.
  put_rule :
      (Q : LocalState L → Type 0) (arena : Arena) (store key : List ℕ) (r : CacheRevision)
      (expires_at_ms : Option ℕ) (payload : PayloadRef) (s : LocalState L)
      → ((slot : LocalSlot) → revision slot ≡ r → Q (put_slot L key slot s).1)
      → Q (carry_out L arena (put store key r expires_at_ms payload) s).1
  unfolding carry_out
  put_rule Q arena store key r expires_at_ms payload s puts =
      split (is_some (resolve_payload arena payload))
    where
      split :
          (b : Bool)
          → Q
              (if◌then◌else◌ {A = ApplyOutcome × LocalState L} b
                (answered L applied (put_slot L key (present payload r expires_at_ms) s))
                (answered L (payload_unavailable key) (put_slot L key (missing r) s))).1
      split true =
          subst Q
            (sym (answered_state applied (put_slot L key (present payload r expires_at_ms) s)))
            (puts (present payload r expires_at_ms) refl)
      split false =
          subst Q (sym (answered_state (payload_unavailable key) (put_slot L key (missing r) s)))
            (puts (missing r) refl)

  delete_rule :
      (Q : LocalState L → Type 0) (arena : Arena) (store key : List ℕ) (r : CacheRevision)
      (s : LocalState L)
      → Q (put_slot L key (missing r) s).1
      → Q (carry_out L arena (delete store key r) s).1
  unfolding carry_out
  delete_rule Q arena store key r s q =
      subst Q (sym (answered_state applied (put_slot L key (missing r) s))) q

  carry_out-Follows :
      (arena : Arena) (mutation : CacheMutation) (s : LocalState L)
      → accepts L s (revision_of mutation) ≡ true
      → Follows s (carry_out L arena mutation s).1
  unfolding carry_out revision_of
  carry_out-Follows arena (put store key r expires_at_ms payload) s accepted =
      put_rule (Follows s) arena store key r expires_at_ms payload s (λ slot same.
        put_slot-Follows key slot s (subst (λ q. accepts L s q ≡ true) (sym same) accepted))
  carry_out-Follows arena (delete store key r) s accepted =
      delete_rule (Follows s) arena store key r s (put_slot-Follows key (missing r) s accepted)
  carry_out-Follows arena (reset store r) s accepted = advance_floor-Follows r.sequence s

  carry_out-Covers :
      (arena : Arena) (mutation : CacheMutation) (s : LocalState L) (j : List ℕ)
      → Concerns mutation j
      → Covers L lru (carry_out L arena mutation s).1 j (revision_of mutation)
  unfolding carry_out revision_of
  carry_out-Covers arena (put store key r expires_at_ms payload) s j about =
      put_rule (λ t. Covers L lru t j r) arena store key r expires_at_ms payload s
        (λ slot same.
          subst (λ k. Covers L lru (put_slot L key slot s).1 k r) about
            (subst (Covers L lru (put_slot L key slot s).1 key) same
              (put_slot-key L lru key slot s)))
  carry_out-Covers arena (delete store key r) s j about =
      delete_rule (λ t. Covers L lru t j r) arena store key r s
        (subst (λ k. Covers L lru (put_slot L key (missing r) s).1 k r) about
          (put_slot-key L lru key (missing r) s))
  carry_out-Covers arena (reset store r) s j about =
      advance_floor-below L lru r.sequence s j r (omega arith)

  pub apply-Follows :
      (arena : Arena) (mutation : CacheMutation) (s : LocalState L)
      → Follows s (apply L arena mutation s).1
  unfolding apply
  apply-Follows arena mutation s = split (Bool-cases (accepts L s (revision_of mutation)))
    where
      split :
          (accepts L s (revision_of mutation) ≡ true) ⊎ (accepts L s (revision_of mutation) ≡ false)
          → Follows s (apply L arena mutation s).1
      split (inl h) = rw (h) (carry_out-Follows arena mutation s h)
      split (inr h) = rw (h) (Follows-refl s)

  -- Whatever becomes of a mutation, the cache then covers its revision at every key it speaks of.
  pub apply-Covers :
      (arena : Arena) (mutation : CacheMutation) (s : LocalState L) (j : List ℕ)
      → Concerns mutation j
      → Covers L lru (apply L arena mutation s).1 j (revision_of mutation)
  unfolding apply
  apply-Covers arena mutation s j about = split (Bool-cases (accepts L s (revision_of mutation)))
    where
      split :
          (accepts L s (revision_of mutation) ≡ true) ⊎ (accepts L s (revision_of mutation) ≡ false)
          → Covers L lru (apply L arena mutation s).1 j (revision_of mutation)
      split (inl h) = rw (h) (carry_out-Covers arena mutation s j about)
      split (inr h) = rw (h) (refused-Covers s j (revision_of mutation) h)
