-- ===== src/Lock/Table/Lookup.antt =====
-- `live_slot` and `current`: an answer is given exactly if the key has a live lease.
use orbitive.Prelude.{
  ℕ, ◌^◌, ◌≤◌, ◌<◌, ◌≡◌, ◌↔◌, inl, inr, refl, sym, ap, subst, ◌∙◌, true, false, List, Option, none,
  some, set, Result, ok, leb, leb→le, Bool-cases, Option-cases, arith,
}
use orbitive.Lock.Types.{LockKey, LockLease, Error}
use orbitive.Lock.Table.Slot.{LockStateSlot, lease, tombstone}
use orbitive.Lock.Table.Probe.{lock_hash, at, find_slot}
use orbitive.Lock.Table.Ops.{LockStateStore, LockTable, validate_key, live_slot, read_live, current}
use orbitive.Lock.Table.Invariant.{Matches, IsTable, Aged, Aged-refl, set-Aged}
use orbitive.Lock.Table.Find.{Finds, find_slot-Finds}
use orbitive.Lock.Table.Walk.{tombstone-state}
use orbitive.Lock.Table.View.{Holds, Holds-unique, Holds-aged, by_slot}

-- No entry of the key stands in the table, live or not.
abbrev pub Free : ℕ → List LockStateSlot → LockKey → Type 0
Free k slots key = (i : ℕ) → i < 2 ^ k → ¬ Matches (at slots i) (lock_hash key) key

pub Free-unheld :
    (k now : ℕ) (slots : List LockStateSlot) (key : LockKey) (l : LockLease)
    → Free k slots key
    → ¬ Holds k now slots key l
Free-unheld k now slots key l f h = f h.index h.inside h.entry

-- What `live_slot` may answer and leave.
abbrev pub Lives : ℕ → LockKey → ℕ → LockTable → Option ℕ × LockTable → Type 0
Lives k key now t (none, t') =
    Aged now t.slots t'.slots
    × (t'.next_lock ≡ t.next_lock)
    × (t'.next_revision ≡ t.next_revision)
    × Free k t'.slots key
Lives k key now t (some i, t') =
    (t' ≡ t)
    × (i < 2 ^ k)
    × Matches (at t.slots i) (lock_hash key) key
    × (now < (at t.slots i).expires_at_ms)

module _ (k : ℕ) (small : k ≤ 64) (key : LockKey) (now : ℕ) (t : LockTable)
    (v : IsTable k t.slots) where
  module _ (i : ℕ) (h : i < 2 ^ k) (m : Matches (at t.slots i) (lock_hash key) key) where
    -- The entry of a key, made a tombstone, was its only one.
    pub tombstone-Free : Free k (set t.slots i (tombstone (at t.slots i))) key
    tombstone-Free =
        by_slot k t.slots v i h (tombstone (at t.slots i))
          (λ j s. j < 2 ^ k → ¬ Matches s (lock_hash key) key)
          (λ _ n. let e = tombstone-state (at t.slots i) in let b = n.busy in cc)
          (λ j ne hj n. ne (v.distinct i j h hj m.busy n.busy (m.key_eq ∙ sym n.key_eq)))

    pub tombstone-Aged :
        (later : ℕ)
        → (at t.slots i).expires_at_ms ≤ later
        → Aged later t.slots (set t.slots i (tombstone (at t.slots i)))
    tombstone-Aged later x = set-Aged later t.slots i m.busy x (subst (λ n. i < n) (sym v.size) h)

  live_slot-none : find_slot t.slots (lock_hash key) key ≡ none → live_slot key now t ≡ (none, t)
  unfolding live_slot
  live_slot-none e = ground arith

  live_slot-lapsed :
      (i : ℕ)
      → find_slot t.slots (lock_hash key) key ≡ some i
      → leb (at t.slots i).expires_at_ms now ≡ true
      → live_slot key now t ≡ (none, record t { slots = set t.slots i (tombstone (at t.slots i)) })
  unfolding live_slot
  live_slot-lapsed i e x = ground arith

  live_slot-live :
      (i : ℕ)
      → find_slot t.slots (lock_hash key) key ≡ some i
      → leb (at t.slots i).expires_at_ms now ≡ false
      → live_slot key now t ≡ (some i, t)
  unfolding live_slot
  live_slot-live i e x = ground arith

  found_at :
      (i : ℕ)
      → find_slot t.slots (lock_hash key) key ≡ some i
      → (i < 2 ^ k) × Matches (at t.slots i) (lock_hash key) key
  found_at i e =
      subst (Finds k (lock_hash key) small key t.slots) e
        (find_slot-Finds k (lock_hash key) small key t.slots v)

  pub live_slot-Lives : Lives k key now t (live_slot key now t)
  live_slot-Lives = elim (Option-cases (find_slot t.slots (lock_hash key) key)) [
    | inl e ↦ subst (Lives k key now t) (sym (live_slot-none e)) (
      Aged-refl now t.slots,
      refl,
      refl,
      subst (Finds k (lock_hash key) small key t.slots) e
          (find_slot-Finds k (lock_hash key) small key t.slots v),
    )
    | inr (i, e) ↦ elim (Bool-cases (leb (at t.slots i).expires_at_ms now)) [
      | inl x ↦
          let (h, m) = found_at i e in
          subst (Lives k key now t) (sym (live_slot-lapsed i e x))
            (tombstone-Aged i h m now (leb→le _ _ x), refl, refl, tombstone-Free i h m)
      | inr x ↦
          let (h, m) = found_at i e in
          subst (Lives k key now t) (sym (live_slot-live i e x)) (refl, h, m, ground arith)
    ]
  ]

  -- What `current` reads off that answer.
  Lives-current :
      (found : Option ℕ × LockTable) (l : LockLease)
      → Lives k key now t found
      → ((read_live found).0 ≡ ok (some l)) ↔ Holds k now t.slots key l
  Lives-current (none, t') l (a, _, _, f) = (
    λ e. cc,
    λ h. absurd (
        Free-unheld k now t'.slots key l f
          ((Holds-aged k now now (omega arith) t.slots t'.slots a key l).1 h)),
  )
  Lives-current (some i, t') l (same, h, m, live) = (
    λ e. record {
      index = i;
      inside = h;
      entry = m;
      live = live;
      said = sym (ap (λ (u : LockTable). lease (at u.slots i)) same) ∙ ground arith;
    },
    λ x.
        ap (λ y. ok (some y))
          (ap (λ (u : LockTable). lease (at u.slots i)) same
            ∙ Holds-unique k now t.slots key _ l v
                (record { index = i; inside = h; entry = m; live = live; said = refl }) x),
  )

  current-eq :
      (c : LockStateStore)
      → validate_key c key ≡ ok tt
      → current c key now t ≡ read_live (live_slot key now t)
  unfolding current
  current-eq c e = ground arith

  -- For a key that passes validation, `current` answers with a lease exactly if the key holds it at
  -- that time.
  pub current_iff :
      (c : LockStateStore) (l : LockLease)
      → validate_key c key ≡ ok tt
      → ((current c key now t).0 ≡ ok (some l)) ↔ Holds k now t.slots key l
  current_iff c l e =
      subst
        (λ (r : Result Error (Option LockLease) × LockTable).
          (r.0 ≡ ok (some l)) ↔ Holds k now t.slots key l)
        (sym (current-eq c e)) (Lives-current (live_slot key now t) l live_slot-Lives)
