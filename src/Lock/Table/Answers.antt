-- ===== src/Lock/Table/Answers.antt =====
-- When `acquire` answers `occupied`, and when it grants a lease.
use orbitive.Prelude.{
  ℕ, suc, ◌^◌, ◌≤◌, ◌<◌, ◌≡◌, ap, subst, ◌∙◌, List, none, some, ok, u64_mod, arith,
}
use orbitive.Lock.Types.{LockKey, LockOwner, LockLease, LockAcquire, LockTransition}
use orbitive.Lock.Table.Slot.{LockStateSlot}
use orbitive.Lock.Table.Probe.{lock_hash, at, Scan, holder, room}
use orbitive.Lock.Table.Ops.{
  LockStateStore, LockTable, Publish, Outcome, lock_counter_max, validate_entry, settle, acquire,
}
use orbitive.Lock.Table.Invariant.{Ages, Ages-occupied, Aged, Aged-IsTable}
use orbitive.Lock.Table.View.{Holds, Holds-aged, Holds-unique}
use orbitive.Lock.Table.Sequence.{offset_of, offset_of-lt, probe_index-offset_of}
use orbitive.Lock.Table.Walk.{Live, Ends}
use orbitive.Lock.Table.Scanning.{scan_lem}
use orbitive.Lock.Table.Sound.{Configured, Sound}
use orbitive.Lock.Table.Lookup.{Free-unheld}
use orbitive.Lock.Table.Install.{minted, installed}
use orbitive.Lock.Table.Acquire.{acquire-eq, after}

Live-before : (now : ℕ) (s s' : LockStateSlot) → Ages now s s' → Live now s' → Live now s
Live-before now s s' a l = let same = Ages-occupied now s s' a l.0 in subst (Live now) same l

module _ (c : LockStateStore) (publish : Publish) (key : LockKey) (owner : LockOwner)
    (now expires k : ℕ) (small : k ≤ 64) (p : Configured c) (t : LockTable) (v : Sound c k t) where
  -- For a valid entry, `acquire` answers `occupied` whenever the key holds a lease.
  pub acquire_occupied :
      (l : LockLease)
      → validate_entry c key owner ≡ ok tt
      → Holds k now t.slots key l
      → (acquire c publish key owner now expires t).0 ≡ ok (LockAcquire.occupied l)
  unfolding settle
  acquire_occupied l valid h =
      let (a, ends) = scan_lem k (lock_hash key) now key small t.slots v.table in
      ap (λ (r : Outcome LockAcquire). r.0)
        (acquire-eq c publish key owner now expires k small p t v valid)
      ∙ settled _ _ a ends
    where
      settled :
          (slots : List LockStateSlot) (s : Scan)
          → Aged now t.slots slots
          → Ends k (lock_hash key) now key slots s
          → (settle c publish key owner now expires
              (after c publish key owner now expires k small p t v slots)
              s).0
            ≡ ok (LockAcquire.occupied l)
      settled slots (holder l') a (i, hi, m, live, said) =
          ap (λ l. ok (LockAcquire.occupied l))
            (Holds-unique k now slots key l' l (Aged-IsTable k now t.slots slots a v.table)
              (record { index = i; inside = hi; entry = m; live = live; said = said })
              ((Holds-aged k now now (omega arith) t.slots slots a key l).1 h))
      settled slots (room ins) a (free, spot) = absurd (
          Free-unheld k now slots key l free
            ((Holds-aged k now now (omega arith) t.slots slots a key l).1 h))

  -- For a valid entry whose key holds no lease, `acquire` grants one, if any slot is not live, the
  -- counters are not used up and the event can be published.
  pub acquire_granted :
      (i : ℕ)
      → i < 2 ^ k
      → ¬ Live now (at t.slots i)
      → validate_entry c key owner ≡ ok tt
      → ((l : LockLease) → ¬ Holds k now t.slots key l)
      → t.next_lock < lock_counter_max
      → suc t.next_revision < u64_mod
      → publish (LockTransition.acquired (minted c publish key owner now expires t)) ≡ ok tt
      → (acquire c publish key owner now expires t).0
        ≡ ok (LockAcquire.acquired (minted c publish key owner now expires t))
  unfolding settle
  acquire_granted i hi idle valid unheld h r q =
      let (a, ends) = scan_lem k (lock_hash key) now key small t.slots v.table in
      ap (λ (r : Outcome LockAcquire). r.0)
        (acquire-eq c publish key owner now expires k small p t v valid)
      ∙ settled _ _ a ends
    where
      settled :
          (slots : List LockStateSlot) (s : Scan)
          → Aged now t.slots slots
          → Ends k (lock_hash key) now key slots s
          → (settle c publish key owner now expires
              (after c publish key owner now expires k small p t v slots)
              s).0
            ≡ ok (LockAcquire.acquired (minted c publish key owner now expires t))
      settled slots (holder l) a (j, hj, m, live, said) = absurd (
          unheld l (
            (Holds-aged k now now (omega arith) t.slots slots a key l).0
              (record { index = j; inside = hj; entry = m; live = live; said = said })))
      settled slots (room none) a (free, spot) = absurd (
          idle (
            Live-before now _ _ (a.each i) (
              subst (λ j. Live now (at slots j))
                (probe_index-offset_of k (lock_hash key) small i hi)
                (spot (offset_of k (lock_hash key) small i)
                  (offset_of-lt k (lock_hash key) small i)))))
      settled slots (room (some index)) a (free, spot) =
          ap (λ (r : Outcome LockAcquire). r.0)
            (installed c publish key owner now expires index
              (after c publish key owner now expires k small p t v slots) v.bound h r q)
