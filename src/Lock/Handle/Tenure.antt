-- ===== src/Lock/Handle/Tenure.antt =====
-- What a caller of a `Lock` can count on.
use orbitive.Prelude.{
  ℕ, ◌+◌, ◌/◌, ◌<◌, ◌≤◌, ◌≡◌, ◌↔◌, sym, ap, subst, ◌∙◌, true, max, Option, none, some, bytes_eq,
  bytes_eq_iff, ok, err, Result-cases, inl, inr, arith,
}
use orbitive.Lock.Types.{LockKey, LockOwner, LockLease, LockAcquire, deadline}
use orbitive.Lock.Deadline.{deadline_iff}
use orbitive.Lock.Table.Ops.{LockTable, Outcome, ◌&>◌, validate_key, acquire, current}
use orbitive.Lock.Table.View.{Holds}
use orbitive.Lock.Table.Sound.{Configured, Sound}
use orbitive.Lock.Table.Lookup.{current_iff}
use orbitive.Lock.Table.Acquire.{Acquires, acquire-Acquires}
use orbitive.Lock.Handle.{Lock, announced, try_acquire, current_now, owned_by, restore}

module _ (lock : Lock) (k : ℕ) (small : k ≤ 64) (p : Configured lock.state) (t : LockTable)
    (v : Sound lock.state k t) (key : LockKey) (owner : LockOwner) (now : ℕ)
    (clock : lock.monotonic_ms ≡ ok now) where
  granted :
      (ttl_nanos : ℕ) (l : LockLease) (t' : LockTable)
      → try_acquire lock key owner ttl_nanos t ≡ (ok (LockAcquire.acquired l), t')
      → (expires : ℕ) × (deadline now ttl_nanos ≡ ok expires)
        × (acquire lock.state (announced lock) key owner now expires t
            ≡ (ok (LockAcquire.acquired l), t'))
  unfolding try_acquire
  granted ttl_nanos l t' e = elim (Result-cases (deadline now ttl_nanos)) [
    | inl (expires, d) ↦ (expires, d, ground arith)
    | inr (x, d) ↦ absurd (ground arith)
  ]

  -- A lease that `try_acquire` grants is its caller's for the whole time to live from the clock's
  -- reading, in whole milliseconds and one at least, in the table that it leaves.
  pub try_acquire_lasts :
      (ttl_nanos : ℕ) (l : LockLease) (t' : LockTable)
      → try_acquire lock key owner ttl_nanos t ≡ (ok (LockAcquire.acquired l), t')
      → (l.owner ≡ owner)
        × ((later : ℕ) → later < now + max (ttl_nanos / 1_000_000) 1 → Holds k later t'.slots key l)
  try_acquire_lasts ttl_nanos l t' e =
      let (expires, d, a) = granted ttl_nanos l t' e in
      let span = (deadline_iff now ttl_nanos expires).0 d in
      let grant =
        (subst (Acquires lock.state (announced lock) key owner now expires k t) a
          (acquire-Acquires lock.state (announced lock) key owner now expires k small p t v)).1 in
      (
        ap (λ (x : LockLease). x.owner) grant.lease_eq,
        λ later h. grant.granted later (subst (λ n. later < n) (sym span.1) h),
      )

  filtered :
      (r : Outcome (Option LockLease)) (l : LockLease)
      → ((r &> λ found u. (ok (owned_by owner found), u)).0 ≡ ok (some l))
        ↔ ((r.0 ≡ ok (some l)) × (bytes_eq l.owner owner ≡ true))
  filtered (ok none, u) l = (λ h. cc, λ h. ground arith)
  filtered (ok (some x), u) l = (λ h. (ground arith, ground arith), λ h. ground arith)
  filtered (err x, u) l = (λ h. cc, λ h. ground arith)

  restore-eq :
      restore lock key owner t
      ≡ (current lock.state key now t &> λ found u. (ok (owned_by owner found), u))
  unfolding restore current_now
  restore-eq = ground arith

  -- For a valid key, `restore` gives back a lease exactly if the key holds it at the clock's reading
  -- and its owner is the caller.
  pub restore_iff :
      (l : LockLease)
      → validate_key lock.state key ≡ ok tt
      → ((restore lock key owner t).0 ≡ ok (some l))
        ↔ (Holds k now t.slots key l × (l.owner ≡ owner))
  restore_iff l valid =
      let (to, from) = filtered (current lock.state key now t) l in
      let (held, answered) = current_iff k small key now t v.table lock.state l valid in
      let (same, differs) = bytes_eq_iff l.owner owner in
      let e = ap (λ (r : Outcome (Option LockLease)). r.0) restore-eq in
      (
        λ h. let x = to (sym e ∙ h) in (held x.0, same x.1),
        λ h. e ∙ from (answered h.0, differs h.1),
      )
