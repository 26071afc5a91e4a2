-- ===== src/Lock/Fencing.antt =====
-- Locks and fences together: a new tenure's token fences off every tenure before it.
use orbitive.Prelude.{
  ℕ, suc, ◌≤◌, ◌<◌, ◌≡◌, ap, subst, ◌∙◌, true, false, List, [], ◌∷◌, ◌++◌, Bool-cases, inl, inr, ok,
  arith,
}
use orbitive.Lock.Types.{LockKey, LockOwner, LockLease, LockAcquire, fencing_token}
use orbitive.Lock.Fence.{admit, admit_all, with_high_water, AtMost, admit_iff}
use orbitive.Lock.Table.Slot.{lease}
use orbitive.Lock.Table.Ops.{LockStateStore, LockTable, Publish, acquire, lock_counter_max}
use orbitive.Lock.Table.View.{Holds}
use orbitive.Lock.Table.Sound.{Configured, Sound}
use orbitive.Lock.Table.Acquire.{Acquires, Grant, acquire-Acquires}

-- Every lease that a sound table holds has a token that was issued.
pub Holds-issued :
    (c : LockStateStore) (k now : ℕ) (t : LockTable) (key : LockKey) (l : LockLease)
    → Sound c k t
    → Holds k now t.slots key l
    → fencing_token c.ids l ≤ t.next_lock
unfolding lease
Holds-issued c k now t key l v h =
    subst (λ l. fencing_token c.ids l ≤ t.next_lock) h.said (v.issued h.index h.inside h.entry.busy)

AtMost-append :
    (token : ℕ) (seen : List ℕ) (new : ℕ) (more : List ℕ)
    → AtMost token (seen ++ (new ∷ more))
    → new ≤ token
AtMost-append token [] new more h = h.0
AtMost-append token (x ∷ seen) new more h = AtMost-append token seen new more h.1

AtMost-trans : (a b : ℕ) (ts : List ℕ) → a ≤ b → AtMost a ts → AtMost b ts
AtMost-trans a b [] h x = tt
AtMost-trans a b (t ∷ ts) h x = let y = x.0 in (omega arith, AtMost-trans a b ts h x.1)

-- A token that the fence has seen exceeded is refused, whatever it saw before and since.
refused :
    (mark old new : ℕ) (seen more : List ℕ)
    → old < new
    → (admit (admit_all (with_high_water mark) (seen ++ (new ∷ more))) old).1 ≡ false
refused mark old new seen more h =
    elim (Bool-cases (admit (admit_all (with_high_water mark) (seen ++ (new ∷ more))) old).1) [
      | inl e ↦
          let above =
            AtMost-append old seen new more ((admit_iff mark old (seen ++ (new ∷ more))).0 e).1 in
          absurd (omega arith)
      | inr e ↦ e
    ]

module _ (c : LockStateStore) (publish : Publish) (key : LockKey) (owner : LockOwner)
    (now expires k : ℕ) (small : k ≤ 64) (p : Configured c) (t t' : LockTable) (v : Sound c k t)
    (l : LockLease)
    (acquired : acquire c publish key owner now expires t ≡ (ok (LockAcquire.acquired l), t')) where
  grant : Grant c publish key owner now expires k t l t'
  grant =
      (subst (Acquires c publish key owner now expires k t) acquired
        (acquire-Acquires c publish key owner now expires k small p t v)).1

  token : fencing_token c.ids l ≡ suc t.next_lock
  token =
      let b = grant_bound in
      ap (fencing_token c.ids) grant.lease_eq
      ∙ c.ids.counter-make c.state_kind c.node_id (suc t.next_lock) p.kind p.node (omega arith)
    where
      grant_bound : suc t.next_lock ≤ lock_counter_max
      grant_bound =
          let s =
            (subst (Acquires c publish key owner now expires k t) acquired
              (acquire-Acquires c publish key owner now expires k small p t v)).0 in
          let b = s.bound in let n = grant.counted in omega arith

  -- When `acquire` grants a lease, a fence on the resource that has seen only issued tokens admits
  -- its holder; and once it has, it refuses every token issued before, whatever it sees in between.
  pub acquire_fences :
      (mark : ℕ) (seen more : List ℕ) (old : ℕ)
      → mark ≤ t.next_lock
      → AtMost t.next_lock seen
      → old ≤ t.next_lock
      → ((admit (admit_all (with_high_water mark) seen) (fencing_token c.ids l)).1 ≡ true)
        × ((admit (admit_all (with_high_water mark) (seen ++ (fencing_token c.ids l ∷ more))) old).1
            ≡ false)
  acquire_fences mark seen more old hm hs ho =
      let n = token in
      (
        (admit_iff mark (fencing_token c.ids l) seen).1
            (omega arith, AtMost-trans t.next_lock (fencing_token c.ids l) seen (omega arith) hs),
        refused mark old (fencing_token c.ids l) seen more (omega arith),
      )
