-- ===== src/Lock/Table/Writing.antt =====
-- Writing a lease to a slot: to one that the scan of `acquire` chose, or over the key's own entry.
use orbitive.Prelude.{
  ℕ, ◌^◌, ◌≤◌, ◌<◌, ◌≡◌, ◌≢◌, ◌↔◌, inl, inr, sym, ap, subst, ◌∙◌, true, List, set, u16_mod, arith,
}
use orbitive.Lock.Types.{LockKey, LockLease}
use orbitive.Lock.Table.Slot.{empty, occupied, LockStateSlot, matches, lease, write}
use orbitive.Lock.Table.Slot.Layout.{Fits, lease-write, write-fields}
use orbitive.Lock.Table.Probe.{lock_hash, probe_index, at}
use orbitive.Lock.Table.Sequence.{probe_index-injective}
use orbitive.Lock.Table.Invariant.{Matches, matches_iff, IsTable}
use orbitive.Lock.Table.Lookup.{Free}
use orbitive.Lock.Table.View.{Holds, Open, Holds-set_self, Holds-set_other, set-IsTable}

pub write-owner_len :
    (s : LockStateSlot) (hash : ℕ) (l : LockLease) → (write s hash l).owner_len < u16_mod
unfolding write
write-owner_len s hash l = omega arith

-- What one write of a lease does, with a table left sound.
pub record Writes (k : ℕ) (slots slots' : List LockStateSlot) (l : LockLease) : Type 0 where
  pub kept : IsTable k slots'
  pub granted : (later : ℕ) → later < l.expires_at_ms → Holds k later slots' l.key l
  pub others :
      (other : LockKey)
      → other ≢ l.key
      → (later : ℕ) (l' : LockLease) → Holds k later slots' other l' ↔ Holds k later slots other l'

module _ (k : ℕ) (slots : List LockStateSlot) (v : IsTable k slots) (i : ℕ) (inside : i < 2 ^ k)
    (l : LockLease) (fits : Fits l) (hash : ℕ) (hash_eq : hash ≡ lock_hash l.key) where
  abbrev s : LockStateSlot
  s = write (at slots i) hash l

  matched : Matches s (lock_hash l.key) l.key
  matched = (matches_iff _ _ _).0 (
      subst (λ h. matches (write (at slots i) hash l) h l.key ≡ true) hash_eq
        (lease-write (at slots i) hash l fits).1)

  expires : s.expires_at_ms ≡ l.expires_at_ms
  expires = (write-fields (at slots i) hash l).5

  leased : lease s ≡ l
  leased = (lease-write (at slots i) hash l fits).0

  write-Writes :
      Open l.key (at slots i) → IsTable k (set slots i s) → Writes k slots (set slots i s) l
  write-Writes o w = record {
    kept = w;
    granted = λ later h. subst (Holds k later (set slots i s) l.key) leased (
        Holds-set_self k slots v i inside s l.key later matched
          (subst (λ n. later < n) (sym expires) h));
    others = λ other n later l'.
        Holds-set_other k slots v i inside s l.key other later l' o (inr matched.key_eq) n;
  }

  -- The key stands nowhere, and a lookup reaches the slot.
  pub write-new :
      Free k slots l.key
      → (e : ℕ) → e < 2 ^ k
      → i ≡ probe_index (lock_hash l.key) e (2 ^ k)
      → k ≤ 64
      → (at slots i).state ≢ occupied
      → ((f : ℕ) → f < e → (at slots (probe_index (lock_hash l.key) f (2 ^ k))).state ≢ empty)
      → Writes k slots (set slots i s) l
  write-new free e he q small unused reached = write-Writes (inl unused) (
      set-IsTable k slots v i inside s matched.busy
        (matched.hash_eq ∙ ap lock_hash (sym matched.key_eq))
        (λ j hj _ o same.
          let m = same ∙ matched.key_eq in
          free j hj (record { busy = o; hash_eq = v.hashed j hj o ∙ ap lock_hash m; key_eq = m }))
        (λ d f hf hd p.
          let along = ap (λ h. probe_index h d (2 ^ k)) (sym matched.hash_eq) ∙ p ∙ q in
          let d_eq = probe_index-injective k (lock_hash l.key) small d e hd he along in
          subst (λ h. (at slots (probe_index h f (2 ^ k))).state ≢ empty) (sym matched.hash_eq)
            (reached f (omega arith))))

  -- The key stands at the slot already.
  pub write-over : Matches (at slots i) (lock_hash l.key) l.key → Writes k slots (set slots i s) l
  write-over m = write-Writes (inr m.key_eq) (
      set-IsTable k slots v i inside s matched.busy
        (matched.hash_eq ∙ ap lock_hash (sym matched.key_eq))
        (λ j hj n o same.
          n (v.distinct i j inside hj m.busy o (m.key_eq ∙ sym (same ∙ matched.key_eq))))
        (λ d f hf hd p.
          subst (λ h. (at slots (probe_index h f (2 ^ k))).state ≢ empty) (sym matched.hash_eq)
            (v.chained d f hf hd (lock_hash l.key)
              (subst (λ j. (at slots j).state ≡ occupied) (sym (along d p)) m.busy)
              (subst (λ j. (at slots j).key_hash ≡ lock_hash l.key) (sym (along d p)) m.hash_eq))))
    where
      along :
          (d : ℕ)
          → probe_index s.key_hash d (2 ^ k) ≡ i
          → probe_index (lock_hash l.key) d (2 ^ k) ≡ i
      along d p = ap (λ h. probe_index h d (2 ^ k)) (sym matched.hash_eq) ∙ p
