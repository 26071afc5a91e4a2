-- ===== src/Lock/Table/Sound.antt =====
-- What every operation on a lock table keeps: the hash table's invariant, and that the lock counter
-- bounds every id that the table still holds.
use orbitive.Prelude.{
  ℕ, ◌^◌, ◌≤◌, ◌<◌, ◌≡◌, refl, ap, subst, List, length, set, u8_mod, u16_mod, arith, ok,
}
use orbitive.Lock.Types.{LockKey, LockOwner}
use orbitive.Lock.Table.Slot.{occupied, LockStateSlot, tombstone}
use orbitive.Lock.Table.Probe.{at}
use orbitive.Lock.Table.Ops.{
  LockStateStore, LockTable, lock_counter_max, validate_key, validate_entry,
}
use orbitive.Lock.Table.Invariant.{IsTable, Ages, Aged, Ages-occupied, Aged-IsTable}
use orbitive.Lock.Table.View.{by_slot}

-- The ranges of the machine types of a store's parameters.
pub record Configured (c : LockStateStore) : Type 0 where
  pub kind : c.state_kind < u8_mod
  pub node : c.node_id < u16_mod

pub record Sound (c : LockStateStore) (k : ℕ) (t : LockTable) : Type 0 where
  pub table : IsTable k t.slots
  pub words : (i : ℕ) → i < 2 ^ k → (at t.slots i).owner_len < u16_mod
  pub bound : t.next_lock ≤ lock_counter_max
  pub issued :
      (i : ℕ)
      → i < 2 ^ k
      → (at t.slots i).state ≡ occupied
      → c.ids.counter (at t.slots i).lock_id ≤ t.next_lock

owner_len-tombstone : (s : LockStateSlot) → (tombstone s).owner_len ≡ s.owner_len
unfolding tombstone
owner_len-tombstone s = refl

owner_len-aged : (now : ℕ) (s s' : LockStateSlot) → Ages now s s' → s'.owner_len ≡ s.owner_len
unfolding tombstone
owner_len-aged now s s' a = ground arith

module _ (c : LockStateStore) (k : ℕ) (t : LockTable) (v : Sound c k t) where
  -- Time, and a number that was minted and not used, keep a table sound.
  pub Sound-Aged :
      (now counter revision : ℕ) (slots' : List LockStateSlot)
      → Aged now t.slots slots'
      → t.next_lock ≤ counter
      → counter ≤ lock_counter_max
      → Sound c k (record { next_lock = counter; next_revision = revision; slots = slots' })
  Sound-Aged now counter revision slots' a h b = record {
    table = Aged-IsTable k now t.slots slots' a v.table;
    words =
        λ i hi. let w = v.words i hi in let q = owner_len-aged now _ _ (a.each i) in omega arith;
    bound = b;
    issued = λ i hi o.
        let same = Ages-occupied now _ _ (a.each i) o in
        let before = v.issued i hi (subst (λ (s : LockStateSlot). s.state ≡ occupied) same o) in
        let at_i = ap (λ (s : LockStateSlot). c.ids.counter s.lock_id) same in omega arith;
  }

  -- So does a write that keeps the hash table, of an id that was issued.
  pub Sound-set :
      (i : ℕ) (s : LockStateSlot)
      → i < 2 ^ k
      → IsTable k (set t.slots i s)
      → s.owner_len < u16_mod
      → c.ids.counter s.lock_id ≤ t.next_lock
      → Sound c k (record t { slots = set t.slots i s })
  Sound-set i s h w o n = record {
    table = w;
    words =
        by_slot k t.slots v.table i h s (λ j u. j < 2 ^ k → u.owner_len < u16_mod) (λ _. o)
          (λ j _. v.words j);
    bound = v.bound;
    issued =
        by_slot k t.slots v.table i h s
          (λ j u. j < 2 ^ k → u.state ≡ occupied → c.ids.counter u.lock_id ≤ t.next_lock) (λ _ _. n)
          (λ j _. v.issued j);
  }

-- The lengths that validation lets through.
pub validate_key-lengths :
    (c : LockStateStore) (key : LockKey)
    → validate_key c key ≡ ok tt
    → (length key.namespace < u16_mod) × (length key.label < u16_mod)
unfolding validate_key
validate_key-lengths c key h = ground arith

pub validate_entry-key :
    (c : LockStateStore) (key : LockKey) (owner : LockOwner)
    → validate_entry c key owner ≡ ok tt
    → validate_key c key ≡ ok tt
unfolding validate_entry
validate_entry-key c key owner h = ground arith

pub validate_entry-lengths :
    (c : LockStateStore) (key : LockKey) (owner : LockOwner)
    → validate_entry c key owner ≡ ok tt
    → (length key.namespace < u16_mod) × (length key.label < u16_mod) × (length owner < u16_mod)
unfolding validate_entry
validate_entry-lengths c key owner h =
    let lengths = validate_key-lengths c key (validate_entry-key c key owner h) in ground arith
