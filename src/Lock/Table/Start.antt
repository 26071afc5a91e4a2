-- ===== src/Lock/Table/Start.antt =====
-- A new table, and `reset`: sound, with every key free.
use orbitive.Prelude.{
  ℕ, zero, suc, ◌^◌, ◌≤◌, ◌<◌, ◌≡◌, refl, sym, ap, subst, ◌∙◌, List, [], ◌∷◌, length, map, get_or,
  replicate, length-replicate, u16_mod, arith,
}
use orbitive.Lock.Types.{LockKey}
use orbitive.Lock.Table.Slot.{empty, occupied, LockStateSlot, empty_slot, clear}
use orbitive.Lock.Table.Probe.{at}
use orbitive.Lock.Table.Ops.{LockStateStore, LockTable, reset}
use orbitive.Lock.Table.Sequence.{probe_index-lt}
use orbitive.Lock.Table.Sound.{Sound}
use orbitive.Lock.Table.Lookup.{Free}

-- `MemoryTable::new`, for a capacity and a payload size.
unfoldable pub new_table : (capacity payload_max : ℕ) → LockTable
new_table capacity payload_max = record {
  next_lock = 0;
  next_revision = 0;
  slots = replicate capacity (empty_slot payload_max);
}

module _ (c : LockStateStore) (k revision : ℕ) (slots : List LockStateSlot)
    (size : length slots ≡ 2 ^ k) (blank : (i : ℕ) → i < 2 ^ k → (at slots i).state ≡ empty)
    (words : (i : ℕ) → i < 2 ^ k → (at slots i).owner_len < u16_mod) where
  unused : (i : ℕ) → i < 2 ^ k → ¬ ((at slots i).state ≡ occupied)
  unused i h o = let e = blank i h in cc

  blank-Sound :
      k ≤ 64 → Sound c k (record { next_lock = 0; next_revision = revision; slots = slots })
  blank-Sound small = record {
    table = record {
      size = size;
      hashed = λ i h o. absurd (unused i h o);
      distinct = λ i j h _ o. absurd (unused i h o);
      chained = λ d e _ _ hash o. absurd (unused _ (probe_index-lt k hash small d) o);
    };
    words = words;
    bound = omega arith;
    issued = λ i h o. absurd (unused i h o);
  }

  blank-Free : (key : LockKey) → Free k slots key
  blank-Free key i h m = unused i h m.busy

get_or-replicate_lt : (n i : ℕ) (a d : LockStateSlot) → i < n → get_or (replicate n a) i d ≡ a
get_or-replicate_lt zero i a d h = absurd (omega arith)
get_or-replicate_lt (suc n) zero a d h = refl
get_or-replicate_lt (suc n) (suc i) a d h = get_or-replicate_lt n i a d (omega arith)

get_or-clear :
    (slots : List LockStateSlot) (i : ℕ)
    → i < length slots
    → at (map clear slots) i ≡ clear (at slots i)
get_or-clear [] i h = absurd (omega arith)
get_or-clear (s ∷ slots) zero h = refl
get_or-clear (s ∷ slots) (suc i) h = get_or-clear slots i (omega arith)

length-clear : (slots : List LockStateSlot) → length (map clear slots) ≡ length slots
length-clear [] = refl
length-clear (s ∷ slots) = ap suc (length-clear slots)

-- A table with room for `2 ^ k` leases starts sound, with every key free.
pub new_table-Sound :
    (c : LockStateStore) (k payload_max : ℕ)
    → k ≤ 64
    → Sound c k (new_table (2 ^ k) payload_max)
      × ((key : LockKey) → Free k (new_table (2 ^ k) payload_max).slots key)
unfolding new_table
new_table-Sound c k payload_max small =
    (blank-Sound c k 0 slots size blank words small, blank-Free c k 0 slots size blank words)
  where
    slots : List LockStateSlot
    slots = replicate (2 ^ k) (empty_slot payload_max)

    size : length slots ≡ 2 ^ k
    size = length-replicate (2 ^ k) (empty_slot payload_max)

    blank : (i : ℕ) → i < 2 ^ k → (at slots i).state ≡ empty
    blank i h =
        ap (λ (s : LockStateSlot). s.state)
          (get_or-replicate_lt (2 ^ k) i (empty_slot payload_max) _ h)

    words : (i : ℕ) → i < 2 ^ k → (at slots i).owner_len < u16_mod
    words i h =
        let e : (at slots i).owner_len ≡ 0 =
          ap (λ (s : LockStateSlot). s.owner_len)
            (get_or-replicate_lt (2 ^ k) i (empty_slot payload_max) _ h) in
        omega arith

-- `reset` leaves a sound table sound, and frees every key.
pub reset-Sound :
    (c : LockStateStore) (k : ℕ) (t : LockTable)
    → k ≤ 64
    → Sound c k t
    → Sound c k (reset t) × ((key : LockKey) → Free k (reset t).slots key)
unfolding reset clear
reset-Sound c k t small v =
    (blank-Sound c k 0 slots size blank words small, blank-Free c k 0 slots size blank words)
  where
    slots : List LockStateSlot
    slots = map clear t.slots

    size : length slots ≡ 2 ^ k
    size = length-clear t.slots ∙ v.table.size

    cleared : (i : ℕ) → i < 2 ^ k → at slots i ≡ clear (at t.slots i)
    cleared i h = get_or-clear t.slots i (subst (λ n. i < n) (sym v.table.size) h)

    blank : (i : ℕ) → i < 2 ^ k → (at slots i).state ≡ empty
    blank i h = ap (λ (s : LockStateSlot). s.state) (cleared i h)

    words : (i : ℕ) → i < 2 ^ k → (at slots i).owner_len < u16_mod
    words i h =
        let e = ap (λ (s : LockStateSlot). s.owner_len) (cleared i h) in
        let w = v.words i h in omega arith
