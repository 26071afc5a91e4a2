-- ===== src/Lock/Table/Arms.antt =====
-- The scan of `acquire`, one round at a time, and what each arm says of its slot.
use orbitive.Prelude.{ℕ, suc, ◌≤◌, ◌<◌, ◌≡◌, true, false, List, Option, length, set, arith}
use orbitive.Lock.Types.{LockKey}
use orbitive.Lock.Table.Slot.{empty, occupied, tombstoned, LockStateSlot, matches, lease, tombstone}
use orbitive.Lock.Table.Probe.{
  probe_index, at, Arm, vacant, reusable, lapsed, found, passed, arm, get_or_insert, holder, room,
  scan,
}

module _ (key : LockKey) (hash now rounds offset : ℕ) (slots : List LockStateSlot) (ins : Option ℕ)
    (i : ℕ) (e : probe_index hash offset (length slots) ≡ i) where
  pub scan-vacant :
      arm (at slots i) hash key now ≡ vacant
      → scan key hash now (suc rounds) offset slots ins ≡ (slots, room (get_or_insert ins i))
  unfolding scan
  scan-vacant a = ground arith

  pub scan-reusable :
      arm (at slots i) hash key now ≡ reusable
      → scan key hash now (suc rounds) offset slots ins
        ≡ scan key hash now rounds (suc offset) slots (get_or_insert ins i)
  unfolding scan
  scan-reusable a = ground arith

  pub scan-lapsed :
      arm (at slots i) hash key now ≡ lapsed
      → scan key hash now (suc rounds) offset slots ins
        ≡ scan key hash now rounds
            (suc offset)
            (set slots i (tombstone (at slots i)))
            (get_or_insert ins i)
  unfolding scan
  scan-lapsed a = ground arith

  pub scan-found :
      arm (at slots i) hash key now ≡ found
      → scan key hash now (suc rounds) offset slots ins ≡ (slots, holder (lease (at slots i)))
  unfolding scan
  scan-found a = ground arith

  pub scan-passed :
      arm (at slots i) hash key now ≡ passed
      → scan key hash now (suc rounds) offset slots ins
        ≡ scan key hash now rounds (suc offset) slots ins
  unfolding scan
  scan-passed a = ground arith

-- What each arm says of its slot.
abbrev pub Says : ℕ → LockKey → ℕ → LockStateSlot → Arm → Type 0
Says hash key now s vacant = s.state ≡ empty
Says hash key now s reusable = s.state ≡ tombstoned
Says hash key now s lapsed = (s.state ≡ occupied) × (s.expires_at_ms ≤ now)
Says hash key now s found =
    (s.state ≡ occupied) × (now < s.expires_at_ms) × (matches s hash key ≡ true)
Says hash key now s passed =
    (s.state ≡ occupied) × (now < s.expires_at_ms) × (matches s hash key ≡ false)

pub arm-Says :
    (hash : ℕ) (key : LockKey) (now : ℕ) (s : LockStateSlot) (a : Arm)
    → arm s hash key now ≡ a
    → Says hash key now s a
unfolding arm
arm-Says hash key now s vacant e = ground arith
arm-Says hash key now s reusable e = ground arith
arm-Says hash key now s lapsed e = ground arith
arm-Says hash key now s found e = ground arith
arm-Says hash key now s passed e = ground arith
