-- ===== src/Lock/Table/Probe.antt =====
-- lock/src/state.rs: the probe sequence of a key, `find_slot`, and the scan of `acquire`.
use orbitive.Prelude.{
  ℕ, zero, suc, ◌+◌, ◌-◌, ◌*◌, ◌%◌, List, [], ◌∷◌, ◌++◌, Option, none, some, length, get_or, set,
  leb, if◌then◌else◌, bit_and, bit_xor, u64_mod,
}
use orbitive.Lock.Types.{LockKey, LockLease}
use orbitive.Lock.Table.Slot.{
  empty, occupied, tombstoned, LockStateSlot, empty_slot, matches, lease, tombstone,
}

abbrev fnv_offset_basis : ℕ
fnv_offset_basis = 0xcbf29ce484222325

abbrev fnv_prime : ℕ
fnv_prime = 0x100000001b3

-- `hash ^= byte; hash = hash.wrapping_mul(FNV_PRIME)` for each byte.
fnv : ℕ → List ℕ → ℕ
fnv hash [] = hash
fnv hash (b ∷ bs) = fnv (bit_xor hash b * fnv_prime % u64_mod) bs

unfoldable pub lock_hash : LockKey → ℕ
unfolding fnv
lock_hash key = fnv fnv_offset_basis (key.namespace ++ key.label)

-- `usize` has 64 bits.
unfoldable pub probe_index : (hash offset capacity : ℕ) → ℕ
probe_index hash offset capacity = bit_and ((hash + offset) % u64_mod) (capacity - 1)

-- `slots[index]`; an index out of range panics in the source, and `probe_index` is never one.
abbrev pub at : List LockStateSlot → ℕ → LockStateSlot
at slots i = get_or slots i (empty_slot 0)

-- `find_slot`: `rounds` counts down `0..slots.len()` while `offset` counts up.
unfoldable pub find_from : List LockStateSlot → ℕ → LockKey → (rounds offset : ℕ) → Option ℕ
find_from slots hash key zero offset = none
find_from slots hash key (suc rounds) offset =
    let index = probe_index hash offset (length slots) in
    let rest = find_from slots hash key rounds (suc offset) in
    elim ((at slots index).state) [
      | empty ↦ none
      | occupied ↦ if matches (at slots index) hash key then some index else rest
      | tombstoned ↦ rest
    ]

unfoldable pub find_slot : List LockStateSlot → ℕ → LockKey → Option ℕ
unfolding find_from
find_slot slots hash key = find_from slots hash key (length slots) 0

-- The arms of the `match` in `acquire`.
pub data Arm : Type 0 where
  vacant reusable lapsed found passed : Arm

unfoldable pub arm : LockStateSlot → ℕ → LockKey → (now_ms : ℕ) → Arm
arm s hash key now_ms = elim s.state [
  | empty ↦ vacant
  | tombstoned ↦ reusable
  | occupied ↦
      if leb s.expires_at_ms now_ms then lapsed else if matches s hash key then found else passed
]

-- `insertion.get_or_insert(index)`
abbrev pub get_or_insert : Option ℕ → ℕ → Option ℕ
get_or_insert none i = some i
get_or_insert (some j) i = some j

-- How the loop of `acquire` ends: at a live entry of the key, or with where to insert.
pub data Scan : Type 0 where
  holder : LockLease → Scan
  room : Option ℕ → Scan

unfoldable pub scan :
    LockKey
    → (hash now_ms rounds offset : ℕ) → List LockStateSlot
    → Option ℕ
    → List LockStateSlot × Scan
scan key hash now_ms zero offset slots insertion = (slots, room insertion)
scan key hash now_ms (suc rounds) offset slots insertion =
    let index = probe_index hash offset (length slots) in
    elim (arm (at slots index) hash key now_ms) [
      | vacant ↦ (slots, room (get_or_insert insertion index))
      | reusable ↦ scan key hash now_ms rounds (suc offset) slots (get_or_insert insertion index)
      | lapsed ↦
          scan key hash now_ms rounds (suc offset) (set slots index (tombstone (at slots index)))
            (get_or_insert insertion index)
      | found ↦ (slots, holder (lease (at slots index)))
      | passed ↦ scan key hash now_ms rounds (suc offset) slots insertion
    ]
