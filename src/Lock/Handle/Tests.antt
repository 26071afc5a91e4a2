-- ===== src/Lock/Handle/Tests.antt =====
-- A grant through the handle, and the theorems applied to it.
use orbitive.Prelude.{ℕ, ◌+◌, ◌/◌, ◌<◌, ◌≡◌, ◌↔◌, refl, [], ◌∷◌, some, max, bytes_eq, ok, arith}
use orbitive.NetId.Packed.{packed}
use orbitive.Lock.Types.{
  LockKey, LockOwner, LockLease, LockAcquire, deadline, transition_key, transition_owner,
  transition_lock_id, transition_revision,
}
use orbitive.Lock.Protocol.{encode}
use orbitive.Lock.Table.Slot.{write, matches, namespace_bytes, key_bytes}
use orbitive.Lock.Table.Probe.{lock_hash, scan, arm, probe_index}
use orbitive.Lock.Table.Ops.{LockTable, acquire, validate_entry, validate_key}
use orbitive.Lock.Table.View.{Holds}
use orbitive.Lock.Table.Sound.{Configured, Sound}
use orbitive.Lock.Table.Start.{new_table, new_table-Sound}
use orbitive.Lock.Table.Install.{minted}
use orbitive.Lock.Handle.{Lock, publish, announced, try_acquire, restore}
use orbitive.Lock.Handle.Tenure.{try_acquire_lasts, restore_iff}

abbrev lock : Lock
lock = record {
  state = record { ids = packed; payload_max = 16; state_kind = 7; node_id = 3 };
  payload_capacity = 64;
  announce = λ kind ver payload. ok 9;
  monotonic_ms = ok 10;
}

abbrev door : LockKey
door = record { namespace = 104 ∷ []; label = 1 ∷ 2 ∷ [] }

abbrev alice : LockOwner
alice = 65 ∷ []

abbrev start : LockTable
start = new_table 2 16

abbrev first : LockLease
first = minted lock.state (announced lock) door alice 10 20 start

abbrev taken : LockTable
taken = (try_acquire lock door alice 10000000 start).1

lock-Configured : Configured lock.state
lock-Configured = record { kind = omega arith; node = omega arith }

start-Sound : Sound lock.state 1 start
start-Sound = (new_table-Sound lock.state 1 16 (omega arith)).0

granted : try_acquire lock door alice 10000000 start ≡ (ok (LockAcquire.acquired first), taken)
unfolding try_acquire deadline publish encode acquire validate_entry scan arm probe_index lock_hash
    write matches bytes_eq namespace_bytes key_bytes new_table transition_key transition_owner
    transition_lock_id transition_revision
granted = refl

try_acquire_lasts_example :
    (first.owner ≡ alice)
    × ((later : ℕ)
        → later < 10 + max (10000000 / 1_000_000) 1
        → Holds 1 later taken.slots door first)
try_acquire_lasts_example =
    try_acquire_lasts lock 1 (omega arith) lock-Configured start start-Sound door alice 10 refl
      10000000 first taken granted

door_valid : validate_key lock.state door ≡ ok tt
unfolding validate_key
door_valid = refl

restore_iff_example :
    ((restore lock door alice start).0 ≡ ok (some first))
    ↔ (Holds 1 10 start.slots door first × (first.owner ≡ alice))
restore_iff_example =
    restore_iff lock 1 (omega arith) lock-Configured start start-Sound door alice 10 refl first
      door_valid
