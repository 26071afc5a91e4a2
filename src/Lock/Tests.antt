-- ===== src/Lock/Tests.antt =====
-- Runs of the lock table on a table of two slots, and the theorems applied to them.
use orbitive.Prelude.{
  ℕ, ◌%◌, ◌^◌, ◌≤◌, ◌≡◌, ◌↔◌, refl, true, false, [], ◌∷◌, ◌++◌, Option, none, some, ok, err,
  bytes_eq, arith, subst, List,
}
use orbitive.NetId.Packed.{packed}
use orbitive.Lock.Types.{
  LockKey, LockOwner, LockLease, LockAcquire, LockTransition, fencing_token, released,
  transition_key, transition_owner, transition_lock_id, transition_revision,
}
use orbitive.Lock.Fence.{admit, admit_all, with_high_water, AtMost, admit_iff}
use orbitive.Ring.Frame.{Frame}
use orbitive.Lock.Protocol.{LockEvent, encode, decode}
use orbitive.Lock.Protocol.Roundtrip.{Proper, decode-encode}
use orbitive.Lock.Protocol.Canonical.{encode-decode}
use orbitive.Lock.Fencing.{acquire_fences}
use orbitive.Lock.Table.Slot.{empty_slot, write, lease, matches, namespace_bytes, key_bytes}
use orbitive.Lock.Table.Slot.Layout.{Fits, lease-write}
use orbitive.Lock.Table.Probe.{lock_hash, at, scan, arm, probe_index}
use orbitive.Lock.Table.Ops.{
  LockStateStore, LockTable, Publish, acquire, current, validate_entry, validate_key, renew_id,
  renew_owner, release_id, force_release, reset,
}
use orbitive.Lock.Table.View.{Holds}
use orbitive.Lock.Table.Walk.{Live}
use orbitive.Lock.Table.Sound.{Configured, Sound}
use orbitive.Lock.Table.Lookup.{Free, Free-unheld, current_iff}
use orbitive.Lock.Table.Install.{minted}
use orbitive.Lock.Table.Acquire.{Acquires, acquire-Acquires}
use orbitive.Lock.Table.Answers.{acquire_occupied, acquire_granted}
use orbitive.Lock.Table.Renew.{Renews}
use orbitive.Lock.Table.Release.{Releases}
use orbitive.Lock.Table.Holders.{
  by_id, by_owner, by_anyone, renew_id-Renews, renew_owner-Renews, release_id-Releases,
  force_release-Releases,
}
use orbitive.Lock.Table.Start.{new_table, new_table-Sound, reset-Sound}

abbrev store : LockStateStore
store = record { ids = packed; payload_max = 16; state_kind = 7; node_id = 3 }

store-Configured : Configured store
store-Configured = record { kind = omega arith; node = omega arith }

-- A ring that takes every event.
abbrev published : Publish
published transition = ok tt

abbrev door : LockKey
door = record { namespace = 104 ∷ []; label = 1 ∷ 2 ∷ [] }

abbrev window : LockKey
window = record { namespace = 104 ∷ []; label = 9 ∷ [] }

abbrev alice : LockOwner
alice = 65 ∷ []

abbrev start : LockTable
start = new_table 2 16

start-Sound : Sound store 1 start
start-Sound = (new_table-Sound store 1 16 (omega arith)).0

start-Free : (key : LockKey) → Free 1 start.slots key
start-Free = (new_table-Sound store 1 16 (omega arith)).1

-- Alice's lease of the door, from 10 to 20.
abbrev first : LockLease
first = minted store published door alice 10 20 start

abbrev taken : LockTable
taken = (acquire store published door alice 10 20 start).1

-- The door is granted to alice, and then held by her: to bob as well, until it lapses.
abbrev bob : LockOwner
bob = 66 ∷ []

answer : LockTable → LockKey → LockOwner → ℕ → ℕ → Option ℕ
answer t key owner now expires = elim ((acquire store published key owner now expires t).0) [
  | ok a ↦ elim a [
    | LockAcquire.acquired l ↦ some (l.lock_id % 2 ^ 40)
    | LockAcquire.occupied l ↦ some 0
  ]
  | err e ↦ none
]

run_taken :
    (answer start door alice 10 20 ≡ some 1)
    × (answer taken door bob 19 30 ≡ some 0)
    × (answer taken door bob 20 30 ≡ some 2)
    × (answer taken window bob 19 30 ≡ some 2)
unfolding acquire validate_entry scan arm probe_index lock_hash write matches bytes_eq
    namespace_bytes key_bytes answer new_table
run_taken = (refl, refl, refl, refl)

first-taken :
    acquire store published door alice 10 20 start ≡ (ok (LockAcquire.acquired first), taken)
unfolding acquire validate_entry scan arm probe_index lock_hash write matches bytes_eq
    namespace_bytes key_bytes new_table
first-taken = refl

door_valid : validate_entry store door alice ≡ ok tt
unfolding validate_entry
door_valid = refl

door_key_valid : validate_key store door ≡ ok tt
unfolding validate_key
door_key_valid = refl

small : 1 ≤ 64
small = omega arith

-- After the grant, by the theorem on `acquire`.
after_first :
    Acquires store published door alice 10 20 1 start (ok (LockAcquire.acquired first), taken)
after_first =
    subst (Acquires store published door alice 10 20 1 start) first-taken
      (acquire-Acquires store published door alice 10 20 1 small store-Configured start start-Sound)

taken-Sound : Sound store 1 taken
taken-Sound = after_first.0

taken-Holds : Holds 1 15 taken.slots door first
taken-Holds = after_first.1.granted 15 (omega arith)

acquire_fences_example :
    ((admit (admit_all (with_high_water 0) []) (fencing_token packed first)).1 ≡ true)
    × ((admit (admit_all (with_high_water 0) ([] ++ (fencing_token packed first ∷ []))) 0).1
        ≡ false)
acquire_fences_example =
    acquire_fences store published door alice 10 20 1 small store-Configured start taken start-Sound
      first first-taken 0 [] [] 0 (omega arith) tt (omega arith)

acquire-Acquires_example :
    Acquires store published door alice 10 20 1 start
      (acquire store published door alice 10 20 start)
acquire-Acquires_example =
    acquire-Acquires store published door alice 10 20 1 small store-Configured start start-Sound

idle_start : ¬ Live 10 (at start.slots 0)
unfolding new_table
idle_start l = let o = l.0 in cc

published_first : published (LockTransition.acquired first) ≡ ok tt
published_first = refl

acquire_granted_example :
    (acquire store published door alice 10 20 start).0 ≡ ok (LockAcquire.acquired first)
unfolding new_table
acquire_granted_example =
    acquire_granted store published door alice 10 20 1 small store-Configured start start-Sound 0
      (omega arith) idle_start door_valid
      (λ l. Free-unheld 1 10 start.slots door l (start-Free door)) (omega arith) (omega arith)
      published_first

acquire_occupied_example :
    (acquire store published door alice 15 30 taken).0 ≡ ok (LockAcquire.occupied first)
acquire_occupied_example =
    acquire_occupied store published door alice 15 30 1 small store-Configured taken taken-Sound
      first door_valid taken-Holds

current_iff_example :
    ((current store door 15 taken).0 ≡ ok (some first)) ↔ Holds 1 15 taken.slots door first
current_iff_example = current_iff 1 small door 15 taken taken-Sound.table store first door_key_valid

renew_id-Renews_example :
    Renews store published first.key 15 40 1
      (by_id first.lock_id)
      taken
      (renew_id store published first 15 40 taken)
renew_id-Renews_example =
    renew_id-Renews store published 15 1 small taken taken-Sound first door_valid 40

renew_owner-Renews_example :
    Renews store published door 15 40 1
      (by_owner alice)
      taken
      (renew_owner store published door alice 15 40 taken)
renew_owner-Renews_example =
    renew_owner-Renews store published 15 1 small taken taken-Sound door alice door_valid 40

release_id-Releases_example :
    Releases store published first.key 15 1
      (by_id first.lock_id)
      taken
      (release_id store published first 15 taken)
release_id-Releases_example =
    release_id-Releases store published 15 1 small taken taken-Sound first door_valid

force_release-Releases_example :
    Releases store published door 15 1 by_anyone taken (force_release store published door 15 taken)
force_release-Releases_example =
    force_release-Releases store published 15 1 small taken taken-Sound door door_key_valid

new_table-Sound_example :
    Sound store 1 (new_table (2 ^ 1) 16)
    × ((key : LockKey) → Free 1 (new_table (2 ^ 1) 16).slots key)
new_table-Sound_example = new_table-Sound store 1 16 small

reset-Sound_example :
    Sound store 1 (reset taken) × ((key : LockKey) → Free 1 (reset taken).slots key)
reset-Sound_example = reset-Sound store 1 taken small taken-Sound

first-Fits : Fits first
first-Fits = (omega arith, omega arith, omega arith)

lease-write_example :
    (lease (write (empty_slot 16) 5 first) ≡ first)
    × (matches (write (empty_slot 16) 5 first) 5 first.key ≡ true)
lease-write_example = lease-write (empty_slot 16) 5 first first-Fits

-- The fence has seen 4 and then 2; only tokens from 4 on pass.
admit_iff_example :
    ((admit (admit_all (with_high_water 1) (4 ∷ 2 ∷ [])) 3).1 ≡ true)
    ↔ ((1 ≤ 3) × AtMost 3 (4 ∷ 2 ∷ []))
admit_iff_example = admit_iff 1 3 (4 ∷ 2 ∷ [])

first-Proper : Proper (LockTransition.acquired first)
unfolding transition_key transition_owner transition_lock_id transition_revision new_table
first-Proper = record {
  namespace_pos = omega arith;
  namespace_fits = omega arith;
  label_pos = omega arith;
  label_fits = omega arith;
  owner_pos = omega arith;
  owner_fits = omega arith;
  id_word = omega arith;
  revision_pos = omega arith;
  spans = (omega arith, omega arith, omega arith);
}

decode-encode_example :
    (kind : ℕ) × (payload : List ℕ) × (encode 64 16 (LockTransition.acquired first)
      ≡ ok (kind, payload))
    × (decode 16 (record {
      id = 9;
      kind = kind;
      ver = transition_revision (LockTransition.acquired first);
      payload = payload;
    })
        ≡ some (record { event_id = 9; transition = LockTransition.acquired first }))
unfolding transition_key transition_owner
decode-encode_example =
    decode-encode 64 16 9 (LockTransition.acquired first) first-Proper (omega arith)

-- A release of lock 5 by owner 3, as it stands on the ring.
abbrev release_frame : Frame
release_frame = record {
  id = 9;
  kind = 3;
  ver = 4;
  payload =
      75 ∷ 67 ∷ 76 ∷ 79 ∷ 2 ∷ 1 ∷ 0 ∷ 1 ∷ 0 ∷ 1 ∷ 0 ∷ 5 ∷ 0 ∷ 0 ∷ 0 ∷ 0 ∷ 0 ∷ 0 ∷ 0 ∷ 0 ∷ 0 ∷ 0 ∷ 0
      ∷ 0 ∷ 0 ∷ 0 ∷ 0 ∷ 0 ∷ 0 ∷ 0 ∷ 0 ∷ 0 ∷ 0 ∷ 0 ∷ 0 ∷ 1 ∷ 2 ∷ 3 ∷ [];
}

abbrev release_event : LockEvent
release_event = record {
  event_id = 9;
  transition = released 5 (record { namespace = 1 ∷ []; label = 2 ∷ [] }) (3 ∷ []) 4;
}

release_decoded : decode 16 release_frame ≡ some release_event
unfolding decode
release_decoded = refl

encode-decode_example :
    (encode 64 16 release_event.transition ≡ ok (3, release_frame.payload))
    × (transition_revision release_event.transition ≡ 4)
    × (release_event.event_id ≡ 9)
encode-decode_example =
    encode-decode 64 16 release_frame release_event (omega arith) (omega arith) release_decoded
