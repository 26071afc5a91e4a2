-- ===== src/Quota/Memory/Build.antt =====
-- quota/src/memory.rs: the construction of a store.
use orbitive.Prelude.{
  ℕ, ◌/◌, not, Bool, false, none, replicate, checked_mul, u64_mod, Result, ok, ok_or, refuse_if,
  ◌>>=◌, ◌>>◌,
}
use orbitive.Quota.Contract.{
  Error, invalid_geometry, allocation_failed, unsupported_atomics, Geometry, Policy, Key,
}
use orbitive.Quota.Gcra.{new, prepare, scale, evaluate}
use orbitive.Quota.Retention.{Retention}
use orbitive.Quota.Memory.{Slot, Shard, Table, free}
use orbitive.Quota.Memory.Admit.{Shards}

abbrev pub new_slot : ℕ → Slot
new_slot key_bytes = record {
  gate = 0;
  identity = record {
    generation = 0;
    occupied = false;
    namespace_len = 0;
    subject_len = 0;
    bytes = replicate key_bytes 0;
  };
  tat = 0;
  last_seen = 0;
}

abbrev pub new_shard : Geometry → ℕ → Shard
new_shard geometry now = record {
  structure = free;
  watermark = now;
  slot_count = geometry.slots / geometry.shards;
  slots = λ i. new_slot geometry.key_bytes;
}

-- `MemoryQuota::with_retention`: whether the wide atomics are lock-free, the clock's reading, whether
-- the memory is there, and the keyed hash are the platform's. A mutex just made is not held.
unfoldable pub with_retention :
    (lock_free : Bool) (clock : Result Error ℕ) (allocated : Bool) (hash_one : ℕ → Key → ℕ)
    → Geometry
    → Policy
    → ℕ
    → Retention
    → Result Error (Table × Shards)
with_retention lock_free clock allocated hash_one geometry policy cas_budget retention = do
  refuse_if (not lock_free) unsupported_atomics
  algorithm ← new policy
  now ← clock
  prepared ← prepare algorithm policy.burst
  scaled ← scale algorithm now
  outcome ← evaluate prepared scaled none
  area ← ok_or (checked_mul u64_mod geometry.slots geometry.key_bytes) invalid_geometry
  refuse_if (not allocated) allocation_failed
  ok (
    record {
      retention = retention;
      geometry = geometry;
      cas_budget = cas_budget;
      algorithm = algorithm;
      hash_one = hash_one;
    },
    λ k. new_shard geometry now,
  )
