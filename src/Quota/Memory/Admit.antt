-- ===== src/Quota/Memory/Admit.antt =====
-- quota/src/memory.rs: the installation of a key, and admission.
use orbitive.Prelude.{
  ℕ, zero, suc, ◌+◌, ◌/◌, ◌%◌, not, ◌&&◌, ◌||◌, Bool, true, false, Option, none, some, length, ltb,
  ◌==◌, if◌then◌else◌, checked_add, u64_mod, Result, ok, err,
}
use orbitive.Quota.Contract.{
  Error, busy, key_too_large, corrupt_state, capacity_full, Key, Decision, Admission,
}
use orbitive.Quota.Gcra.{
  Gcra, Prepared, Outcome, allowed, limited, Captured, prepare, evaluate, resolve,
}
use orbitive.Quota.Retention.{
  Retention, strict, guard, Observation, Candidate, new_selection, finish,
}
use orbitive.Quota.Gate.{reserve, publish, retire, abandon}
use orbitive.Quota.Memory.{
  Slot, Shard, Table, World, Machine, Done, Hold, free, held, poisoned, andthen, lift, set_slot,
  set_gate, on, renamed,
}
use orbitive.Quota.Memory.Window.{find, survey, Survey, here, choice, is_guard}
use orbitive.Quota.Memory.Words.{sample, consume, decision_of}

-- Whether an occupied slot has been used since it was chosen, or still owes under `Strict`.
unfoldable pub in_use : Retention → Option Observation → Slot → ℕ → ℕ → Bool
in_use guard (some seen) s previous now =
    not (previous == seen.tat) || not (s.last_seen == seen.seen)
in_use guard none s previous now = ltb now previous
in_use strict observed s previous now = ltb now previous

-- `Drop for Writer` of one that has not written.
abbrev pub cancelled : {A : Type 0} → ℕ → Done A → Done A
cancelled i (m, err e) = (on (set_gate i (abandon false)) m, err e)
cancelled i (m, ok a) = (m, ok a)

-- The checks of `MemoryQuota::install` under the writer, up to the new generation.
unfoldable pub inspect : World → Table → ℕ → Candidate → ℕ → Machine → Done ℕ
inspect w t i c budget m =
    if not ((m.shard.slots i).identity.generation == c.generation)
    then (m, err busy)
    else andthen (sample w t.algorithm budget m) (λ now left n.
      if (n.shard.slots i).identity.occupied
        && in_use t.retention c.observed (n.shard.slots i) (m.shard.slots i).tat now
      then (n, err busy)
      else (n, ok (now, left)))

-- `Writer::install` with the store to `last_seen` before it: the whole slot, and its gate at last.
abbrev pub filled : Retention → ℕ → Key → ℕ → ℕ → Slot → Slot
filled r generation key now tat s = record {
  gate = publish;
  identity = renamed s.identity generation key;
  tat = tat;
  last_seen = if is_guard r then now else s.last_seen;
}

abbrev pub write_new : Table → ℕ → Key → ℕ → ℕ → Outcome → ℕ → Machine → Done Captured
write_new t i key generation now (limited debt) left m = (m, err corrupt_state)
write_new t i key generation now (allowed tat) left m = (
  on (λ s. set_slot i (filled t.retention generation key now tat (s.slots i)) s) m,
  ok (Captured.allowed now tat, left),
)

abbrev pub charge_new : Table → Prepared → ℕ → Key → Option ℕ → ℕ → ℕ → Machine → Done Captured
charge_new t p i key none now left m = (on (set_gate i retire) m, err capacity_full)
charge_new t p i key (some generation) now left m =
    cancelled i (andthen (lift (evaluate p now none) left m) (write_new t i key generation now))

-- What `MemoryQuota::install` does once it has the writer.
unfoldable pub install_held :
    World → Table → Prepared → Key → Candidate → ℕ → Machine → Done Captured
install_held w t p key c left m =
    andthen (cancelled c.index (inspect w t c.index c left m)) (λ now left m.
      charge_new t p c.index key (checked_add u64_mod (m.shard.slots c.index).identity.generation 1)
        now left m)

-- `MemoryQuota::install`
unfoldable pub install : World → Table → Prepared → Key → Candidate → ℕ → Machine → Done Captured
install w t p key c zero m = (m, err busy)
install w t p key c (suc left) m =
    andthen (lift (reserve (m.shard.slots c.index).gate) left m)
      (λ gate left m. install_held w t p key c left (on (set_gate c.index gate) m))

abbrev pub set_structure : Hold → Machine → Machine
set_structure h = on (λ s. record s { structure = h })

abbrev pub unlocked : Done Captured → Done Captured
unlocked (m, r) = (set_structure free m, r)

abbrev pub decide : World → Table → Prepared → Key → Survey → ℕ → Machine → Done Captured
decide w t p key (here i) left m = consume w t.retention t.algorithm p i left (set_structure free m)
decide w t p key (choice selection) left m =
    unlocked (andthen (lift (finish selection) left m) (install w t p key))

abbrev pub unlocked_on_error : {A : Type 0} → Done A → Done A
unlocked_on_error (m, err e) = (set_structure free m, err e)
unlocked_on_error (m, ok a) = (m, ok a)

-- The part of `MemoryQuota::admit` that holds `structure`.
unfoldable pub admit_new : World → Table → Prepared → Key → ℕ → ℕ → Machine → Done Captured
admit_new w t p key start budget m = elim m.shard.structure [
  | held ↦ (m, err busy)
  | poisoned ↦ (m, err corrupt_state)
  | free ↦
      andthen
        (unlocked_on_error (
          andthen (sample w t.algorithm budget (set_structure held m)) (λ now left m.
            survey w t.retention key now t.geometry.probes start (new_selection t.retention) left
              m)))
        (decide w t p key)
]

abbrev pub proceed : World → Table → Prepared → Key → ℕ → Option ℕ → ℕ → Machine → Done Captured
proceed w t p key start (some i) left m = consume w t.retention t.algorithm p i left m
proceed w t p key start none left m = admit_new w t p key start left m

abbrev pub is_poisoned : Hold → Bool
is_poisoned poisoned = true
is_poisoned free = false
is_poisoned held = false

-- `MemoryQuota::admit` on the shard of the key, from the slot where its window starts.
unfoldable pub admit_at : World → Table → Key → ℕ → ℕ → Machine → Done Captured
admit_at w t key cost start m =
    if ltb t.geometry.key_bytes (length key.namespace + length key.subject)
    then (m, err key_too_large)
    else andthen (lift (prepare t.algorithm cost) t.cas_budget m) (λ p budget m.
      if is_poisoned m.shard.structure
      then (m, err corrupt_state)
      else andthen (find w key t.geometry.probes start budget m) (proceed w t p key start))

-- `MemoryQuota::location`: the shard of a key, and the slot where its window starts.
unfoldable pub location : Table → Key → ℕ × ℕ
location t key = (
  t.hash_one 0 key % t.geometry.shards,
  t.hash_one 1 key % (t.geometry.slots / t.geometry.shards),
)

-- The shards of a store, in their order.
abbrev pub Shards : Type 0
Shards = ℕ → Shard

abbrev pub stored : Shards → ℕ → Done Captured → Shards × Result Error Captured
stored shards k (m, err e) = (λ j. if j == k then m.shard else shards j, err e)
stored shards k (m, ok (answer, left)) = (λ j. if j == k then m.shard else shards j, ok answer)

-- `MemoryQuota::admit`
unfoldable pub admit : World → Table → Key → ℕ → Shards → Shards × Result Error Captured
admit w t key cost shards =
    let place = location t key in
    stored shards place.0
      (admit_at w t key cost place.1 (record { shard = shards place.0; readings = 0 }))

abbrev pub decided : Result Error Captured → Result Error Decision
decided (err e) = err e
decided (ok answer) = ok (decision_of answer)

abbrev pub resolved : Gcra → Result Error Captured → Result Error Admission
resolved g (err e) = err e
resolved g (ok answer) = ok (resolve answer g)

-- `MemoryQuota::try_consume`
unfoldable pub try_consume : World → Table → Key → ℕ → Shards → Shards × Result Error Decision
try_consume w t key cost shards = let done = admit w t key cost shards in (done.0, decided done.1)

-- `MemoryQuota::try_consume_with_snapshot`
unfoldable pub try_consume_with_snapshot :
    World → Table → Key → ℕ → Shards → Shards × Result Error Admission
try_consume_with_snapshot w t key cost shards =
    let done = admit w t key cost shards in (done.0, resolved t.algorithm done.1)
