-- ===== src/Quota/Memory.antt =====
-- quota/src/memory.rs: the slots of one shard, and the words of a slot that threads share.
-- `World` is what the source leaves to others: the clock, and how each weak exchange ends.
pub mod Words
pub mod Window
pub mod Admit
pub mod Build
pub mod Calm
pub mod Rounds
pub mod Sampling
pub mod Charging
pub mod Consuming
pub mod Offered
pub mod Walks
pub mod Missing
pub mod Rescan
pub mod Effects
pub mod Installing
pub mod Admission
pub mod Tenants
pub mod Bounds
pub mod Tests
use orbitive.Prelude.{
  ℕ, zero, suc, ◌+◌, ◌≡◌, Bool, true, false, ◌&&◌, List, ◌++◌, Option, none, some, length, take,
  drop, bytes_eq, ◌==◌, if◌then◌else◌, Result, ok, err,
}
use orbitive.Quota.Contract.{Error, busy, Key, Geometry}
use orbitive.Quota.Gcra.{Gcra}
use orbitive.Quota.Retention.{Retention}
use orbitive.Quota.Gate.{Attempt, attempt, refused, absent, exchange, unpin}

pub record Identity : Type 0 where
  pub generation : ℕ
  pub occupied : Bool
  pub namespace_len : ℕ
  pub subject_len : ℕ
  pub bytes : List ℕ

pub record Slot : Type 0 where
  pub gate : ℕ
  pub identity : Identity
  pub tat : ℕ
  pub last_seen : ℕ

-- The mutex `structure`, as `try_lock` and `is_poisoned` see it.
pub data Hold : Type 0 where
  free held poisoned : Hold

-- `slots` is total: past `slot_count`, where the source would panic, stand slots that no store has.
pub record Shard : Type 0 where
  pub structure : Hold
  pub watermark : ℕ
  pub slot_count : ℕ
  pub slots : ℕ → Slot

-- `Table`, without its shards. `hash_one` is the keyed hash of std, a parameter.
pub record Table : Type 0 where
  pub retention : Retention
  pub geometry : Geometry
  pub cas_budget : ℕ
  pub algorithm : Gcra
  pub hash_one : ℕ → Key → ℕ

-- `clock k` is the `k`-th reading. `weak k` is how the weak exchange made with `k` attempts left
-- ends: `none` if it is carried out, `some peers` if it is not, spuriously or because the other
-- threads have changed the shard by `peers`.
pub record World : Type 0 where
  pub clock : ℕ → Result Error ℕ
  pub weak : ℕ → Option (Shard → Shard)

-- A shard in use, with the number of clock readings so far.
pub record Machine : Type 0 where
  pub shard : Shard
  pub readings : ℕ

-- How a piece of work ends: with the shard it leaves, and an error or a value and the attempts left.
abbrev pub Done : Type 0 → Type 0
Done A = Machine × Result Error (A × ℕ)

abbrev pub andthen : {A B : Type 0} → Done A → (A → ℕ → Machine → Done B) → Done B
andthen (m, err e) next = (m, err e)
andthen (m, ok (a, left)) next = next a left m

abbrev pub lift : {A : Type 0} → Result Error A → ℕ → Machine → Done A
lift (err e) left m = (m, err e)
lift (ok a) left m = (m, ok (a, left))

abbrev pub put : (ℕ → Slot) → ℕ → Slot → ℕ → Slot
put slots i slot j = if j == i then slot else slots j

abbrev pub set_slot : ℕ → Slot → Shard → Shard
set_slot i slot s = record s { slots = put s.slots i slot }

abbrev pub set_gate : ℕ → ℕ → Shard → Shard
set_gate i gate s = set_slot i (record (s.slots i) { gate = gate }) s

abbrev pub set_tat : ℕ → ℕ → Shard → Shard
set_tat i tat s = set_slot i (record (s.slots i) { tat = tat }) s

abbrev pub set_last_seen : ℕ → ℕ → Shard → Shard
set_last_seen i seen s = set_slot i (record (s.slots i) { last_seen = seen }) s

abbrev pub on : (Shard → Shard) → Machine → Machine
on f m = record m { shard = f m.shard }

-- `Pin::matches`
unfoldable pub matches : Identity → Key → Bool
matches id key =
    id.occupied
    && (id.namespace_len == length key.namespace
        && (id.subject_len == length key.subject
            && (bytes_eq (take id.namespace_len id.bytes) key.namespace
                && bytes_eq (take id.subject_len (drop id.namespace_len id.bytes)) key.subject)))

-- The identity that `Writer::install` writes over the slot's buffer, which keeps its length.
unfoldable pub renamed : Identity → ℕ → Key → Identity
renamed id generation key = record {
  generation = generation;
  occupied = true;
  namespace_len = length key.namespace;
  subject_len = length key.subject;
  bytes =
      key.namespace ++ (key.subject ++ drop (length key.namespace + length key.subject) id.bytes);
}

-- `Drop for Pin`
unfoldable pub drop_pin : ℕ → Machine → Machine
drop_pin i = on (λ s. set_gate i (unpin (s.slots i).gate) s)

abbrev unexpected : Option ℕ → ℕ → Bool
unexpected none generation = false
unexpected (some g) generation = if g == generation then false else true

-- What `Slot::pin` does once it holds the pin.
abbrev pub hold_pin : ℕ → Option ℕ → ℕ → Machine → Done Bool
hold_pin i expected left m =
    if unexpected expected (m.shard.slots i).identity.generation
    then (drop_pin i m, err busy)
    else (m, ok (true, left))

-- How an exchange ends: with `done`, or with another try after what the peers have done.
abbrev pub exchanged :
    {A : Type 0} → Option (Shard → Shard) → Done A → (Machine → Done A) → Machine → Done A
exchanged none done retry m = done
exchanged (some peers) done retry m = retry (on peers m)

-- What `Slot::pin` does with the word it has read.
abbrev pub gated : Attempt → (ℕ → Done Bool) → ℕ → Machine → Done Bool
gated (refused e) exchange_to left m = (m, err e)
gated absent exchange_to left m = (m, ok (false, left))
gated (exchange next) exchange_to left m = exchange_to next

-- `Slot::pin`: the value says whether a pin is held; it is not on a retired slot.
unfoldable pub pin : World → ℕ → Option ℕ → (budget : ℕ) → Machine → Done Bool
pin w i expected zero m = gated (attempt (m.shard.slots i).gate) (λ next. (m, err busy)) zero m
pin w i expected (suc left) m =
    gated (attempt (m.shard.slots i).gate)
      (λ next.
        exchanged (w.weak left) (hold_pin i expected left (on (set_gate i next) m))
          (pin w i expected left) m)
      (suc left) m
