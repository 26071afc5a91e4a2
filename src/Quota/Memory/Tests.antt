-- ===== src/Quota/Memory/Tests.antt =====
-- Runs of a small store, and the theorems applied to them.
use orbitive.Prelude.{
  ℕ, suc, ◌/◌, ◌<◌, ◌≡◌, ◌↔◌, refl, subst, Bool, true, false, [], ◌∷◌, Option, none, some, ◌==◌,
  if◌then◌else◌, arith, ok, err, bytes_eq, inr, u64_mod,
}
use orbitive.Quota.Contract.{busy, Key, Decision, new_geometry}
use orbitive.Quota.Gcra.{Gcra, Captured, prepare, scale, evaluate, retry_after}
use orbitive.Quota.Retention.{strict, consider, finish, new_selection}
use orbitive.Quota.Gate.{attempt, reserve, unpin}
use orbitive.Quota.Memory.{
  Slot, Shard, Table, World, Machine, Done, free, matches, renamed, pin, drop_pin,
}
use orbitive.Quota.Memory.Words.{
  raise, sample, touch, commit, assess, round, rounds, consume, decision_of,
}
use orbitive.Quota.Memory.Admit.{
  Shards, in_use, inspect, install_held, install, admit_new, admit_at, location, admit, try_consume,
}
use orbitive.Quota.Memory.Window.{find, survey}
use orbitive.Quota.Memory.Calm.{Same, Same-refl, Calm}
use orbitive.Quota.Memory.Bounds.{Untouched, try_consume-inside}
use orbitive.Quota.Memory.Walks.{probed}
use orbitive.Quota.Memory.Missing.{Words, Steady, Kept, Kept-refl, Missing}
use orbitive.Quota.Memory.Rescan.{Rescans, survey-Rescans}
use orbitive.Quota.Memory.Rounds.{rounds-Returns}
use orbitive.Quota.Memory.Effects.{Admits}
use orbitive.Quota.Memory.Admission.{InWindow, admit_at-Admits}
use orbitive.Quota.Memory.Tenants.{matches-renamed, try_consume_error, admit_at_live}

-- The exchange made with three attempts left fails for no reason.
abbrev hiccup : ℕ → Option (Shard → Shard)
hiccup k = if k == 3 then some (λ s. s) else none

abbrev w : World
w = record { clock = λ k. ok 5; weak = hiccup }

abbrev applied : Option (Shard → Shard) → Shard → Shard
applied none s = s
applied (some f) s = f s

w-Calm : Calm w
w-Calm k peers h s = split (k == 3) h
  where
    split : (b : Bool) → (if b then some (λ s. s) else none) ≡ some peers → Same s (peers s)
    split true h = subst (λ o. Same s (applied o s)) h (Same-refl s)
    split false h = cc

w-Steady : Steady w
w-Steady k peers h s = split (k == 3) h
  where
    split : (b : Bool) → (if b then some (λ s. s) else none) ≡ some peers → Kept s (peers s)
    split true h = subst (λ o. Kept s (applied o s)) h (Kept-refl s)
    split false h = cc

-- Two units each ten nanoseconds, and bursts of up to four.
abbrev g : Gcra
g = record {
  policy = record { units = 2; period = record { secs = 0; subsec = 10 }; burst = 4 };
  period = 10;
  units = 2;
  capacity = 40;
}

abbrev t : Table
t = record {
  retention = strict;
  geometry = record { slots = 4; shards = 2; key_bytes = 4; probes = 2 };
  cas_budget = 8;
  algorithm = g;
  hash_one = λ salt key. salt;
}

abbrev blank : Slot
blank = record {
  gate = 0;
  identity = record {
    generation = 0;
    occupied = false;
    namespace_len = 0;
    subject_len = 0;
    bytes = 0 ∷ 0 ∷ 0 ∷ 0 ∷ [];
  };
  tat = 0;
  last_seen = 0;
}

abbrev empty : Shard
empty = record { structure = free; watermark = 0; slot_count = 2; slots = λ i. blank }

abbrev alice : Key
alice = record { namespace = 1 ∷ []; subject = 2 ∷ 3 ∷ [] }

abbrev bob : Key
bob = record { namespace = 1 ∷ 2 ∷ []; subject = 3 ∷ [] }

abbrev store : Shards
store k = empty

-- Three of four units at once, then two more than are left, then one.
first : (try_consume w t alice 3 store).1 ≡ ok Decision.allowed
unfolding try_consume admit location admit_at prepare find pin attempt matches admit_new sample
    raise scale survey install install_held inspect in_use reserve evaluate consider finish
    new_selection drop_pin unpin decision_of renamed
first = refl

again :
    (try_consume w t alice 2 (try_consume w t alice 3 store).0).1
    ≡ ok (Decision.limited (record { secs = 0; subsec = 5 }))
unfolding try_consume admit location admit_at prepare find pin attempt matches admit_new sample
    raise scale survey install install_held inspect in_use reserve evaluate consider finish
    new_selection drop_pin unpin decision_of renamed consume rounds round assess touch commit
    retry_after bytes_eq
again = refl

-- The same bytes, parted elsewhere, are another key with a burst of its own.
other_key : (try_consume w t bob 4 (try_consume w t alice 3 store).0).1 ≡ ok Decision.allowed
unfolding try_consume admit location admit_at prepare find pin attempt matches admit_new sample
    raise scale survey install install_held inspect in_use reserve evaluate consider finish
    new_selection drop_pin unpin decision_of renamed consume rounds round assess touch commit
    retry_after bytes_eq
other_key = refl

matches-renamed_example : (matches (renamed blank.identity 7 alice) bob ≡ true) ↔ (alice ≡ bob)
matches-renamed_example = matches-renamed blank.identity 7 alice bob

abbrev start_of : Shard → Machine
start_of s = record { shard = s; readings = 0 }

empty-Words : Words empty
empty-Words i = omega arith

admit_at-Admits_example :
    Admits w t
      (InWindow t 1 empty)
      (Missing alice 2 2 1 empty)
      alice
      3
      empty
      (admit_at w t alice 3 1 (start_of empty)).0.shard
      (admit_at w t alice 3 1 (start_of empty)).1
admit_at-Admits_example = admit_at-Admits w t alice 3 1 (start_of empty) w-Calm w-Steady empty-Words

-- Another thread that charges the slot at every exchange: no round of this one succeeds.
abbrev busy_world : World
busy_world = record {
  clock = λ k. ok 5;
  weak =
      λ k. some (λ s. record s { slots = λ i. record (s.slots i) { tat = suc (s.slots i).tat } });
}

rounds-Returns_example :
    (done : Done Captured) × (rounds busy_world strict g
        (record { algorithm = g; charge = 30 })
        1
        5
        4
        (start_of empty)
      ≡ some done)
rounds-Returns_example =
    rounds-Returns busy_world strict g (record { algorithm = g; charge = 30 }) 1 5 4
      (start_of empty) (omega arith)

-- One attempt pins the first slot; none is left for the second.
abbrev hasty : Table
hasty = record t { cas_budget = 1 }

out_of_attempts : (try_consume w hasty alice 3 store).1 ≡ err busy
unfolding try_consume admit location admit_at prepare find pin attempt matches admit_new sample
    raise scale survey install install_held inspect in_use reserve evaluate consider finish
    new_selection drop_pin unpin decision_of renamed
out_of_attempts = refl

try_consume_error_example : Same (store 0) ((try_consume w hasty alice 3 store).0 0)
try_consume_error_example = try_consume_error w hasty alice 3 store busy 0 w-Calm out_of_attempts

-- Slot 1 is Alice's, who owes for all of her burst.
abbrev owing : Shard
owing = record empty {
  slots = λ i.
      if i == 1
      then record blank {
        identity = record {
          generation = 1;
          occupied = true;
          namespace_len = 1;
          subject_len = 2;
          bytes = 1 ∷ 2 ∷ 3 ∷ 0 ∷ [];
        };
        tat = 50;
      }
      else blank;
}

owing-Words : Words owing
owing-Words i = split (i == 1)
  where
    split : (b : Bool) → (if b then owing.slots 1 else blank).gate < u64_mod
    split true = omega arith
    split false = omega arith

bob_allowed : (admit_at w t bob 4 1 (start_of owing)).1 ≡ ok (Captured.allowed 10 50, 1)
unfolding admit_at prepare find pin attempt matches admit_new sample raise scale bytes_eq survey
    install install_held inspect in_use reserve evaluate consider finish new_selection drop_pin
    unpin renamed
bob_allowed = refl

not_bob : matches (owing.slots 1).identity bob ≡ false
unfolding matches bytes_eq
not_bob = refl

admit_at_live_example :
    ((((admit_at w t bob 4 1 (start_of owing)).0.shard.slots 1).identity)
      ≡ (owing.slots 1).identity)
    × (((admit_at w t bob 4 1 (start_of owing)).0.shard.slots 1).tat ≡ 50)
admit_at_live_example =
    admit_at_live w t bob 4 1 10 50 1 1 (start_of owing) w-Calm refl bob_allowed not_bob refl
      (omega arith)

accepted : new_geometry 4 2 4 2 ≡ ok t.geometry
unfolding new_geometry
accepted = refl

sized : (k : ℕ) → (store k).slot_count ≡ 4 / 2
sized k = refl

try_consume-inside_example :
    Untouched ((store 1).slots 2) (((try_consume w t alice 3 store).0 1).slots 2)
try_consume-inside_example =
    try_consume-inside w t alice 3 store 4 2 4 2 1 2 w-Calm accepted (omega arith) (omega arith)
      sized (inr (omega arith))

-- A shard where Alice's slot is the first: the walk from slot 1 comes to it in its second step.
survey-Rescans_example :
    Rescans alice
      (λ i. (n : ℕ) × (n < 2) × (i ≡ probed n 2 1))
      (Missing alice 2 2 1 owing)
      owing
      (survey w strict alice 10 2 1 (new_selection strict) 8 (start_of owing))
survey-Rescans_example =
    survey-Rescans w strict alice 10 2 1 8 (start_of owing) w-Calm w-Steady owing-Words
