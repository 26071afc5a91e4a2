-- ===== src/Quota/Retention.antt =====
-- quota/src/retention.rs: which slot of the probe window a new key may take.
pub mod Choice
use orbitive.Prelude.{
  ℕ, ◌<◌, ◌≤◌, ◌≡◌, ◌≢◌, ◌⊎◌, inl, inr, refl, Bool, true, false, ◌&&◌, List, [], ◌∷◌, Option, none,
  some, arith, ltb, if◌then◌else◌, Result, ok, err, ok_or,
}
use orbitive.Quota.Contract.{Error, capacity_full}

pub data Retention : Type 0 where
  strict guard : Retention

pub record Observation : Type 0 where
  pub tat : ℕ
  pub seen : ℕ

pub record Candidate : Type 0 where
  pub index : ℕ
  pub generation : ℕ
  pub observed : Option Observation

pub record Selection : Type 0 where
  pub retention : Retention
  pub replenished : Option Candidate
  pub cold : Option Candidate

unfoldable pub new_selection : Retention → Selection
new_selection r = record { retention = r; replenished = none; cold = none }

abbrev pub is_guard : Retention → Bool
is_guard strict = false
is_guard guard = true

-- `candidate.observed.unwrap().seen`: 0 stands for the panic, which `select-Selected` rules out.
abbrev seen_of : Option Observation → ℕ
seen_of none = 0
seen_of (some o) = o.seen

-- `self.cold.is_none_or(...)`
abbrev pub colder : Option Candidate → Observation → Bool
colder none o = true
colder (some c) o = ltb o.seen (seen_of c.observed)

abbrev pub keep_first : Option Candidate → Candidate → Option Candidate
keep_first none c = some c
keep_first (some d) c = some d

unfoldable pub consider : Selection → ℕ → ℕ → Bool → Observation → Selection
consider s index generation true o = record s {
  replenished =
      keep_first s.replenished (record { index = index; generation = generation; observed = none });
}
consider s index generation false o =
    if is_guard s.retention && colder s.cold o
    then record s {
      cold = some (record { index = index; generation = generation; observed = some o });
    }
    else s

abbrev pub or_else : Option Candidate → Option Candidate → Option Candidate
or_else none d = d
or_else (some c) d = some c

unfoldable pub finish : Selection → Result Error Candidate
finish s = ok_or (or_else s.replenished s.cold) capacity_full

-- What the scan of the probe window sees of one slot.
pub record Seen : Type 0 where
  pub index : ℕ
  pub generation : ℕ
  pub replenished : Bool
  pub observation : Observation

pub scan : Selection → List Seen → Selection
scan s [] = s
scan s (x ∷ xs) = scan (consider s x.index x.generation x.replenished x.observation) xs

pub select : Retention → List Seen → Result Error Candidate
select r xs = finish (scan (new_selection r) xs)
