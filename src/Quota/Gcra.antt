-- ===== src/Quota/Gcra.antt =====
-- quota/src/gcra.rs: the generic cell rate algorithm on nanoseconds times units.
pub mod Steps
pub mod Serve
pub mod Fresh
pub mod Bucket
pub mod Rate
pub mod Retry
use orbitive.Prelude.{
  ℕ, ◌+◌, ◌-◌, ◌*◌, ◌/◌, ◌%◌, ◌^◌, ◌<◌, ◌≤◌, ◌≡◌, max, Option, none, some, arith, ltb, leb,
  if◌then◌else◌, checked_add, checked_mul, u64_mod, u128_mod, u32_mod, Result, ok, err, ok_or,
  refuse_if, ◌>>=◌, ◌>>◌,
}
use orbitive.Quota.Contract.{
  Error, cost_exceeds_burst, arithmetic_overflow, Duration, as_nanos, nanos_per_sec, Policy,
  Snapshot, Admission, Decision,
}

pub record Gcra : Type 0 where
  pub policy : Policy
  pub period : ℕ
  pub units : ℕ
  pub capacity : ℕ

pub data Outcome : Type 0 where
  allowed : (tat : ℕ) → Outcome
  limited : (debt : ℕ) → Outcome

pub record Prepared : Type 0 where
  pub algorithm : Gcra
  pub charge : ℕ

-- `Captured`: what is kept under exclusion.
pub data Captured : Type 0 where
  allowed : (now tat : ℕ) → Captured
  limited : Duration → Captured

-- `Gcra::new`
unfoldable pub new : Policy → Result Error Gcra
new policy = do
  let period = as_nanos policy.period
  capacity ← ok_or (checked_mul u128_mod period policy.burst) arithmetic_overflow
  ok (record { policy = policy; period = period; units = policy.units; capacity = capacity })

unfoldable pub prepare : Gcra → ℕ → Result Error Prepared
prepare g cost = do
  refuse_if (ltb g.policy.burst cost) cost_exceeds_burst
  charge ← ok_or (checked_mul u128_mod g.period cost) arithmetic_overflow
  ok (record { algorithm = g; charge = charge })

unfoldable pub scale : Gcra → ℕ → Result Error ℕ
scale g now = ok_or (checked_mul u128_mod now g.units) arithmetic_overflow

-- `div_ceil`, then whole seconds that must fit in u64.
unfoldable pub retry_after : Gcra → ℕ → Result Error Duration
retry_after g debt = do
  let nanos = (debt + g.units - 1) / g.units
  seconds ←
      ok_or (if ltb (nanos / nanos_per_sec) u64_mod then some (nanos / nanos_per_sec) else none)
        arithmetic_overflow
  ok (record { secs = seconds; subsec = nanos % nanos_per_sec % u32_mod })

abbrev unwrap_or : Option ℕ → ℕ → ℕ
unwrap_or none d = d
unwrap_or (some a) d = a

unfoldable pub evaluate : Prepared → ℕ → Option ℕ → Result Error Outcome
evaluate p now previous = do
  tat ← ok_or (checked_add u128_mod (max (unwrap_or previous now) now) p.charge) arithmetic_overflow
  ceiling ← ok_or (checked_add u128_mod now p.algorithm.capacity) arithmetic_overflow
  if leb tat ceiling then ok (Outcome.allowed tat) else ok (Outcome.limited (tat - ceiling))

-- Called after an allowed outcome only: then neither subtraction goes below zero.
unfoldable pub snapshot : Gcra → ℕ → ℕ → Snapshot
snapshot g now tat = record {
  limit = g.policy.burst;
  remaining = (g.capacity - (tat - now)) / g.period % u64_mod;
}

-- `Captured::resolve`
unfoldable pub resolve : Captured → Gcra → Admission
unfolding snapshot
resolve (Captured.allowed now tat) g = record {
  decision = Decision.allowed;
  snapshot = some (snapshot g now tat);
}
resolve (Captured.limited d) g = record { decision = Decision.limited d; snapshot = none }

-- What `Policy::new` and `Gcra::new` establish, with the ranges of the words.
pub record IsGcra (g : Gcra) : Type 0 where
  pub period_pos : 0 < g.period
  pub units_pos : 0 < g.units
  pub units_word : g.units < u64_mod
  pub burst_pos : 0 < g.policy.burst
  pub burst_word : g.policy.burst < u64_mod
  pub capacity_eq : g.capacity ≡ g.period * g.policy.burst
  pub capacity_word : g.capacity < u128_mod
