-- ===== src/Quota/Gcra/Fresh.antt =====
-- What the constructors establish, and requests against a record with no debt.
use orbitive.Prelude.{ℕ, ◌<◌, ◌≤◌, ◌≡◌, ◌≢◌, none, arith, u64_mod, ok}
use orbitive.Quota.Contract.{Duration, as_nanos, Policy, new_policy}
use orbitive.Quota.Gcra.{Gcra, Prepared, Outcome, IsGcra, new, prepare, evaluate}
use orbitive.Quota.Gcra.Steps.{charge-le-capacity, prepare-IsPrepared}

-- A policy that `Policy::new` accepts and whose capacity `Gcra::new` can represent gives a well
-- formed algorithm, whose units, period and burst are the policy's.
pub new-IsGcra :
    (units burst : ℕ) (period : Duration) (p : Policy) (g : Gcra)
    → 0 < units
    → units < u64_mod
    → 0 < burst
    → burst < u64_mod
    → new_policy units period burst ≡ ok p
    → new p ≡ ok g
    → IsGcra g × (g.units ≡ units) × (g.period ≡ as_nanos period) × (g.policy.burst ≡ burst)
unfolding new_policy new
new-IsGcra units burst period p g hu wu hb wb ep eg = ground arith

-- A request on a record with no debt is never refused: if its cost is within the burst then only
-- an overflow of the clock's scale can keep it from being admitted.
pub fresh-ne-limited :
    (g : Gcra) (p : Prepared) (cost now debt : ℕ)
    → IsGcra g
    → prepare g cost ≡ ok p
    → evaluate p now none ≢ ok (Outcome.limited debt)
unfolding evaluate
fresh-ne-limited g p cost now debt v prep e =
    let i = prepare-IsPrepared g cost prep in
    within p now debt (omega (arith, i.capacity, i.charge, charge-le-capacity g cost v i.within)) e
  where
    within :
        (p : Prepared) (now debt : ℕ)
        → p.charge ≤ p.algorithm.capacity
        → evaluate p now none ≢ ok (Outcome.limited debt)
    within p now debt c e = ground arith
