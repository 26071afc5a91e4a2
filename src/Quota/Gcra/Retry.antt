-- ===== src/Quota/Gcra/Retry.antt =====
-- What a caller is told: the wait after a refusal, and the units left after an admission.
use orbitive.Prelude.{
  ℕ, ◌+◌, ◌-◌, ◌*◌, ◌/◌, ◌<◌, ◌≤◌, ◌≡◌, ◌↔◌, max, Option, none, some, arith, u128_mod, ok,
}
use native.Mathlib.Nat.{div-add-mod, mod-lt}
use orbitive.Quota.Contract.{Duration, as_nanos}
use orbitive.Quota.Gcra.{
  Gcra, Prepared, Outcome, IsGcra, prepare, scale, evaluate, retry_after, snapshot,
}
use orbitive.Quota.Gcra.Steps.{
  mul_mono, sub-mul, div_le, le_div_iff, charge-le-capacity, prepare-IsPrepared, scale-eq,
}

abbrev ceiling : ℕ → ℕ → ℕ
ceiling debt units = (debt + units - 1) / units

ceiling_covers : (debt units : ℕ) → 0 < units → debt ≤ ceiling debt units * units
ceiling_covers debt units h =
    grind (arith, div-add-mod (debt + units - 1) units, mod-lt (debt + units - 1) h)

ceiling_least : (debt units wait : ℕ) → 0 < units → debt ≤ wait * units → ceiling debt units ≤ wait
ceiling_least debt units wait h le = grind (arith, div-add-mod (debt + units - 1) units)

-- The seconds and the nanoseconds together are the rounded quotient.
as_nanos-retry_after :
    (g : Gcra) (debt : ℕ) {d : Duration}
    → retry_after g debt ≡ ok d
    → as_nanos d ≡ ceiling debt g.units
unfolding retry_after
as_nanos-retry_after g debt {d} e = ground arith

-- `retry_after` is the least number of nanoseconds whose scaled length covers the debt.
retry_after_least :
    (g : Gcra) (debt wait : ℕ) {d : Duration}
    → IsGcra g
    → retry_after g debt ≡ ok d
    → (debt ≤ wait * g.units) ↔ (as_nanos d ≤ wait)
retry_after_least g debt wait {d} v e = (
  λ h. rw (as_nanos-retry_after g debt e) (ceiling_least debt g.units wait v.units_pos h),
  λ h. omega (
    arith,
    ceiling_covers debt g.units v.units_pos,
    mul_mono (ceiling debt g.units) wait g.units (omega (arith, as_nanos-retry_after g debt e)),
  ),
)

-- A request refused with a debt is admitted at a later time exactly if the time that has passed
-- covers the debt, the record being unchanged.
refused-later :
    (p : Prepared) (now later tat debt : ℕ)
    → later + 2 * p.algorithm.capacity < u128_mod
    → now ≤ later
    → evaluate p now (some tat) ≡ ok (Outcome.limited debt)
    → p.charge ≤ p.algorithm.capacity
    → (evaluate p later (some tat) ≡ ok (Outcome.allowed (max tat later + p.charge)))
      ↔ (debt ≤ later - now)
unfolding evaluate
refused-later p now later tat debt room h e c = (ground arith, ground arith)

-- A caller that was refused and retries no earlier than its first try, while no other request has
-- changed the record and at a scaled time two capacities clear of 2^128, is admitted exactly if it
-- has waited for `retry_after`.
pub retry_exact :
    (g : Gcra) (p : Prepared) (cost n n' now later tat debt : ℕ) {d : Duration}
    → IsGcra g
    → prepare g cost ≡ ok p
    → scale g n ≡ ok now
    → scale g n' ≡ ok later
    → later + 2 * g.capacity < u128_mod
    → n ≤ n'
    → evaluate p now (some tat) ≡ ok (Outcome.limited debt)
    → retry_after g debt ≡ ok d
    → (evaluate p later (some tat) ≡ ok (Outcome.allowed (max tat later + p.charge)))
      ↔ (n + as_nanos d ≤ n')
retry_exact g p cost n n' now later tat debt {d} v prep sn sn' room h refused told =
    let i = prepare-IsPrepared g cost prep in
    let t = scale-eq g n sn in
    let t' = scale-eq g n' sn' in
    let c = charge-le-capacity g cost v i.within in
    let apart = sub-mul n' n g.units in
    let ordered = mul_mono n n' g.units h in
    let least = retry_after_least g debt (n' - n) v told in
    let admitted =
      refused-later p now later tat debt (omega (arith, i.capacity)) (omega arith) refused
        (omega (arith, i.capacity, i.charge)) in
    (
      λ e. let short = admitted.0 e in omega (arith, least.0 (omega arith)),
      λ e. let long = least.1 (omega arith) in admitted.1 (omega arith),
    )

-- An admitted arrival time lies between the clock and the clock plus the capacity.
evaluate-allowed :
    (p : Prepared) (now tat : ℕ) (previous : Option ℕ)
    → evaluate p now previous ≡ ok (Outcome.allowed tat)
    → (now ≤ tat) × (tat ≤ now + p.algorithm.capacity)
unfolding evaluate
evaluate-allowed p now tat none e = ground arith
evaluate-allowed p now tat (some t) e = ground arith

-- A second request at the same instant.
evaluate-again :
    (q : Prepared) (now tat : ℕ)
    → now ≤ tat
    → tat + q.charge < u128_mod
    → now + q.algorithm.capacity < u128_mod
    → (evaluate q now (some tat) ≡ ok (Outcome.allowed (tat + q.charge)))
      ↔ (tat + q.charge ≤ now + q.algorithm.capacity)
unfolding evaluate
evaluate-again q now tat h r r' = (ground arith, ground arith)

-- After an admission at a scaled time two capacities clear of 2^128 the snapshot's `remaining` is
-- exact: a further request at the same instant is admitted if and only if its cost, which `prepare`
-- accepts, is at most that; and `remaining` never exceeds the burst.
pub snapshot_exact :
    (g : Gcra) (p q : Prepared) (cost again now tat : ℕ) (previous : Option ℕ)
    → IsGcra g
    → prepare g cost ≡ ok p
    → prepare g again ≡ ok q
    → now + 2 * g.capacity < u128_mod
    → evaluate p now previous ≡ ok (Outcome.allowed tat)
    → ((evaluate q now (some tat) ≡ ok (Outcome.allowed (tat + q.charge)))
        ↔ (again ≤ (snapshot g now tat).remaining))
      × ((snapshot g now tat).remaining ≤ g.policy.burst)
unfolding snapshot
snapshot_exact g p q cost again now tat previous v prep prep' room e =
    let i = prepare-IsPrepared g cost prep in
    let k = prepare-IsPrepared g again prep' in
    let a = evaluate-allowed p now tat previous e in
    let c = charge-le-capacity g again v k.within in
    let few =
      div_le (g.capacity - (tat - now)) g.period g.policy.burst v.period_pos
        (omega (arith, v.capacity_eq)) in
    let exact = le_div_iff again g.period (g.capacity - (tat - now)) v.period_pos in
    let fits =
      evaluate-again q now tat a.0 (omega (arith, i.capacity, k.charge))
        (omega (arith, k.capacity)) in
    (
      (
        λ e'. let fit = fits.0 e' in omega (arith, exact.1 (omega (arith, k.capacity, k.charge))),
        λ le. fits.1 (omega (arith, a, i.capacity, k.capacity, k.charge, exact.0 (omega arith))),
      ),
      omega arith,
    )
