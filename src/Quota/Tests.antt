-- ===== src/Quota/Tests.antt =====
-- Runs of the quota's algorithm, window choice and gate, and the theorems applied to them.
use orbitive.Prelude.{
  ℕ, ◌+◌, ◌*◌, ◌-◌, ◌<◌, ◌≤◌, ◌≡◌, ◌↔◌, ◌⊎◌, refl, max, Bool, true, false, List, [], ◌∷◌, none,
  some, ok, err, arith,
}
use orbitive.Quota.Contract.{capacity_full, Duration, as_nanos, Policy, busy}
use orbitive.Quota.Gcra.{
  Gcra, Prepared, Outcome, IsGcra, prepare, scale, evaluate, retry_after, snapshot,
}
use orbitive.Quota.Gcra.Serve.{Request, serve, serve_all}
use orbitive.Quota.Gcra.Bucket.{draw_all, full, serve_all-refines}
use orbitive.Quota.Gcra.Rate.{granted, granted-le-envelope}
use orbitive.Quota.Gcra.Retry.{retry_exact, snapshot_exact}
use orbitive.Quota.Retention.{strict, guard, Retention, Candidate, Seen, select}
use orbitive.Quota.Retention.Choice.{first_free, Among, Coldest, cold_candidate, select_lem}
use orbitive.Quota.Gate.{writer_flag, poisoned_flag, retired_flag, attempt, refused, unpin, reserve}
use orbitive.Quota.Gate.Exclusion.{
  free, writing, Slot, Step, Reach, start, next, Reach-excludes, poisoned_closes,
}

-- Two units each ten nanoseconds, and bursts of up to four.
abbrev ten : Duration
ten = record { secs = 0; subsec = 10 }

abbrev policy : Policy
policy = record { units = 2; period = ten; burst = 4 }

abbrev g : Gcra
g = record { policy = policy; period = 10; units = 2; capacity = 40 }

g-IsGcra : IsGcra g
g-IsGcra = record {
  period_pos = omega arith;
  units_pos = omega arith;
  units_word = omega arith;
  burst_pos = omega arith;
  burst_word = omega arith;
  capacity_eq = refl;
  capacity_word = omega arith;
}

abbrev requests : List Request
requests =
    record { at = 100; cost = 3 }
    ∷ record { at = 100; cost = 2 }
    ∷ record { at = 105; cost = 2 }
    ∷ []

-- Three of four at once, then two only after one has come back.
run : serve_all g none requests ≡ ok (true ∷ false ∷ true ∷ [])
unfolding serve_all serve prepare scale evaluate
run = refl

abbrev three : Prepared
three = record { algorithm = g; charge = 30 }

abbrev two : Prepared
two = record { algorithm = g; charge = 20 }

three_prepared : prepare g 3 ≡ ok three
unfolding prepare
three_prepared = refl

two_prepared : prepare g 2 ≡ ok two
unfolding prepare
two_prepared = refl

serve_all-refines_example : serve_all g none requests ≡ ok (draw_all g (full g) requests)
serve_all-refines_example = serve_all-refines g requests g-IsGcra (omega arith)

granted-le-envelope_example :
    10 * granted requests (true ∷ false ∷ true ∷ []) ≤ 10 * 4 + (110 - 100) * 2
granted-le-envelope_example =
    granted-le-envelope g none 100 110 requests (true ∷ false ∷ true ∷ []) g-IsGcra (omega arith)
      run

-- At 100 the record stands at 230: two more units lack a debt of 10, which is 5 nanoseconds.
abbrev five : Duration
five = record { secs = 0; subsec = 5 }

scaled : (scale g 100 ≡ ok 200) × (scale g 105 ≡ ok 210)
unfolding scale
scaled = (refl, refl)

refused_at : evaluate two 200 (some 230) ≡ ok (Outcome.limited 10)
unfolding evaluate
refused_at = refl

told : retry_after g 10 ≡ ok five
unfolding retry_after
told = refl

retry_exact_example :
    (evaluate two 210 (some 230) ≡ ok (Outcome.allowed (max 230 210 + 20)))
    ↔ (100 + as_nanos five ≤ 105)
retry_exact_example =
    retry_exact g two 2 100 105 200 210 230 10 g-IsGcra two_prepared scaled.0 scaled.1 (omega arith)
      (omega arith) refused_at told

allowed_at : evaluate three 200 none ≡ ok (Outcome.allowed 230)
unfolding evaluate
allowed_at = refl

snapshot_exact_example :
    ((evaluate two 200 (some 230) ≡ ok (Outcome.allowed (230 + 20)))
      ↔ (2 ≤ (snapshot g 200 230).remaining))
    × ((snapshot g 200 230).remaining ≤ 4)
snapshot_exact_example =
    snapshot_exact g three two 3 2 200 230 none g-IsGcra three_prepared two_prepared (omega arith)
      allowed_at

abbrev seen : ℕ → ℕ → Bool → Seen
seen index when replenished = record {
  index = index;
  generation = 1;
  replenished = replenished;
  observation = record { tat = 0; seen = when };
}

select_lem_example :
    ((r : Retention) (c : Candidate)
      → first_free (seen 4 9 false ∷ seen 5 3 false ∷ []) ≡ some c
      → select r (seen 4 9 false ∷ seen 5 3 false ∷ []) ≡ ok c)
    × (first_free (seen 4 9 false ∷ seen 5 3 false ∷ []) ≡ none
        → select strict (seen 4 9 false ∷ seen 5 3 false ∷ []) ≡ err capacity_full)
    × (first_free (seen 4 9 false ∷ seen 5 3 false ∷ []) ≡ none
        → (z : Seen) × Among z (seen 4 9 false ∷ seen 5 3 false ∷ [])
          × (select guard (seen 4 9 false ∷ seen 5 3 false ∷ []) ≡ ok (cold_candidate z))
          × Coldest z (seen 4 9 false ∷ seen 5 3 false ∷ []))
select_lem_example = select_lem (seen 4 9 false) (seen 5 3 false ∷ [])

abbrev held : Slot
held = record { gate = writer_flag; pins = 0; hold = writing false }

held-Reach : Reach held
unfolding reserve
held-Reach = next start (Step.reserved writer_flag refl refl)

Reach-excludes_example :
    ((dirty : Bool)
      → held.hold ≡ writing dirty
      → (held.pins ≡ 0) × (attempt held.gate ≡ refused busy) × (reserve held.gate ≡ err busy))
    × (0 < held.pins → (unpin held.gate + 1 ≡ held.gate) × (reserve held.gate ≡ err busy))
    × (held.hold ≡ free
        → (held.gate ≡ held.pins)
          ⊎ ((held.pins ≡ 0) × ((held.gate ≡ retired_flag) ⊎ (held.gate ≡ poisoned_flag))))
Reach-excludes_example = Reach-excludes held-Reach

abbrev spoiled : Slot
spoiled = record { gate = poisoned_flag; pins = 0; hold = free }

spoiled-Reach : Reach spoiled
spoiled-Reach = next (next held-Reach (Step.dirtied refl refl)) (Step.abandoned true refl refl)

poisoned_closes_example : ¬ Step spoiled spoiled
poisoned_closes_example = poisoned_closes spoiled-Reach refl
