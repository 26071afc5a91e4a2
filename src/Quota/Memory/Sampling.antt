-- ===== src/Quota/Memory/Sampling.antt =====
-- The clock readings that an admission decides by, and what it evaluates on them.
use orbitive.Prelude.{ℕ, ◌≡◌, subst, Bool, true, false, some, if◌then◌else◌, Result, ok, err, ltb}
use orbitive.Quota.Contract.{Error, clock_went_backwards}
use orbitive.Quota.Gcra.{Gcra, Prepared, Outcome, scale, evaluate}
use orbitive.Quota.Gcra.Serve.{Request}
use orbitive.Quota.Retention.{Retention}
use orbitive.Quota.Memory.{World, Machine, Done, andthen, lift}
use orbitive.Quota.Memory.Words.{raise, advance, accept, sample, assess, if_guard, tick, touch}
use orbitive.Quota.Memory.Calm.{andthen_rule}

-- The request that a reading of the clock makes of a key's record.
abbrev pub request : ℕ → ℕ → Request
request raw cost = record { at = raw; cost = cost }

-- `now` is a reading of the clock, scaled.
abbrev pub Sampled : World → Gcra → ℕ → ℕ → Type 0
Sampled w g raw now = (k : ℕ) × (w.clock k ≡ ok raw) × (scale g raw ≡ ok now)

pub lift-ok :
    {A : Type 0} (r : Result Error A) (left : ℕ) (m n : Machine) (a : A) (rest : ℕ)
    → lift r left m ≡ (n, ok (a, rest))
    → r ≡ ok a
lift-ok (err e) left m n a rest h = cc
lift-ok (ok b) left m n a rest h = cc

module _ (w : World) (g : Gcra) where
  abbrev pub Samples : Done ℕ → Type 0
  Samples (m, err e) = Unit {0}
  Samples (m, ok (now, left)) = (raw : ℕ) × Sampled w g raw now

  accept-Samples :
      (raw left k : ℕ) (m : Machine) → w.clock k ≡ ok raw → Samples (accept w g raw left m)
  accept-Samples raw left k m read = split (ltb raw m.shard.watermark)
    where
      split :
          (b : Bool)
          → Samples (
              if b
              then (m, err clock_went_backwards)
              else andthen (lift (scale g raw) left m) (advance w raw))
      split true = tt
      split false =
          andthen_rule Samples (lift (scale g raw) left m) (advance w raw) (λ n e h. tt)
            (λ n now left scaled.
              andthen_rule Samples (raise w raw left n) (λ done left m. (m, ok (now, left)))
                (λ n e h. tt) (λ n done left h. (raw, (k, read, lift-ok _ _ _ _ _ _ scaled))))

  -- What `sample` answers with is a scaled reading of the clock.
  pub sample-Samples : (budget : ℕ) (m : Machine) → Samples (sample w g budget m)
  unfolding sample
  sample-Samples budget m =
      andthen_rule Samples (lift (w.clock m.readings) budget (tick m)) (accept w g) (λ n e h. tt)
        (λ n raw left read. accept-Samples raw left m.readings n (lift-ok _ _ _ _ _ _ read))

  abbrev pub Assesses : Prepared → ℕ → Done (ℕ × Outcome) → Type 0
  Assesses p previous (m, err e) = Unit {0}
  Assesses p previous (m, ok ((now, outcome), left)) =
      ((raw : ℕ) × Sampled w g raw now) × (evaluate p now (some previous) ≡ ok outcome)

  pub assess-Assesses :
      (r : Retention) (p : Prepared) (i previous budget : ℕ) (m : Machine)
      → Assesses p previous (assess w r g p i previous budget m)
  unfolding assess
  assess-Assesses r p i previous budget m =
      andthen_rule (Assesses p previous) (sample w g budget m) _ (λ n e h. tt)
        (λ n now left sampled.
          andthen_rule (Assesses p previous) (if_guard r (touch w i now left n) (n, ok (tt, left)))
            _ (λ n e h. tt)
            (λ n done left h.
              andthen_rule (Assesses p previous) (lift (evaluate p now (some previous)) left n) _
                (λ n e h. tt)
                (λ n outcome left h.
                  (subst Samples sampled (sample-Samples budget m), lift-ok _ _ _ _ _ _ h))))
