-- ===== src/Quota/Gcra/Serve.antt =====
-- A run of requests against the record of one key.
use orbitive.Prelude.{ℕ, Bool, true, false, List, [], ◌∷◌, Option, some, Result, ok, ◌>>=◌}
use orbitive.Quota.Contract.{Error}
use orbitive.Quota.Gcra.{Gcra, Outcome, prepare, scale, evaluate}

-- A request as it reaches one key: the clock's sample in nanoseconds and the units asked for.
pub record Request : Type 0 where
  pub at : ℕ
  pub cost : ℕ

-- What the store keeps after an outcome: the new arrival time if it was allowed.
abbrev pub kept : Option ℕ → Outcome → Option ℕ × Bool
kept previous (Outcome.allowed tat) = (some tat, true)
kept previous (Outcome.limited debt) = (previous, false)

-- One request: prepared, scaled, evaluated and committed, as `MemoryQuota::admit` composes these.
unfoldable pub serve : Gcra → Option ℕ → Request → Result Error (Option ℕ × Bool)
serve g previous r = do
  p ← prepare g r.cost
  now ← scale g r.at
  outcome ← evaluate p now previous
  ok (kept previous outcome)

unfoldable pub serve_all : Gcra → Option ℕ → List Request → Result Error (List Bool)
serve_all g previous [] = ok []
serve_all g previous (r ∷ rs) = do
  step ← serve g previous r
  rest ← serve_all g step.0 rs
  ok (step.1 ∷ rest)
