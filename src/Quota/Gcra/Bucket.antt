-- ===== src/Quota/Gcra/Bucket.antt =====
-- The algorithm against a token bucket: a level that refills by one scaled unit per scaled unit of
-- time up to the capacity, and from which an admitted request takes its charge.
use orbitive.Prelude.{
  ℕ, ◌+◌, ◌-◌, ◌*◌, ◌<◌, ◌≤◌, ◌≡◌, refl, min, max, Bool, true, false, List, [], ◌∷◌, Option, none,
  some, arith, leb, if◌then◌else◌, u128_mod, ok,
}
use orbitive.Quota.Gcra.{Gcra, IsGcra, unwrap_or, prepare, scale, evaluate}
use orbitive.Quota.Gcra.Serve.{Request, serve, serve_all}
use orbitive.Quota.Gcra.Steps.{mul_mono, charge-le-capacity}

pub record Bucket : Type 0 where
  pub tokens : ℕ
  pub since : ℕ

abbrev pub available : ℕ → Bucket → ℕ → ℕ
available capacity b now = min capacity (b.tokens + (now - b.since))

pub draw : ℕ → Bucket → ℕ → ℕ → Bucket × Bool
draw capacity b now charge =
    if leb charge (available capacity b now)
    then (record { tokens = available capacity b now - charge; since = now }, true)
    else (b, false)

pub draw_all : Gcra → Bucket → List Request → List Bool
draw_all g b [] = []
draw_all g b (r ∷ rs) =
    let step = draw g.capacity b (r.at * g.units) (g.period * r.cost) in
    step.1 ∷ draw_all g step.0 rs

-- The clock does not run backwards, the scaled times stay clear of 2^128, no cost is above the burst.
abbrev pub Paced : Gcra → ℕ → List Request → Type 0
Paced g t [] = Unit {0}
Paced g t (r ∷ rs) =
    (t ≤ r.at)
    × (r.at * g.units + 2 * g.capacity < u128_mod)
    × (r.cost ≤ g.policy.burst)
    × Paced g r.at rs

abbrev pub Agrees : Gcra → Option ℕ → Bucket → ℕ → Type 0
Agrees g none b now = (b.tokens ≡ g.capacity) × (b.since ≤ now)
Agrees g (some tat) b now =
    (b.tokens + (tat - b.since) ≡ g.capacity) × (b.since ≤ tat) × (b.since ≤ now)

abbrev outcome_at : Gcra → Option ℕ → ℕ → ℕ → Option ℕ × Bool
outcome_at g previous now charge =
    if leb (max (unwrap_or previous now) now + charge) (now + g.capacity)
    then (some (max (unwrap_or previous now) now + charge), true)
    else (previous, false)

-- With room for two capacities above the clock no step of a request overflows.
serve_lem :
    (g : Gcra) (previous : Option ℕ) (r : Request)
    → IsGcra g
    → r.cost ≤ g.policy.burst
    → r.at * g.units + 2 * g.capacity < u128_mod
    → unwrap_or previous 0 ≤ r.at * g.units + g.capacity
    → serve g previous r ≡ ok (outcome_at g previous (r.at * g.units) (g.period * r.cost))
unfolding serve prepare scale evaluate
serve_lem g none r v c room bounded = ground (arith, charge-le-capacity g r.cost v c)
serve_lem g (some tat) r v c room bounded = ground (arith, charge-le-capacity g r.cost v c)

-- One request keeps the stored time and the bucket in step, and both decide alike.
serve-draw :
    (g : Gcra) (previous : Option ℕ) (b : Bucket) (now charge : ℕ)
    → Agrees g previous b now
    → Agrees g (outcome_at g previous now charge).0 (draw g.capacity b now charge).0 now
      × ((outcome_at g previous now charge).1 ≡ (draw g.capacity b now charge).1)
unfolding draw
serve-draw g none b now charge a = ground arith
serve-draw g (some tat) b now charge a = ground arith

Agrees-later :
    (g : Gcra) (previous : Option ℕ) (b : Bucket) (t now : ℕ)
    → t ≤ now
    → Agrees g previous b t
    → Agrees g previous b now
Agrees-later g none b t now h a = omega arith
Agrees-later g (some tat) b t now h a = omega arith

Agrees-bound :
    (g : Gcra) (previous : Option ℕ) (b : Bucket) (t now : ℕ)
    → t ≤ now
    → Agrees g previous b t
    → unwrap_or previous 0 ≤ now + g.capacity
Agrees-bound g none b t now h a = omega arith
Agrees-bound g (some tat) b t now h a = omega arith

serve_all-draw_all :
    (g : Gcra) (previous : Option ℕ) (b : Bucket) (t : ℕ) (rs : List Request)
    → IsGcra g
    → Agrees g previous b (t * g.units)
    → Paced g t rs
    → serve_all g previous rs ≡ ok (draw_all g b rs)
unfolding serve_all draw_all
serve_all-draw_all g previous b t [] v a p = refl
serve_all-draw_all g previous b t (r ∷ rs) v a p =
    let now : ℕ = r.at * g.units in
    let later : t * g.units ≤ now = mul_mono t r.at g.units p.0 in
    let ready = Agrees-later g previous b (t * g.units) now later a in
    let (agrees, same) = serve-draw g previous b now (g.period * r.cost) ready in
    rw (
      serve_lem g previous r v p.2 p.1 (Agrees-bound g previous b (t * g.units) now later a),
      serve_all-draw_all g (outcome_at g previous now (g.period * r.cost)).0 _ r.at rs v agrees p.3,
      same,
    )

abbrev pub full : Gcra → Bucket
full g = record { tokens = g.capacity; since = 0 }

-- For requests whose clock does not run backwards, whose scaled times stay two capacities clear of
-- 2^128 and none of which asks for more than the burst, a key that starts fresh, under a policy
-- that the constructor accepts, decides each as the full token bucket does, and none fails.
pub serve_all-refines :
    (g : Gcra) (rs : List Request)
    → IsGcra g
    → Paced g 0 rs
    → serve_all g none rs ≡ ok (draw_all g (full g) rs)
serve_all-refines g rs v p = serve_all-draw_all g none (full g) 0 rs v (refl, omega arith) p
