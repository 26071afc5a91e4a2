-- ===== src/Quota/Gcra/Rate.antt =====
-- The rate envelope: what any run of requests on one record can be granted.
use orbitive.Prelude.{
  ℕ, ◌+◌, ◌-◌, ◌*◌, ◌≤◌, ◌≡◌, max, Bool, true, false, List, [], ◌∷◌, Option, none, some, arith,
  if◌then◌else◌, ok, ◌⊎◌, >>=-eq-ok,
}
use orbitive.Quota.Gcra.{Gcra, IsGcra, unwrap_or, prepare, scale, evaluate}
use orbitive.Quota.Gcra.Steps.{mul_mono, sub-mul}
use orbitive.Quota.Gcra.Serve.{Request, serve, serve_all}

-- The units granted by a run's decisions.
pub granted : List Request → List Bool → ℕ
granted [] flags = 0
granted (r ∷ rs) [] = 0
granted (r ∷ rs) (f ∷ flags) = (if f then r.cost else 0) + granted rs flags

-- The samples of a run do not run backwards and lie between two instants.
abbrev pub Between : ℕ → ℕ → List Request → Type 0
Between start stop [] = start ≤ stop
Between start stop (r ∷ rs) = (start ≤ r.at) × Between r.at stop rs

abbrev base : Option ℕ → ℕ → ℕ
base previous now = max (unwrap_or previous now) now

abbrev Moves : Gcra → Option ℕ → Option ℕ → Request → Bool → Type 0
Moves g previous next r f =
    ((f ≡ false) × (next ≡ previous))
    ⊎ ((f ≡ true)
        × (next ≡ some (base previous (r.at * g.units) + g.period * r.cost))
        × (base previous (r.at * g.units) + g.period * r.cost ≤ r.at * g.units + g.capacity))

-- One request either is granted and moves the arrival time by its charge, which stays within the
-- capacity above the clock, or leaves the record as it was.
serve-cases :
    (g : Gcra) (previous next : Option ℕ) (r : Request) (f : Bool)
    → serve g previous r ≡ ok (next, f)
    → Moves g previous next r f
unfolding serve prepare scale evaluate
serve-cases g none next r f e = ground arith
serve-cases g (some tat) next r f e = ground arith

serve_all-cons :
    (g : Gcra) (previous : Option ℕ) (r : Request) (rs : List Request) (flags : List Bool)
    → serve_all g previous (r ∷ rs) ≡ ok flags
    → (next : Option ℕ) × (f : Bool) × (rest : List Bool) × (serve g previous r ≡ ok (next, f))
      × (serve_all g next rs ≡ ok rest)
      × (flags ≡ f ∷ rest)
unfolding serve_all
serve_all-cons g previous r rs flags e =
    let ((next, f), s, e') = >>=-eq-ok (serve g previous r) _ e in
    let (rest, t, e'') = >>=-eq-ok (serve_all g next rs) _ e' in (next, f, rest, s, t, cc)

start-le-stop : (start stop : ℕ) (rs : List Request) → Between start stop rs → start ≤ stop
start-le-stop start stop [] b = b
start-le-stop start stop (r ∷ rs) b = omega (arith, start-le-stop r.at stop rs b.1)

envelope_step :
    (g : Gcra) (previous next : Option ℕ) (r : Request) (f : Bool) (start stop more : ℕ)
    → start ≤ r.at * g.units
    → r.at * g.units ≤ stop
    → Moves g previous next r f
    → g.period * more + base next (r.at * g.units)
      ≤ max (base next (r.at * g.units)) (stop + g.capacity)
    → g.period * ((if f then r.cost else 0) + more) + base previous start
      ≤ max (base previous start) (stop + g.capacity)
envelope_step g none next r f start stop more h k m i = ground arith
envelope_step g (some tat) next r f start stop more h k m i = ground arith

-- Below, times are scaled. What is granted raises the arrival time, and no admission lifts that
-- above the end of the run by more than the capacity.
envelope :
    (g : Gcra) (previous : Option ℕ) (start stop : ℕ) (rs : List Request) (flags : List Bool)
    → Between start stop rs
    → serve_all g previous rs ≡ ok flags
    → g.period * granted rs flags + base previous (start * g.units)
      ≤ max (base previous (start * g.units)) (stop * g.units + g.capacity)
unfolding granted
envelope g previous start stop [] flags b e = omega arith
envelope g previous start stop (r ∷ rs) flags b e =
    let (next, f, rest, s, t, e') = serve_all-cons g previous r rs flags e in
    let more = envelope g next r.at stop rs rest b.1 t in
    let order = mul_mono start r.at g.units b.0 in
    let last = mul_mono r.at stop g.units (start-le-stop r.at stop rs b.1) in
    rw e' (
      envelope_step g previous next r f (start * g.units) (stop * g.units) (granted rs rest) order
        last (serve-cases g previous next r f s) more)

-- Whatever the record held before, the units granted to a run of requests between two instants cost
-- at most one burst and the refill of the time between them.
pub granted-le-envelope :
    (g : Gcra) (previous : Option ℕ) (start stop : ℕ) (rs : List Request) (flags : List Bool)
    → IsGcra g
    → Between start stop rs
    → serve_all g previous rs ≡ ok flags
    → g.period * granted rs flags ≤ g.period * g.policy.burst + (stop - start) * g.units
granted-le-envelope g previous start stop rs flags v b e = omega (
  arith,
  v.capacity_eq,
  envelope g previous start stop rs flags b e,
  sub-mul stop start g.units,
  mul_mono start stop g.units (start-le-stop start stop rs b),
)
