-- ===== src/Lock/Fence.antt =====
-- lock/src/fence.rs: the high-water mark that a resource keeps of the tenures it has seen.
use orbitive.Prelude.{ℕ, ◌≤◌, ◌≡◌, ◌↔◌, max, Bool, true, List, [], ◌∷◌, leb, le→leb, arith}

pub record Fence : Type 0 where
  pub high_water : ℕ

-- `Fence::with_high_water`; `Fence::new` starts at 0.
abbrev pub with_high_water : ℕ → Fence
with_high_water token = record { high_water = token }

-- `Fence::admit`: `fetch_max` returns the mark before.
pub admit : Fence → ℕ → Fence × Bool
admit f token = (record { high_water = max f.high_water token }, leb f.high_water token)

-- The marks after a run of admissions by any holders, in the order of their `fetch_max`.
pub admit_all : Fence → List ℕ → Fence
admit_all f [] = f
admit_all f (t ∷ ts) = admit_all (admit f t).0 ts

abbrev pub AtMost : ℕ → List ℕ → Type 0
AtMost token [] = Unit {0}
AtMost token (t ∷ ts) = (t ≤ token) × AtMost token ts

high_water-le :
    (f : Fence) (token : ℕ) (ts : List ℕ)
    → ((admit_all f ts).high_water ≤ token) ↔ ((f.high_water ≤ token) × AtMost token ts)
unfolding admit_all admit
high_water-le f token [] = (λ h. (h, tt), λ h. h.0)
high_water-le f token (t ∷ ts) =
    let rest = high_water-le (admit f t).0 token ts in
    (λ h. let r = rest.0 h in (omega arith, (omega arith, r.1)), λ h. rest.1 (omega arith, h.1.1))

-- A resource that started at a mark and has seen any tenures, admitted or not, admits a holder
-- exactly if its token is below neither the mark nor any tenure seen. So a stale holder is refused
-- for good, and the newest holder is always admitted, however often it comes.
pub admit_iff :
    (mark token : ℕ) (ts : List ℕ)
    → ((admit (admit_all (with_high_water mark) ts) token).1 ≡ true)
      ↔ ((mark ≤ token) × AtMost token ts)
unfolding admit
admit_iff mark token ts =
    let (to, from) = high_water-le (with_high_water mark) token ts in
    (λ h. to (ground arith), λ h. le→leb _ _ (from h))
