-- ===== src/Quota/Retention/Choice.antt =====
-- Which slot the scan of a probe window chooses.
use orbitive.Prelude.{
  ◌≤◌, ◌≡◌, ◌⊎◌, inl, inr, refl, true, false, List, [], ◌∷◌, Option, none, some, arith, ltb,
  if◌then◌else◌, ok, err, sym, ap, ◌∙◌, Bool-cases, tests,
}
use orbitive.Quota.Contract.{capacity_full}
use orbitive.Quota.Retention.{
  Retention, strict, guard, Candidate, Selection, Seen, new_selection, or_else, consider, finish,
  scan, select,
}

abbrev pub All {ℓ} : (Seen → Type ℓ) → List Seen → Type ℓ
All P [] = Unit
All P (x ∷ xs) = P x × All P xs

abbrev pub free_candidate : Seen → Candidate
free_candidate x = record { index = x.index; generation = x.generation; observed = none }

abbrev pub cold_candidate : Seen → Candidate
cold_candidate x = record {
  index = x.index;
  generation = x.generation;
  observed = some x.observation;
}

-- The first replenished slot of the window.
pub first_free : List Seen → Option Candidate
first_free [] = none
first_free (x ∷ xs) = if x.replenished then some (free_candidate x) else first_free xs

abbrev pub Among : Seen → List Seen → Type 0
Among y [] = ⊥
Among y (x ∷ xs) = (x ≡ y) ⊎ Among y xs

abbrev pub Coldest : Seen → List Seen → Type 0
Coldest y xs = All (λ x. y.observation.seen ≤ x.observation.seen) xs

scan-replenished :
    (s : Selection) (xs : List Seen)
    → (scan s xs).replenished ≡ or_else s.replenished (first_free xs)
unfolding scan consider first_free
scan-replenished s [] = ground arith
scan-replenished s (x ∷ xs) =
    ground
      (arith, scan-replenished (consider s x.index x.generation x.replenished x.observation) xs)

scan-strict :
    (s : Selection) (xs : List Seen)
    → s.retention ≡ strict
    → s.cold ≡ none
    → (scan s xs).cold ≡ none
unfolding scan consider
scan-strict s [] r e = e
scan-strict s (x ∷ xs) r e =
    ground (arith, scan-strict (consider s x.index x.generation x.replenished x.observation) xs)

abbrev Keeps : Seen → Selection → List Seen → Type 0
Keeps y s xs =
    (z : Seen) × ((z ≡ y) ⊎ Among z xs)
    × ((scan s xs).cold ≡ some (cold_candidate z))
    × (z.observation.seen ≤ y.observation.seen)
    × Coldest z xs

not_free :
    (x : Seen) (xs : List Seen)
    → first_free (x ∷ xs) ≡ none
    → (x.replenished ≡ false) × (first_free xs ≡ none)
unfolding first_free
not_free x xs f = ground arith

-- A live slot replaces the coldest so far exactly if it was seen strictly earlier.
consider-live :
    (y x : Seen) (s : Selection)
    → s.retention ≡ guard
    → s.cold ≡ some (cold_candidate y)
    → x.replenished ≡ false
    → consider s x.index x.generation x.replenished x.observation ≡ (
        if ltb x.observation.seen y.observation.seen
        then record s { cold = some (cold_candidate x) }
        else s)
unfolding consider
consider-live y x s r e live = ground arith

module _ (y x : Seen) (s : Selection) (xs : List Seen) (r : s.retention ≡ guard)
    (e : s.cold ≡ some (cold_candidate y)) (live : x.replenished ≡ false) where
  cold-older :
      ltb x.observation.seen y.observation.seen ≡ true
      → (scan s (x ∷ xs)).cold ≡ (scan (record s { cold = some (cold_candidate x) }) xs).cold
  unfolding scan
  cold-older h = ap (λ t. (scan t xs).cold) (rw (consider-live y x s r e live, h))

  cold-newer :
      ltb x.observation.seen y.observation.seen ≡ false → (scan s (x ∷ xs)).cold ≡ (scan s xs).cold
  unfolding scan
  cold-newer h = ap (λ t. (scan t xs).cold) (rw (consider-live y x s r e live, h))

Among-later :
    {x z : Seen} (y : Seen) (xs : List Seen)
    → (z ≡ x) ⊎ Among z xs
    → (z ≡ y) ⊎ ((x ≡ z) ⊎ Among z xs)
Among-later y xs (inl e) = inr (inl (sym e))
Among-later y xs (inr m) = inr (inr m)

Among-past :
    {y z : Seen} (x : Seen) (xs : List Seen)
    → (z ≡ y) ⊎ Among z xs
    → (z ≡ y) ⊎ ((x ≡ z) ⊎ Among z xs)
Among-past x xs (inl e) = inl e
Among-past x xs (inr m) = inr (inr m)

scan-guard :
    (y : Seen) (s : Selection) (xs : List Seen)
    → s.retention ≡ guard
    → s.cold ≡ some (cold_candidate y)
    → first_free xs ≡ none
    → Keeps y s xs
unfolding scan
scan-guard y s [] r e f = (y, inl refl, e, omega arith, tt)
scan-guard y s (x ∷ xs) r e f =
    let (live, f') = not_free x xs f in
    elim (Bool-cases (ltb x.observation.seen y.observation.seen)) [
      | inl older ↦
          let (z, m, k, le, all) =
            scan-guard x (record s { cold = some (cold_candidate x) }) xs r refl f' in
          (
            z,
            Among-later y xs m,
            cold-older y x s xs r e live older ∙ k,
            omega (tests, older),
            (le, all),
          )
      | inr newer ↦
          let (z, m, k, le, all) = scan-guard y s xs r e f' in
          (z, Among-past x xs m, cold-newer y x s xs r e live newer ∙ k, le, (ground arith, all))
    ]

Among-here : {x z : Seen} (xs : List Seen) → (z ≡ x) ⊎ Among z xs → Among z (x ∷ xs)
Among-here xs (inl e) = inl (sym e)
Among-here xs (inr m) = inr m

finish-cold :
    (t : Selection) (c : Candidate) → t.replenished ≡ none → t.cold ≡ some c → finish t ≡ ok c
unfolding finish
finish-cold t c r e = rw (r, e)

cold-first :
    (x : Seen) (xs : List Seen)
    → x.replenished ≡ false
    → (scan (new_selection guard) (x ∷ xs)).cold
      ≡ (scan (record (new_selection guard) { cold = some (cold_candidate x) }) xs).cold
unfolding scan consider new_selection
cold-first x xs live = ap (λ t. (scan t xs).cold) (first x live)
  where
    first :
        (x : Seen)
        → x.replenished ≡ false
        → consider (new_selection guard) x.index x.generation x.replenished x.observation
          ≡ record (new_selection guard) { cold = some (cold_candidate x) }
    first x live = ground arith

choose :
    (x : Seen) (xs : List Seen)
    → first_free (x ∷ xs) ≡ none
    → (z : Seen) × Among z (x ∷ xs)
      × (select guard (x ∷ xs) ≡ ok (cold_candidate z))
      × Coldest z (x ∷ xs)
unfolding select new_selection
choose x xs f =
    let (live, f') = not_free x xs f in
    let s = record (new_selection guard) { cold = some (cold_candidate x) } in
    let (z, m, k, le, all) = scan-guard x s xs refl refl f' in
    (
      z,
      Among-here xs m,
      finish-cold _ _ (scan-replenished (new_selection guard) (x ∷ xs) ∙ f)
          (cold-first x xs live ∙ k),
      (le, all),
    )

-- The choice over a probe window, `x` the first slot of it and `xs` the others. A replenished slot
-- is taken if there is one, the first in probe order. Otherwise a strict store refuses, and a guard
-- gives up a live slot of the window that no other was seen before, and names what it saw there.
pub select_lem :
    (x : Seen) (xs : List Seen)
    → ((r : Retention) (c : Candidate) → first_free (x ∷ xs) ≡ some c → select r (x ∷ xs) ≡ ok c)
      × (first_free (x ∷ xs) ≡ none → select strict (x ∷ xs) ≡ err capacity_full)
      × (first_free (x ∷ xs) ≡ none
          → (z : Seen) × Among z (x ∷ xs)
            × (select guard (x ∷ xs) ≡ ok (cold_candidate z))
            × Coldest z (x ∷ xs))
unfolding select finish new_selection
select_lem x xs = (
  λ r c f. rw (scan-replenished (new_selection r) (x ∷ xs), f),
  λ f. rw (
    scan-replenished (new_selection strict) (x ∷ xs),
    f,
    scan-strict (new_selection strict) (x ∷ xs) refl refl,
  ),
  λ f. choose x xs f,
)
