-- ===== src/Quota/Memory/Rounds.antt =====
-- The attempts an admission has bound its loops, whatever the other threads do meanwhile.
use orbitive.Prelude.{
  ℕ, zero, suc, ◌<◌, ◌≤◌, ◌≡◌, refl, Bool, true, false, Option, none, some, if◌then◌else◌, arith,
  Result, ok, err,
}
use orbitive.Quota.Contract.{Error, Duration}
use orbitive.Quota.Gcra.{
  Gcra, Prepared, Outcome, allowed, limited, Captured, scale, retry_after, evaluate,
}
use orbitive.Quota.Retention.{Retention, strict, guard}
use orbitive.Quota.Memory.{Shard, World, Machine, Done, andthen, lift, exchanged}
use orbitive.Quota.Memory.Words.{
  raise, sample, touch, commit, assess, round, rounds, continue, conclude, answer_of, if_guard,
  tick,
}

abbrev leftover : {A : Type 0} → Result Error (A × ℕ) → ℕ
leftover (err e) = 0
leftover (ok (a, left)) = left

-- No more than `b` attempts are left.
record Within {A : Type 0} (b : ℕ) (d : Done A) : Type 0 where
  bound : leftover d.1 ≤ b

stopped : {A : Type 0} (b : ℕ) (m : Machine) (e : Error) → Within {A = A} b (m, err e)
stopped b m e = record { bound = omega arith }

given :
    {A : Type 0} (b : ℕ) (m : Machine) (a : A) (left : ℕ) → left ≤ b → Within b (m, ok (a, left))
given b m a left h = record { bound = h }

andthen-Within :
    {A B : Type 0} (b c : ℕ) (d : Done A) (next : A → ℕ → Machine → Done B)
    → Within b d
    → ((a : A) (left : ℕ) (m : Machine) → left ≤ b → Within c (next a left m))
    → Within c (andthen d next)
andthen-Within b c (m, err e) next first rest = stopped c m e
andthen-Within b c (m, ok (a, left)) next first rest = rest a left m first.bound

lift-Within :
    {A : Type 0} (b : ℕ) (r : Result Error A) (left : ℕ) (m : Machine)
    → left ≤ b
    → Within b (lift r left m)
lift-Within b (err e) left m h = stopped b m e
lift-Within b (ok a) left m h = given b m a left h

if-Within :
    {A : Type 0} (b : ℕ) (c : Bool) (x y : Done A)
    → Within b x
    → Within b y
    → Within b (if c then x else y)
if-Within b true x y hx hy = hx
if-Within b false x y hx hy = hy

exchanged-Within :
    {A : Type 0} (b : ℕ) (o : Option (Shard → Shard)) (done : Done A) (retry : Machine → Done A)
    (m : Machine)
    → Within b done
    → ((n : Machine) → Within b (retry n))
    → Within b (exchanged o done retry m)
exchanged-Within b none done retry m now later = now
exchanged-Within b (some peers) done retry m now later = later _

module _ (w : World) where
  raise-Within : (now b budget : ℕ) (m : Machine) → budget ≤ b → Within b (raise w now budget m)
  unfolding raise
  raise-Within now b zero m h = if-Within b _ _ _ (stopped b m _) (given b m tt zero h)
  raise-Within now b (suc left) m h =
      if-Within b _ _ _
        (exchanged-Within b (w.weak left) _ (raise w now left) m (given b _ tt left (omega arith))
          (λ n. raise-Within now b left n (omega arith)))
        (given b m tt (suc left) h)

  touch-Within : (i now b budget : ℕ) (m : Machine) → budget ≤ b → Within b (touch w i now budget m)
  unfolding touch
  touch-Within i now b zero m h = if-Within b _ _ _ (stopped b m _) (given b m tt zero h)
  touch-Within i now b (suc left) m h =
      if-Within b _ _ _
        (exchanged-Within b (w.weak left) _ (touch w i now left) m (given b _ tt left (omega arith))
          (λ n. touch-Within i now b left n (omega arith)))
        (given b m tt (suc left) h)

  sample-Within : (g : Gcra) (budget : ℕ) (m : Machine) → Within budget (sample w g budget m)
  unfolding sample
  sample-Within g budget m =
      andthen-Within budget budget (lift (w.clock m.readings) budget (tick m)) _
        (lift-Within budget (w.clock m.readings) budget (tick m) (omega arith))
        (λ now left n h. if-Within budget _ _ _ (stopped budget n _) (
          andthen-Within budget budget (lift (scale g now) left n) _
            (lift-Within budget (scale g now) left n h)
            (λ scaled left n h.
              andthen-Within budget budget (raise w now left n) _ (raise-Within now budget left n h)
                (λ done left n h. given budget n scaled left h))))

  if_guard-Within :
      (r : Retention) (i now b left : ℕ) (m : Machine)
      → left ≤ b
      → Within b (if_guard r (touch w i now left m) (m, ok (tt, left)))
  if_guard-Within guard i now b left m h = touch-Within i now b left m h
  if_guard-Within strict i now b left m h = given b m tt left h

  assess-Within :
      (r : Retention) (g : Gcra) (p : Prepared) (i previous budget : ℕ) (m : Machine)
      → Within budget (assess w r g p i previous budget m)
  unfolding assess
  assess-Within r g p i previous budget m =
      andthen-Within budget budget (sample w g budget m) _ (sample-Within g budget m)
        (λ now left n h.
          andthen-Within budget budget (if_guard r (touch w i now left n) (n, ok (tt, left))) _
            (if_guard-Within r i now budget left n h)
            (λ done left n h.
              andthen-Within budget budget (lift (evaluate p now (some previous)) left n) _
                (lift-Within budget (evaluate p now (some previous)) left n h)
                (λ outcome left n h. given budget n (now, outcome) left h)))

  -- Another round is left fewer attempts than the one before it.
  abbrev Shrinks : ℕ → Done (Option Captured) → Type 0
  Shrinks b (m, err e) = Unit {0}
  Shrinks b (m, ok (none, left)) = left < b
  Shrinks b (m, ok (some a, left)) = Unit {0}

  commit_failed :
      (m : Machine) (b now tat left : ℕ) (done : Bool)
      → left < b
      → Shrinks b (m, ok (answer_of now tat done, left))
  commit_failed m b now tat left true h = tt
  commit_failed m b now tat left false h = h

  conclude-Shrinks :
      (g : Gcra) (i previous b : ℕ) (assessed : ℕ × Outcome) (left : ℕ) (m : Machine)
      → left ≤ b
      → Shrinks b (conclude w g i previous assessed left m)
  unfolding commit
  conclude-Shrinks g i previous b (now, limited debt) left m h = split (retry_after g debt)
    where
      split :
          (wait : Result Error Duration)
          → Shrinks b (
              andthen
                (lift wait left m)
                (λ wait left m. (m, ok (some (Captured.limited wait), left))))
      split (err e) = tt
      split (ok wait) = tt
  conclude-Shrinks g i previous b (now, allowed tat) zero m h = tt
  conclude-Shrinks g i previous b (now, allowed tat) (suc left) m h = ground arith

  round-Shrinks :
      (r : Retention) (g : Gcra) (p : Prepared) (i budget : ℕ) (m : Machine)
      → Shrinks budget (round w r g p i budget m)
  unfolding round
  round-Shrinks r g p i budget m =
      split (assess w r g p i (m.shard.slots i).tat budget m)
        (assess-Within r g p i (m.shard.slots i).tat budget m)
    where
      split :
          (d : Done (ℕ × Outcome))
          → Within budget d
          → Shrinks budget (andthen d (conclude w g i (m.shard.slots i).tat))
      split (n, err e) h = tt
      split (n, ok (assessed, left)) h =
          conclude-Shrinks g i (m.shard.slots i).tat budget assessed left n h.bound

  -- One round more than the attempts given is enough for the rounds of `consume` to end, however the
  -- exchanges end and whatever the other threads do to the shard meanwhile.
  pub rounds-Returns :
      (r : Retention) (g : Gcra) (p : Prepared) (i fuel budget : ℕ) (m : Machine)
      → budget < fuel
      → (done : Done Captured) × (rounds w r g p i fuel budget m ≡ some done)
  unfolding rounds
  rounds-Returns r g p i zero budget m h = absurd (omega arith)
  rounds-Returns r g p i (suc fuel) budget m h =
      split (round w r g p i budget m) (round-Shrinks r g p i budget m)
        (λ left n less. rounds-Returns r g p i fuel left n (omega arith))
    where
      split :
          (d : Done (Option Captured))
          → Shrinks budget d
          → ((left : ℕ) (n : Machine)
              → left < budget
              → (done : Done Captured) × (rounds w r g p i fuel left n ≡ some done))
          → (done : Done Captured) × (continue d (λ left m. rounds w r g p i fuel left m)
              ≡ some done)
      split (n, err e) s later = (_, refl)
      split (n, ok (some answer, left)) s later = (_, refl)
      split (n, ok (none, left)) s later = later left n s
