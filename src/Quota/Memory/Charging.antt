-- ===== src/Quota/Memory/Charging.antt =====
-- What consuming from a key's slot does to the debts of the shard, while the other threads only pin,
-- raise floors and touch.
use orbitive.Prelude.{
  ℕ, zero, suc, ◌≡◌, ◌≢◌, refl, ◌∙◌, Bool, true, false, Option, none, some, ◌==◌, if◌then◌else◌,
  arith, Result, ok, err,
}
use orbitive.Quota.Contract.{Error, Duration}
use orbitive.Quota.Gcra.{
  Gcra, Prepared, Outcome, allowed, limited, Captured, prepare, scale, retry_after, evaluate,
}
use orbitive.Quota.Gcra.Serve.{serve, kept}
use orbitive.Quota.Retention.{Retention}
use orbitive.Quota.Memory.{Shard, World, Machine, Done, andthen, lift, set_tat, exchanged, on}
use orbitive.Quota.Memory.Words.{commit, assess, round, conclude, answer_of}
use orbitive.Quota.Memory.Sampling.{request, Sampled, Assesses, assess-Assesses}
use orbitive.Quota.Memory.Calm.{Same, Same-refl, Same-trans, Calm, Leaves, assess-Same}

-- One slot's arrival time has become `tat`; no other debt has changed.
pub record Taken (i tat : ℕ) (s t : Shard) : Type 0 where
  pub count : t.slot_count ≡ s.slot_count
  pub identity : (j : ℕ) → (t.slots j).identity ≡ (s.slots j).identity
  pub charged : (t.slots i).tat ≡ tat
  pub others : (j : ℕ) → j ≢ i → (t.slots j).tat ≡ (s.slots j).tat

pub Same-Taken : {i tat : ℕ} {s t u : Shard} → Same s t → Taken i tat t u → Taken i tat s u
Same-Taken a b = record {
  count = b.count ∙ a.count;
  identity = λ j. b.identity j ∙ a.identity j;
  charged = b.charged;
  others = λ j h. b.others j h ∙ a.tat j;
}

pub Taken-Same : {i tat : ℕ} {s t u : Shard} → Taken i tat s t → Same t u → Taken i tat s u
Taken-Same {i = i} a b = record {
  count = b.count ∙ a.count;
  identity = λ j. b.identity j ∙ a.identity j;
  charged = b.tat i ∙ a.charged;
  others = λ j h. b.tat j ∙ a.others j h;
}

set_tat-Taken : (i tat : ℕ) (s : Shard) → Taken i tat s (set_tat i tat s)
set_tat-Taken i tat s = record {
  count = refl;
  identity = λ j. ground arith;
  charged = ground arith;
  others = λ j h. ground arith;
}

module _ (w : World) (g : Gcra) where
  serve-limited :
      (p : Prepared) (cost raw now previous debt : ℕ)
      → prepare g cost ≡ ok p
      → scale g raw ≡ ok now
      → evaluate p now (some previous) ≡ ok (limited debt)
      → serve g (some previous) (request raw cost) ≡ ok (some previous, false)
  unfolding serve
  serve-limited p cost raw now previous debt prepared scaled evaluated =
      rw (prepared, scaled, evaluated) refl

  pub serve-allowed :
      (p : Prepared) (cost raw now tat : ℕ) (previous : Option ℕ)
      → prepare g cost ≡ ok p
      → scale g raw ≡ ok now
      → evaluate p now previous ≡ ok (allowed tat)
      → serve g previous (request raw cost) ≡ ok (some tat, true)
  unfolding serve
  serve-allowed p cost raw now tat previous prepared scaled evaluated =
      rw (prepared, scaled, evaluated) refl

  -- How an answer from the key's slot `i` is related to the debts before and after it.
  abbrev pub Charges : ℕ → ℕ → Shard → Shard → Result Error (Captured × ℕ) → Type 0
  Charges cost i s t (err e) = Same s t
  Charges cost i s t (ok (Captured.limited wait, left)) =
      ((raw : ℕ) × (now : ℕ) × Sampled w g raw now
        × (serve g (some (s.slots i).tat) (request raw cost) ≡ ok (some (s.slots i).tat, false)))
      × Same s t
  Charges cost i s t (ok (Captured.allowed now tat, left)) =
      ((raw : ℕ) × Sampled w g raw now
        × (serve g (some (s.slots i).tat) (request raw cost) ≡ ok (some tat, true)))
      × Taken i tat s t

  abbrev Committed : ℕ → ℕ → Shard → Done Bool → Type 0
  Committed i next s (n, err e) = Same s n.shard
  Committed i next s (n, ok (true, left)) = Taken i next s n.shard
  Committed i next s (n, ok (false, left)) = Same s n.shard

  module _ (calm : Calm w) where
    commit-Committed :
        (i previous next budget : ℕ) (m : Machine)
        → Committed i next m.shard (commit w i previous next budget m)
    unfolding commit
    commit-Committed i previous next zero m = Same-refl m.shard
    commit-Committed i previous next (suc left) m = split (w.weak left) (calm left)
      where
        tried :
            (b : Bool)
            → Committed i next m.shard
                (if b then (on (set_tat i next) m, ok (true, left)) else (m, ok (false, left)))
        tried true = set_tat-Taken i next m.shard
        tried false = Same-refl m.shard

        split :
            (o : Option (Shard → Shard))
            → ((peers : Shard → Shard) → o ≡ some peers → (t : Shard) → Same t (peers t))
            → Committed i next m.shard (
                exchanged o
                  (if (m.shard.slots i).tat == previous
                    then (on (set_tat i next) m, ok (true, left))
                    else (m, ok (false, left)))
                  (λ n. (n, ok (false, left)))
                  m)
        split none quiet = tried ((m.shard.slots i).tat == previous)
        split (some peers) quiet = quiet peers refl m.shard

    -- A round ends with an answer, or leaves the debts alone for the next one.
    abbrev pub Rounds : ℕ → ℕ → Shard → Done (Option Captured) → Type 0
    Rounds cost i s (n, err e) = Same s n.shard
    Rounds cost i s (n, ok (none, left)) = Same s n.shard
    Rounds cost i s (n, ok (some answer, left)) = Charges cost i s n.shard (ok (answer, left))

    module _ (p : Prepared) (cost : ℕ) (prepared : prepare g cost ≡ ok p) where
      conclude-Rounds :
          (i left : ℕ) (s : Shard) (m : Machine) (now : ℕ) (outcome : Outcome)
          → Same s m.shard
          → ((raw : ℕ) × Sampled w g raw now)
          → evaluate p now (some (s.slots i).tat) ≡ ok outcome
          → Rounds cost i s (conclude w g i (s.slots i).tat (now, outcome) left m)
      conclude-Rounds i left s m now (limited debt) same (raw, (k, read, scaled)) evaluated =
          split (retry_after g debt)
        where
          split :
              (wait : Result Error Duration)
              → Rounds cost i s (
                  andthen
                    (lift wait left m)
                    (λ wait left m. (m, ok (some (Captured.limited wait), left))))
          split (err e) = same
          split (ok wait) = (
            (
              raw,
              now,
              (k, read, scaled),
              serve-limited p cost raw now (s.slots i).tat debt prepared scaled evaluated,
            ),
            same,
          )
      conclude-Rounds i left s m now (allowed tat) same (raw, (k, read, scaled)) evaluated =
          split (commit w i (s.slots i).tat tat left m)
            (commit-Committed i (s.slots i).tat tat left m)
        where
          split :
              (d : Done Bool)
              → Committed i tat m.shard d
              → Rounds cost i s (andthen d (λ done left m. (m, ok (answer_of now tat done, left))))
          split (n, err e) kept = Same-trans same kept
          split (n, ok (true, left)) taken = (
            (
              raw,
              (k, read, scaled),
              serve-allowed p cost raw now tat (some (s.slots i).tat) prepared scaled evaluated,
            ),
            Same-Taken same taken,
          )
          split (n, ok (false, left)) kept = Same-trans same kept

      pub round-Rounds :
          (r : Retention) (i budget : ℕ) (m : Machine)
          → Rounds cost i m.shard (round w r g p i budget m)
      unfolding round
      round-Rounds r i budget m =
          split (assess w r g p i (m.shard.slots i).tat budget m)
            (assess-Same w calm r g p i (m.shard.slots i).tat budget m)
            (assess-Assesses w g r p i (m.shard.slots i).tat budget m)
        where
          split :
              (d : Done (ℕ × Outcome))
              → Leaves m.shard d
              → Assesses w g p (m.shard.slots i).tat d
              → Rounds cost i m.shard (andthen d (conclude w g i (m.shard.slots i).tat))
          split (n, err e) same h = same
          split (n, ok ((now, outcome), left)) same (sampled, evaluated) =
              conclude-Rounds i left m.shard n now outcome same sampled evaluated
