-- ===== src/Quota/Memory/Consuming.antt =====
-- All the rounds of a consumption: what it answers, and the debts it leaves.
use orbitive.Prelude.{
  ℕ, zero, suc, ◌≡◌, refl, subst, true, false, Option, none, some, Result, ok, err,
}
use orbitive.Quota.Contract.{Error}
use orbitive.Quota.Gcra.{Gcra, Prepared, Captured, prepare}
use orbitive.Quota.Gcra.Serve.{serve}
use orbitive.Quota.Retention.{Retention}
use orbitive.Quota.Memory.{Shard, World, Machine, Done}
use orbitive.Quota.Memory.Words.{round, rounds, consume, continue, returned, released}
use orbitive.Quota.Memory.Calm.{Same, Same-trans, Calm, drop_pin-Same}
use orbitive.Quota.Memory.Charging.{Charges, Taken-Same, Same-Taken, Rounds, round-Rounds}
use orbitive.Quota.Memory.Sampling.{request}

some_injective : {A : Type 0} {a b : A} → some a ≡ some b → a ≡ b
some_injective h = cc

module _ (w : World) (g : Gcra) where
  Same-Charges :
      (cost i : ℕ) {s t : Shard} (u : Shard) (r : Result Error (Captured × ℕ))
      → Same s t
      → Charges w g cost i t u r
      → Charges w g cost i s u r
  Same-Charges cost i u (err e) same c = Same-trans same c
  Same-Charges cost i u (ok (Captured.limited wait, left)) same ((raw, now, sampled, served), c) = (
    (
      raw,
      now,
      sampled,
      subst (λ x. serve g (some x) (request raw cost) ≡ ok (some x, false)) (same.tat i) served,
    ),
    Same-trans same c,
  )
  Same-Charges cost i u (ok (Captured.allowed now tat, left)) same ((raw, sampled, served), c) = (
    (
      raw,
      sampled,
      subst (λ x. serve g (some x) (request raw cost) ≡ ok (some tat, true)) (same.tat i) served,
    ),
    Same-Taken same c,
  )

  Charges-Same :
      (cost i : ℕ) (s : Shard) {t u : Shard} (r : Result Error (Captured × ℕ))
      → Charges w g cost i s t r
      → Same t u
      → Charges w g cost i s u r
  Charges-Same cost i s (err e) c same = Same-trans c same
  Charges-Same cost i s (ok (Captured.limited wait, left)) (served, c) same =
      (served, Same-trans c same)
  Charges-Same cost i s (ok (Captured.allowed now tat, left)) (served, c) same =
      (served, Taken-Same c same)

  module _ (calm : Calm w) (p : Prepared) (cost : ℕ) (prepared : prepare g cost ≡ ok p)
      (r : Retention) where
    rounds-Charges :
        (i fuel budget : ℕ) (m : Machine) (done : Done Captured)
        → rounds w r g p i fuel budget m ≡ some done
        → Charges w g cost i m.shard done.0.shard done.1
    unfolding rounds
    rounds-Charges i zero budget m done h = cc
    rounds-Charges i (suc fuel) budget m done h =
        split (round w r g p i budget m) (round-Rounds w g calm p cost prepared r i budget m) h
          (λ left n. rounds-Charges i fuel left n done)
      where
        split :
            (d : Done (Option Captured))
            → Rounds w g calm cost i m.shard d
            → continue d (λ left m. rounds w r g p i fuel left m) ≡ some done
            → ((left : ℕ) (n : Machine)
                → rounds w r g p i fuel left n ≡ some done
                → Charges w g cost i n.shard done.0.shard done.1)
            → Charges w g cost i m.shard done.0.shard done.1
        split (n, err e) kept h later =
            subst (λ d. Charges w g cost i m.shard d.0.shard d.1) (some_injective h) kept
        split (n, ok (some answer, left)) kept h later =
            subst (λ d. Charges w g cost i m.shard d.0.shard d.1) (some_injective h) kept
        split (n, ok (none, left)) kept h later =
            Same-Charges cost i done.0.shard done.1 kept (later left n h)

    pub consume-Charges :
        (i budget : ℕ) (m : Machine)
        → let done = consume w r g p i budget m in Charges w g cost i m.shard done.0.shard done.1
    unfolding consume
    consume-Charges i budget m =
        split (rounds w r g p i (suc budget) budget m)
          (λ done. rounds-Charges i (suc budget) budget m done)
      where
        split :
            (o : Option (Done Captured))
            → ((done : Done Captured)
                → o ≡ some done
                → Charges w g cost i m.shard done.0.shard done.1)
            → let done = released i (returned m o) in Charges w g cost i m.shard done.0.shard done.1
        split none h = drop_pin-Same i m
        split (some done) h =
            Charges-Same cost i m.shard done.1 (h done refl) (drop_pin-Same i done.0)
