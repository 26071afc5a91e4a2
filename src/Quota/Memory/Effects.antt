-- ===== src/Quota/Memory/Effects.antt =====
-- What an admission may do to the debts of a shard, and the checks before a slot is given away.
use orbitive.Prelude.{
  ℕ, ◌+◌, ◌≡◌, ◌≢◌, ◌≤◌, refl, sym, ◌&&◌, ◌⊎◌, ap, subst, ◌∙◌, not, ◌==◌, Bool, true, false, Option,
  none, some, arith, Result, ok, err, inl, inr, if◌then◌else◌,
}
use orbitive.Quota.Contract.{Error, Key, busy}
use orbitive.Quota.Gcra.{Captured}
use orbitive.Quota.Gcra.Serve.{serve}
use orbitive.Quota.Retention.{Retention, strict, guard, Candidate, Observation}
use orbitive.Quota.Memory.{
  Slot, Shard, Table, World, Machine, Done, andthen, matches, renamed, set_gate,
}
use orbitive.Quota.Memory.Words.{sample}
use orbitive.Quota.Memory.Admit.{in_use, inspect}
use orbitive.Quota.Memory.Calm.{
  Same, Same-refl, Same-trans, Calm, Leaves, set_slot-Same, sample-Same,
}
use orbitive.Quota.Memory.Charging.{Taken, Taken-Same, Same-Taken}
use orbitive.Quota.Memory.Sampling.{request, Sampled, sample-Samples, Samples}

-- Slot `i` has been given to `key` with the arrival time `tat`; no other slot has changed its debt.
pub record Given (i : ℕ) (key : Key) (tat : ℕ) (s t : Shard) : Type 0 where
  pub count : t.slot_count ≡ s.slot_count
  pub named :
      (t.slots i).identity ≡ renamed (s.slots i).identity ((s.slots i).identity.generation + 1) key
  pub charged : (t.slots i).tat ≡ tat
  pub identity : (j : ℕ) → j ≢ i → (t.slots j).identity ≡ (s.slots j).identity
  pub others : (j : ℕ) → j ≢ i → (t.slots j).tat ≡ (s.slots j).tat

pub Same-Given :
    {i : ℕ} {key : Key} {tat : ℕ} {s v u : Shard}
    → Same s v
    → Given i key tat v u
    → Given i key tat s u
Same-Given {i = i} {key = key} same a = record {
  count = a.count ∙ same.count;
  named = a.named ∙ ap (λ id. renamed id (id.generation + 1) key) (same.identity i);
  charged = a.charged;
  identity = λ j h. a.identity j h ∙ same.identity j;
  others = λ j h. a.others j h ∙ same.tat j;
}

pub Given-Same :
    {i : ℕ} {key : Key} {tat : ℕ} {s v u : Shard}
    → Given i key tat s v
    → Same v u
    → Given i key tat s u
Given-Same {i = i} a same = record {
  count = same.count ∙ a.count;
  named = same.identity i ∙ a.named;
  charged = same.tat i ∙ a.charged;
  identity = λ j h. same.identity j ∙ a.identity j h;
  others = λ j h. same.tat j ∙ a.others j h;
}

-- A slot that may be given away: it was empty, or a strict store has seen its debt repaid.
abbrev pub Vacant : Retention → Slot → ℕ → Type 0
Vacant r s now = s.identity.occupied ≡ true → r ≡ strict → s.tat ≤ now

module _ (w : World) (t : Table) where
  pub gate-Same : (i gate : ℕ) (s : Shard) → Same s (set_gate i gate s)
  gate-Same i gate s = set_slot-Same i (record (s.slots i) { gate = gate }) s refl refl

  in_use_strict :
      (r : Retention) (o : Option Observation) (s : Slot) (previous now : ℕ)
      → in_use r o s previous now ≡ false
      → r ≡ strict
      → previous ≤ now
  unfolding in_use
  in_use_strict strict o s previous now h e = ground arith
  in_use_strict guard o s previous now h e = cc

  -- The checks under the writer, cancelled on an error.
  abbrev pub Inspects : ℕ → Shard → Done ℕ → Type 0
  Inspects i s (n, err e) = Same s n.shard
  Inspects i s (n, ok (now, left)) =
      Same s n.shard
      × ((raw : ℕ) × Sampled w t.algorithm raw now)
      × Vacant t.retention (s.slots i) now

  pub inspect-Inspects :
      (calm : Calm w) (i : ℕ) (c : Candidate) (budget : ℕ) (m : Machine)
      → Inspects i m.shard (inspect w t i c budget m)
  unfolding inspect
  inspect-Inspects calm i c budget m =
      split (not ((m.shard.slots i).identity.generation == c.generation))
    where
      checked :
          (n : Machine) (now left : ℕ) (b used : Bool)
          → Same m.shard n.shard
          → ((raw : ℕ) × Sampled w t.algorithm raw now)
          → (n.shard.slots i).identity.occupied ≡ b
          → in_use t.retention c.observed (n.shard.slots i) (m.shard.slots i).tat now ≡ used
          → Inspects i m.shard (if b && used then (n, err busy) else (n, ok (now, left)))
      checked n now left true true same sampled o u = same
      checked n now left true false same sampled o u =
          (same, sampled, λ occupied strict_store. in_use_strict _ _ _ _ _ u strict_store)
      checked n now left false used same sampled o u =
          (same, sampled, λ occupied strict_store. absurd_bool (occupied_before n same o occupied))
        where
          absurd_bool : false ≡ true → (m.shard.slots i).tat ≤ now
          absurd_bool h = cc

          occupied_before :
              (n : Machine)
              → Same m.shard n.shard
              → (n.shard.slots i).identity.occupied ≡ false
              → (m.shard.slots i).identity.occupied ≡ true
              → false ≡ true
          occupied_before n same o occupied =
              sym o ∙ ap (λ id. id.occupied) (same.identity i) ∙ occupied

      sampled :
          (d : Done ℕ)
          → Leaves m.shard d
          → Samples w t.algorithm d
          → Inspects i m.shard (
              andthen d (λ now left n.
                if (n.shard.slots i).identity.occupied
                  && in_use t.retention c.observed (n.shard.slots i) (m.shard.slots i).tat now
                then (n, err busy)
                else (n, ok (now, left))))
      sampled (n, err e) same h = same
      sampled (n, ok (now, left)) same h = checked n now left _ _ same h refl refl

      split :
          (b : Bool)
          → Inspects i m.shard (
              if b
              then (m, err busy)
              else andthen (sample w t.algorithm budget m) (λ now left n.
                if (n.shard.slots i).identity.occupied
                  && in_use t.retention c.observed (n.shard.slots i) (m.shard.slots i).tat now
                then (n, err busy)
                else (n, ok (now, left))))
      split true = Same-refl m.shard
      split false =
          sampled (sample w t.algorithm budget m) (sample-Same w calm t.algorithm budget m)
            (sample-Samples w t.algorithm budget m)

module _ (w : World) (t : Table) (P : ℕ → Type 0) (Q : Type 0) where
  -- What one admission does to a shard, by its result. Each slot that it is about is one of `P`, and
  -- a slot is given to the key only if `Q`.
  abbrev pub Admits : Key → ℕ → Shard → Shard → Result Error (Captured × ℕ) → Type 0
  Admits key cost s u (err e) = Same s u
  Admits key cost s u (ok (Captured.limited wait, left)) =
      (i : ℕ) × P i
      × (matches (s.slots i).identity key ≡ true)
      × (raw : ℕ) × (now : ℕ) × Sampled w t.algorithm raw now
      × (serve t.algorithm (some (s.slots i).tat) (request raw cost)
          ≡ ok (some (s.slots i).tat, false))
      × Same s u
  Admits key cost s u (ok (Captured.allowed now tat, left)) =
      (raw : ℕ) × Sampled w t.algorithm raw now
      × (((i : ℕ) × P i
            × (matches (s.slots i).identity key ≡ true)
            × (serve t.algorithm (some (s.slots i).tat) (request raw cost) ≡ ok (some tat, true))
            × Taken i tat s u)
          ⊎ ((i : ℕ) × P i
              × Q
              × Vacant t.retention (s.slots i) now
              × (serve t.algorithm none (request raw cost) ≡ ok (some tat, true))
              × Given i key tat s u))

  pub Same-Admits :
      (key : Key) (cost : ℕ) {s v : Shard} (u : Shard) (r : Result Error (Captured × ℕ))
      → Same s v
      → Admits key cost v u r
      → Admits key cost s u r
  Same-Admits key cost u (err e) same a = Same-trans same a
  Same-Admits key cost u (ok (Captured.limited wait, left)) same
        (i, inside, found, raw, now, sampled, served, a) =
      (
        i,
        inside,
        subst (λ id. matches id key ≡ true) (same.identity i) found,
        raw,
        now,
        sampled,
        subst (λ x. serve t.algorithm (some x) (request raw cost) ≡ ok (some x, false)) (same.tat i)
            served,
        Same-trans same a,
      )
  Same-Admits key cost u (ok (Captured.allowed now tat, left)) same
        (raw, sampled, inl (i, inside, found, served, a)) =
      (
        raw,
        sampled,
        inl (
          i,
          inside,
          subst (λ id. matches id key ≡ true) (same.identity i) found,
          subst (λ x. serve t.algorithm (some x) (request raw cost) ≡ ok (some tat, true))
              (same.tat i) served,
          Same-Taken same a,
        ),
      )
  Same-Admits key cost u (ok (Captured.allowed now tat, left)) same
        (raw, sampled, inr (i, inside, q, vacant, served, a)) =
      (
        raw,
        sampled,
        inr (
          i,
          inside,
          q,
          (λ occupied strict_store.
              subst (λ x. x ≤ now) (same.tat i)
                (vacant (ap (λ id. id.occupied) (same.identity i) ∙ occupied) strict_store)),
          served,
          Same-Given same a,
        ),
      )

  pub Admits-Same :
      (key : Key) (cost : ℕ) (s : Shard) {u v : Shard} (r : Result Error (Captured × ℕ))
      → Admits key cost s u r
      → Same u v
      → Admits key cost s v r
  Admits-Same key cost s (err e) a same = Same-trans a same
  Admits-Same key cost s (ok (Captured.limited wait, left))
        (i, inside, found, raw, now, sampled, served, a) same =
      (i, inside, found, raw, now, sampled, served, Same-trans a same)
  Admits-Same key cost s (ok (Captured.allowed now tat, left))
        (raw, sampled, inl (i, inside, found, served, a)) same =
      (raw, sampled, inl (i, inside, found, served, Taken-Same a same))
  Admits-Same key cost s (ok (Captured.allowed now tat, left))
        (raw, sampled, inr (i, inside, q, vacant, served, a)) same =
      (raw, sampled, inr (i, inside, q, vacant, served, Given-Same a same))
