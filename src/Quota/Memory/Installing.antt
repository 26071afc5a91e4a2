-- ===== src/Quota/Memory/Installing.antt =====
-- Giving a slot to a key, and consuming from the slot of a key, as effects of an admission.
use orbitive.Prelude.{
  ℕ, zero, suc, ◌+◌, ◌≡◌, refl, Bool, true, false, none, some, arith, Result, ok, err, inl, inr,
  if◌then◌else◌, checked_add, u64_mod, ltb,
}
use orbitive.Quota.Contract.{Error, Key}
use orbitive.Quota.Gcra.{Prepared, Outcome, allowed, limited, Captured, prepare, evaluate}
use orbitive.Quota.Retention.{Retention, Candidate}
use orbitive.Quota.Gate.{abandon, retire, reserve}
use orbitive.Quota.Memory.{
  Shard, Table, World, Machine, Done, Hold, andthen, lift, matches, set_gate, set_slot, on,
}
use orbitive.Quota.Memory.Words.{consume}
use orbitive.Quota.Memory.Admit.{
  inspect, install, install_held, filled, cancelled, charge_new, write_new, set_structure,
}
use orbitive.Quota.Memory.Calm.{Same, Same-refl, Same-trans, Calm}
use orbitive.Quota.Memory.Effects.{
  Given, Same-Given, Vacant, Admits, Inspects, inspect-Inspects, gate-Same, Same-Admits,
}
use orbitive.Quota.Memory.Charging.{serve-allowed, Charges}
use orbitive.Quota.Memory.Sampling.{Sampled}
use orbitive.Quota.Memory.Consuming.{consume-Charges}

pub structure-Same : (h : Hold) (m : Machine) → Same m.shard (set_structure h m).shard
structure-Same h m = record { count = refl; identity = λ i. refl; tat = λ i. refl }

filled-Given :
    (r : Retention) (i : ℕ) (key : Key) (now tat : ℕ) (s : Shard)
    → Given i key tat s
        (set_slot i (filled r ((s.slots i).identity.generation + 1) key now tat (s.slots i)) s)
filled-Given r i key now tat s = record {
  count = refl;
  named = ground arith;
  charged = ground arith;
  identity = λ j h. ground arith;
  others = λ j h. ground arith;
}

-- The answer of a piece of work, related to the shard it began with.
abbrev pub Ends : World → Table → (ℕ → Type 0) → Type 0 → Key → ℕ → Shard → Done Captured → Type 0
Ends w t P Q key cost s d = Admits w t P Q key cost s d.0.shard d.1

module _ (w : World) (calm : Calm w) (t : Table) (P : ℕ → Type 0) (Q : Type 0) where
  module _ (p : Prepared) (key : Key) (cost : ℕ) (prepared : prepare t.algorithm cost ≡ ok p) where
    write_new-Ends :
        (i now left raw : ℕ) (s : Shard) (m : Machine) (r : Result Error Outcome)
        → Same s m.shard
        → Sampled w t.algorithm raw now
        → P i × Q × Vacant t.retention (s.slots i) now
        → evaluate p now none ≡ r
        → Ends w t P Q key cost s (
            cancelled i (
              andthen
                (lift r left m)
                (write_new t i key ((m.shard.slots i).identity.generation + 1) now)))
    write_new-Ends i now left raw s m (err e) same sampled vacant evaluated =
        Same-trans same (gate-Same w t i (abandon false) m.shard)
    write_new-Ends i now left raw s m (ok (limited debt)) same sampled vacant evaluated =
        Same-trans same (gate-Same w t i (abandon false) m.shard)
    write_new-Ends i now left raw s m (ok (allowed tat)) same (k, read, scaled) (inside, q, vacant)
          evaluated =
        (
          raw,
          (k, read, scaled),
          inr (
            i,
            inside,
            q,
            vacant,
            serve-allowed w t.algorithm p cost raw now tat none prepared scaled evaluated,
            Same-Given same (filled-Given t.retention i key now tat m.shard),
          ),
        )

    charge_new-Ends :
        (i now left raw : ℕ) (s : Shard) (m : Machine)
        → Same s m.shard
        → Sampled w t.algorithm raw now
        → P i × Q × Vacant t.retention (s.slots i) now
        → Ends w t P Q key cost s (
            charge_new t p i key
              (checked_add u64_mod (m.shard.slots i).identity.generation 1)
              now
              left
              m)
    charge_new-Ends i now left raw s m same sampled vacant =
        split (ltb ((m.shard.slots i).identity.generation + 1) u64_mod)
      where
        split :
            (b : Bool)
            → Ends w t P Q key cost s (
                charge_new t p i key
                  (if b then some ((m.shard.slots i).identity.generation + 1) else none)
                  now
                  left
                  m)
        split true =
            write_new-Ends i now left raw s m (evaluate p now none) same sampled vacant refl
        split false = Same-trans same (gate-Same w t i retire m.shard)

    install_held-Ends :
        (c : Candidate) (left : ℕ) (m : Machine)
        → P c.index
        → Q
        → Ends w t P Q key cost m.shard (install_held w t p key c left m)
    unfolding install_held
    install_held-Ends c left m inside q =
        split (inspect w t c.index c left m) (inspect-Inspects w t calm c.index c left m)
      where
        split :
            (d : Done ℕ)
            → Inspects w t c.index m.shard d
            → Ends w t P Q key cost m.shard (
                andthen (cancelled c.index d) (λ now left m.
                  charge_new t p c.index key
                    (checked_add u64_mod (m.shard.slots c.index).identity.generation 1)
                    now
                    left
                    m))
        split (n, err e) same = Same-trans same (gate-Same w t c.index (abandon false) n.shard)
        split (n, ok (now, left)) (same, (raw, sampled), vacant) =
            charge_new-Ends c.index now left raw m.shard n same sampled (inside, q, vacant)

    pub install-Ends :
        (c : Candidate) (budget : ℕ) (m : Machine)
        → P c.index
        → Q
        → Ends w t P Q key cost m.shard (install w t p key c budget m)
    unfolding install
    install-Ends c zero m inside q = Same-refl m.shard
    install-Ends c (suc left) m inside q = split (reserve (m.shard.slots c.index).gate)
      where
        split :
            (r : Result Error ℕ)
            → Ends w t P Q key cost m.shard (
                andthen
                  (lift r left m)
                  (λ gate left m. install_held w t p key c left (on (set_gate c.index gate) m)))
        split (err e) = Same-refl m.shard
        split (ok gate) =
            let reserved = on (set_gate c.index gate) m in
            let done = install_held w t p key c left reserved in
            Same-Admits w t P Q key cost done.0.shard done.1 (gate-Same w t c.index gate m.shard)
              (install_held-Ends c left reserved inside q)

    -- From the slot of the key, an answer of `consume` is one of the admission.
    Charges-Ends :
        (i : ℕ) (s u : Shard) (r : Result Error (Captured × ℕ))
        → P i
        → matches (s.slots i).identity key ≡ true
        → Charges w t.algorithm cost i s u r
        → Admits w t P Q key cost s u r
    Charges-Ends i s u (err e) inside found c = c
    Charges-Ends i s u (ok (Captured.limited wait, left)) inside found
          ((raw, now, sampled, served), c) =
        (i, inside, found, raw, now, sampled, served, c)
    Charges-Ends i s u (ok (Captured.allowed now tat, left)) inside found
          ((raw, sampled, served), c) =
        (raw, sampled, inl (i, inside, found, served, c))

    pub consume-Ends :
        (i left : ℕ) (m : Machine)
        → P i
        → matches (m.shard.slots i).identity key ≡ true
        → Ends w t P Q key cost m.shard (consume w t.retention t.algorithm p i left m)
    consume-Ends i left m inside found =
        let done = consume w t.retention t.algorithm p i left m in
        Charges-Ends i m.shard done.0.shard done.1 inside found
          (consume-Charges w t.algorithm calm p cost prepared t.retention i left m)
