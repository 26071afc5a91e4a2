-- ===== src/Quota/Memory/Calm.antt =====
-- What the walks, samples and touches of an admission leave alone: the identities and the arrival times of the slots.
use orbitive.Prelude.{
  ℕ, zero, suc, ◌≡◌, refl, ◌∙◌, Bool, true, false, Option, none, some, if◌then◌else◌, arith, Result,
  ok, err,
}
use orbitive.Quota.Contract.{Error}
use orbitive.Quota.Gcra.{Gcra, Prepared, scale, evaluate}
use orbitive.Quota.Retention.{Retention, strict, guard}
use orbitive.Quota.Gate.{Attempt, attempt, refused, absent, exchange}
use orbitive.Quota.Memory.{
  Slot, Shard, World, Machine, Done, andthen, lift, set_slot, on, drop_pin, pin, set_gate,
  exchanged, gated,
}
use orbitive.Quota.Memory.Words.{raise, sample, touch, assess, tick, if_guard}

-- The same debts: every slot has the identity and the arrival time it had.
pub record Same (s t : Shard) : Type 0 where
  pub count : t.slot_count ≡ s.slot_count
  pub identity : (i : ℕ) → (t.slots i).identity ≡ (s.slots i).identity
  pub tat : (i : ℕ) → (t.slots i).tat ≡ (s.slots i).tat

-- While an exchange is refused, the other threads do no more than pin slots, raise floors and touch.
abbrev pub Calm : World → Type 0
Calm w = (k : ℕ) (peers : Shard → Shard) → w.weak k ≡ some peers → (s : Shard) → Same s (peers s)

pub Same-refl : (s : Shard) → Same s s
Same-refl s = record { count = refl; identity = λ i. refl; tat = λ i. refl }

pub Same-trans : {s t u : Shard} → Same s t → Same t u → Same s u
Same-trans a b = record {
  count = b.count ∙ a.count;
  identity = λ i. b.identity i ∙ a.identity i;
  tat = λ i. b.tat i ∙ a.tat i;
}

-- A write to a slot that is not to its identity or its arrival time.
pub set_slot-Same :
    (i : ℕ) (slot : Slot) (s : Shard)
    → slot.identity ≡ (s.slots i).identity
    → slot.tat ≡ (s.slots i).tat
    → Same s (set_slot i slot s)
set_slot-Same i slot s id at = record {
  count = refl;
  identity = λ j. ground (arith, id);
  tat = λ j. ground (arith, at);
}

-- A proof about a chain splits on how its first part ends.
pub andthen_rule :
    {A B : Type 0} (Q : Done B → Type 0) (d : Done A) (next : A → ℕ → Machine → Done B)
    → ((m : Machine) (e : Error) → d ≡ (m, err e) → Q (m, err e))
    → ((m : Machine) (a : A) (left : ℕ) → d ≡ (m, ok (a, left)) → Q (next a left m))
    → Q (andthen d next)
andthen_rule Q (m, err e) next bad good = bad m e refl
andthen_rule Q (m, ok (a, left)) next bad good = good m a left refl

abbrev pub Leaves : {A : Type 0} → Shard → Done A → Type 0
Leaves s d = Same s d.0.shard

pub andthen-Leaves :
    {A B : Type 0} (s : Shard) (d : Done A) (next : A → ℕ → Machine → Done B)
    → Leaves s d
    → ((a : A) (left : ℕ) (m : Machine) → Same s m.shard → Leaves s (next a left m))
    → Leaves s (andthen d next)
andthen-Leaves s (m, err e) next first rest = first
andthen-Leaves s (m, ok (a, left)) next first rest = rest a left m first

pub lift-Leaves :
    {A : Type 0} (s : Shard) (r : Result Error A) (left : ℕ) (m : Machine)
    → Same s m.shard
    → Leaves s (lift r left m)
lift-Leaves s (err e) left m same = same
lift-Leaves s (ok a) left m same = same

pub drop_pin-Same : (i : ℕ) (m : Machine) → Same m.shard (drop_pin i m).shard
unfolding drop_pin
drop_pin-Same i m = set_slot-Same i _ m.shard refl refl

pub if-Leaves :
    {A : Type 0} (s : Shard) (b : Bool) (x y : Done A)
    → Leaves s x
    → Leaves s y
    → Leaves s (if b then x else y)
if-Leaves s true x y hx hy = hx
if-Leaves s false x y hx hy = hy

gated-Leaves :
    (a : Attempt) (exchange_to : ℕ → Done Bool) (left : ℕ) (m : Machine)
    → ((next : ℕ) → Leaves m.shard (exchange_to next))
    → Leaves m.shard (gated a exchange_to left m)
gated-Leaves (refused e) exchange_to left m h = Same-refl m.shard
gated-Leaves absent exchange_to left m h = Same-refl m.shard
gated-Leaves (exchange next) exchange_to left m h = h next

module _ (w : World) (calm : Calm w) where
  pub exchanged-Leaves :
      {A : Type 0} (s : Shard) (k : ℕ) (done : Done A) (retry : Machine → Done A) (m : Machine)
      → Same s m.shard
      → Leaves s done
      → ((n : Machine) → Leaves n.shard (retry n))
      → Leaves s (exchanged (w.weak k) done retry m)
  exchanged-Leaves s k done retry m same now later = split (w.weak k) (calm k)
    where
      split :
          (o : Option (Shard → Shard))
          → ((peers : Shard → Shard) → o ≡ some peers → (t : Shard) → Same t (peers t))
          → Leaves s (exchanged o done retry m)
      split none calm = now
      split (some peers) calm =
          Same-trans same (Same-trans (calm peers refl m.shard) (later (on peers m)))

  pub pin-Same :
      (i : ℕ) (expected : Option ℕ) (budget : ℕ) (m : Machine)
      → Leaves m.shard (pin w i expected budget m)
  unfolding pin
  pin-Same i expected zero m =
      gated-Leaves (attempt (m.shard.slots i).gate) _ zero m (λ next. Same-refl m.shard)
  pin-Same i expected (suc left) m =
      gated-Leaves (attempt (m.shard.slots i).gate) _ (suc left) m (λ next.
        let held = set_slot-Same i (record (m.shard.slots i) { gate = next }) m.shard refl refl in
        exchanged-Leaves m.shard left _ (pin w i expected left) m (Same-refl m.shard)
          (if-Leaves m.shard _ _ _ (Same-trans held (drop_pin-Same i (on (set_gate i next) m)))
            held)
          (pin-Same i expected left))

  pub raise-Same : (now budget : ℕ) (m : Machine) → Leaves m.shard (raise w now budget m)
  unfolding raise
  raise-Same now zero m = if-Leaves m.shard _ _ _ (Same-refl m.shard) (Same-refl m.shard)
  raise-Same now (suc left) m =
      if-Leaves m.shard _ _ _
        (exchanged-Leaves m.shard left _ (raise w now left) m (Same-refl m.shard)
          (record { count = refl; identity = λ i. refl; tat = λ i. refl }) (raise-Same now left))
        (Same-refl m.shard)

  pub touch-Same : (i now budget : ℕ) (m : Machine) → Leaves m.shard (touch w i now budget m)
  unfolding touch
  touch-Same i now zero m = if-Leaves m.shard _ _ _ (Same-refl m.shard) (Same-refl m.shard)
  touch-Same i now (suc left) m =
      if-Leaves m.shard _ _ _
        (exchanged-Leaves m.shard left _ (touch w i now left) m (Same-refl m.shard)
          (set_slot-Same i _ m.shard refl refl) (touch-Same i now left))
        (Same-refl m.shard)

  pub sample-Same : (g : Gcra) (budget : ℕ) (m : Machine) → Leaves m.shard (sample w g budget m)
  unfolding sample
  sample-Same g budget m =
      andthen-Leaves m.shard (lift (w.clock m.readings) budget (tick m)) _
        (lift-Leaves m.shard (w.clock m.readings) budget (tick m) (Same-refl m.shard))
        (λ now left n same. if-Leaves m.shard _ _ _ same (
          andthen-Leaves m.shard (lift (scale g now) left n) _
            (lift-Leaves m.shard (scale g now) left n same)
            (λ scaled left n same.
              andthen-Leaves m.shard (raise w now left n) _
                (Same-trans same (raise-Same now left n)) (λ done left n same. same))))

  if_guard-Same :
      (r : Retention) (i now left : ℕ) (m : Machine)
      → Leaves m.shard (if_guard r (touch w i now left m) (m, ok (tt, left)))
  if_guard-Same guard i now left m = touch-Same i now left m
  if_guard-Same strict i now left m = Same-refl m.shard

  pub assess-Same :
      (r : Retention) (g : Gcra) (p : Prepared) (i previous budget : ℕ) (m : Machine)
      → Leaves m.shard (assess w r g p i previous budget m)
  unfolding assess
  assess-Same r g p i previous budget m =
      andthen-Leaves m.shard (sample w g budget m) _ (sample-Same g budget m) (λ now left n same.
        andthen-Leaves m.shard (if_guard r (touch w i now left n) (n, ok (tt, left))) _
          (Same-trans same (if_guard-Same r i now left n))
          (λ done left n same.
            andthen-Leaves m.shard (lift (evaluate p now (some previous)) left n) _
              (lift-Leaves m.shard (evaluate p now (some previous)) left n same)
              (λ outcome left n same. same)))
