-- ===== src/Quota/Gcra/Steps.antt =====
-- What a prepared cost and a scaled sample are, and the arithmetic of scaled times.
use orbitive.Prelude.{ℕ, ◌-◌, ◌*◌, ◌/◌, ◌<◌, ◌≤◌, ◌≡◌, ◌↔◌, ap₂, ◌∙◌, arith, ok}
use native.Mathlib.Nat.{div-add-mod, mod-lt, mul_comm, mul-sub}
use orbitive.Quota.Gcra.{Gcra, Prepared, IsGcra, prepare, scale}

pub mul_mono : (a b c : ℕ) → a ≤ b → a * c ≤ b * c
mul_mono a b c h = grind arith

pub sub-mul : (a b c : ℕ) → (a - b) * c ≡ a * c - b * c
sub-mul a b c = mul_comm (a - b) c ∙ mul-sub c a b ∙ ap₂ ◌-◌ (mul_comm c a) (mul_comm c b)

pub le_div_iff : (n p x : ℕ) → 0 < p → (n ≤ x / p) ↔ (p * n ≤ x)
le_div_iff n p x h = (
  λ le. grind (arith, div-add-mod x p, mod-lt x h),
  λ le. grind (arith, div-add-mod x p, mod-lt x h),
)

pub div_le : (x p n : ℕ) → 0 < p → x ≤ p * n → x / p ≤ n
div_le x p n h le = grind (arith, div-add-mod x p, mod-lt x h)

pub charge-le-capacity :
    (g : Gcra) (cost : ℕ) → IsGcra g → cost ≤ g.policy.burst → g.period * cost ≤ g.capacity
charge-le-capacity g cost v h = grind (arith, v.capacity_eq)

pub record IsPrepared (g : Gcra) (cost : ℕ) (p : Prepared) : Type 0 where
  pub capacity : p.algorithm.capacity ≡ g.capacity
  pub charge : p.charge ≡ g.period * cost
  pub within : cost ≤ g.policy.burst

pub prepare-IsPrepared :
    (g : Gcra) (cost : ℕ) {p : Prepared} → prepare g cost ≡ ok p → IsPrepared g cost p
unfolding prepare
prepare-IsPrepared g cost e = record {
  capacity = ground arith;
  charge = ground arith;
  within = ground arith;
}

pub scale-eq : (g : Gcra) (n : ℕ) {now : ℕ} → scale g n ≡ ok now → now ≡ n * g.units
unfolding scale
scale-eq g n e = ground arith
