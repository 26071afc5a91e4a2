-- ===== src/Prelude/Modular.antt =====
-- Positions on a ring of `n` slots.
use Prim.Native.Nat.{ℕ, ◌+◌, ◌*◌, ◌/◌, ◌%◌, ◌≤◌, ◌<◌}
use mathlib.Core.Path.{◌≡◌, ap, ◌∙◌}
use native.Mathlib.Omega.{arith}
use native.Mathlib.Nat.{div-add-mod, mod-lt, mul-add-mod_self_left, mod-eq_of_lt}

-- Two counters less than a lap apart stand on different slots.
pub mod_injective : (n a b : ℕ) → a ≤ b → b < a + n → a % n ≡ b % n → a ≡ b
mod_injective n a b h k e = grind (arith, div-add-mod a n, div-add-mod b n)

-- A quotient and a remainder in range determine the number's remainder.
pub mod_unique : (n q r : ℕ) → r < n → (n * q + r) % n ≡ r
mod_unique n q r h = mul-add-mod_self_left n q r ∙ mod-eq_of_lt h

-- The remainder by twice a number, digit by digit.
pub mod-double : (p x : ℕ) → 0 < p → x % (2 * p) ≡ (x / 2) % p * 2 + x % 2
mod-double p x h = ap (λ y. y % (2 * p)) split ∙ mod_unique (2 * p) (x / 2 / p) _ small
  where
    split : x ≡ 2 * p * (x / 2 / p) + ((x / 2) % p * 2 + x % 2)
    split = grind (arith, div-add-mod (x / 2) p, div-add-mod x 2)

    small : (x / 2) % p * 2 + x % 2 < 2 * p
    small = omega (arith, mod-lt (x / 2) h)
