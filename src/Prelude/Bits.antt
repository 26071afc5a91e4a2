-- ===== src/Prelude/Bits.antt =====
-- Masks.
use Prim.Native.Nat.{
  ℕ, zero, suc, ◌-◌, ◌*◌, ◌/◌, ◌%◌, ◌^◌, ◌≤◌, ◌<◌, min, bit_and, digits, bit_and-bitwise,
}
use mathlib.Core.Path.{◌≡◌, refl, sym, ◌∙◌}
use native.Mathlib.Omega.{arith}
use native.Mathlib.Nat.{pow-suc, pow-succ', zero-mod, zero-div, div-div-eq-div-mul}
use orbitive.Prelude.Modular.{mod-double}

pub two_pow_pos : (k : ℕ) → 0 < 2 ^ k
two_pow_pos zero = omega arith
two_pow_pos (suc k) = rw (pow-suc) (omega (arith, two_pow_pos k))

digits-mask : (n k a m : ℕ) → a ≤ n → m ≡ 2 ^ k - 1 → digits (λ b. 0) min n a m ≡ a % 2 ^ k
digits-mask zero k zero m h e = sym (zero-mod (2 ^ k))
digits-mask zero k (suc a) m h e = absurd (omega arith)
digits-mask (suc n) k zero m h e = sym (zero-mod (2 ^ k))
digits-mask (suc n) zero (suc a) m h e =
    omega (arith, digits-mask n zero (suc a / 2) (m / 2) (omega arith) (omega arith))
digits-mask (suc n) (suc k) (suc a) m h e = rw (pow-succ' 2 k) (
    omega (
      arith,
      pow-succ' 2 k,
      two_pow_pos k,
      mod-double (2 ^ k) (suc a) (two_pow_pos k),
      digits-mask n k (suc a / 2) (m / 2) (omega arith)
          (omega (arith, pow-succ' 2 k, two_pow_pos k)),
    ))

-- `x & (2^k - 1)`
pub bit_and-mask : (k x : ℕ) → bit_and x (2 ^ k - 1) ≡ x % 2 ^ k
bit_and-mask k x = bit_and-bitwise x (2 ^ k - 1) ∙ digits-mask x k x (2 ^ k - 1) (omega arith) refl

digits-zero : (n a m : ℕ) → a ≤ n → m ≡ 0 → digits (λ b. 0) min n a m ≡ 0
digits-zero zero zero m h e = refl
digits-zero zero (suc a) m h e = absurd (omega arith)
digits-zero (suc n) zero m h e = refl
digits-zero (suc n) (suc a) m h e =
    omega (arith, digits-zero n (suc a / 2) (m / 2) (omega arith) (omega arith))

digits-bit : (n k a m : ℕ) → a ≤ n → m ≡ 2 ^ k → digits (λ b. 0) min n a m ≡ a / 2 ^ k % 2 * 2 ^ k
digits-bit zero k zero m h e = rw (zero-div) (omega arith)
digits-bit zero k (suc a) m h e = absurd (omega arith)
digits-bit (suc n) k zero m h e = rw (zero-div) (omega arith)
digits-bit (suc n) zero (suc a) m h e =
    omega (arith, digits-zero n (suc a / 2) (m / 2) (omega arith) (omega arith))
digits-bit (suc n) (suc k) (suc a) m h e =
    rw (pow-succ' 2 k, ← div-div-eq-div-mul (suc a) 2 (2 ^ k))
      (grind (
        arith,
        pow-succ' 2 k,
        digits-bit n k (suc a / 2) (m / 2) (omega arith) (omega (arith, pow-succ' 2 k)),
      ))

-- `x & (1 << k)`
pub bit_and-bit : (k x : ℕ) → bit_and x (2 ^ k) ≡ x / 2 ^ k % 2 * 2 ^ k
bit_and-bit k x = bit_and-bitwise x (2 ^ k) ∙ digits-bit x k x (2 ^ k) (omega arith) refl
