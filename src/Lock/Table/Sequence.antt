-- ===== src/Lock/Table/Sequence.antt =====
-- The probe sequence of a hash visits every slot of the table, each once.
use orbitive.Prelude.{
  ℕ, zero, suc, ◌+◌, ◌-◌, ◌*◌, ◌/◌, ◌%◌, ◌^◌, ◌≤◌, ◌<◌, ◌∣◌, ◌≡◌, sym, ap, subst, dec_le, ◌∙◌,
  arith, u64_mod,
}
use orbitive.Prelude.Bits.{two_pow_pos, bit_and-mask}
use orbitive.Prelude.Modular.{mod_injective, mod_unique}
use native.Mathlib.Nat.{
  mod-lt, mod-mod_of_dvd, add-mod-mod, div-add-mod, dvd_refl, dvd-mul_left_of_dvd, pow-succ',
}
use orbitive.Lock.Table.Probe.{probe_index}

two_pow_dvd : (k n : ℕ) → k ≤ n → 2 ^ k ∣ 2 ^ n
two_pow_dvd k zero h = rw (zero_only k h) (dvd_refl (2 ^ 0))
  where
    zero_only : (k : ℕ) → k ≤ 0 → k ≡ 0
    zero_only k h = omega arith
two_pow_dvd k (suc n) h = elim (dec_le k n) [
  | yes le ↦ rw (pow-succ' 2 n) (dvd-mul_left_of_dvd (2 ^ k) (two_pow_dvd k n le) 2)
  | no gt ↦ subst (λ j. 2 ^ j ∣ 2 ^ suc n) (top k n h gt) (dvd_refl (2 ^ suc n))
]
  where
    top : (k n : ℕ) → k ≤ suc n → ¬ (k ≤ n) → suc n ≡ k
    top k n h gt = omega arith

-- The capacity is a power of two, as the source asserts.
pub probe_index-eq :
    (k hash offset : ℕ) → k ≤ 64 → probe_index hash offset (2 ^ k) ≡ (hash + offset) % 2 ^ k
unfolding probe_index
probe_index-eq k hash offset h =
    bit_and-mask k ((hash + offset) % u64_mod)
    ∙ mod-mod_of_dvd (2 ^ k) (hash + offset) (two_pow_dvd k 64 h)

module _ (k hash : ℕ) (small : k ≤ 64) where
  pub probe_index-lt : (offset : ℕ) → probe_index hash offset (2 ^ k) < 2 ^ k
  probe_index-lt offset =
      rw (probe_index-eq k hash offset small) (mod-lt (hash + offset) (two_pow_pos k))

  pub probe_index-injective :
      (d e : ℕ)
      → d < 2 ^ k
      → e < 2 ^ k
      → probe_index hash d (2 ^ k) ≡ probe_index hash e (2 ^ k)
      → d ≡ e
  probe_index-injective d e hd he p =
      let same = sym (probe_index-eq k hash d small) ∙ p ∙ probe_index-eq k hash e small in
      elim (dec_le d e) [
        | yes le ↦
            let q = mod_injective (2 ^ k) (hash + d) (hash + e) (omega arith) (omega arith) same in
            omega arith
        | no gt ↦
            let q =
              mod_injective (2 ^ k) (hash + e) (hash + d) (omega arith) (omega arith) (sym same) in
            omega arith
      ]

  -- The offset at which a slot is reached.
  pub offset_of : ℕ → ℕ
  offset_of i = (i + (2 ^ k - hash % 2 ^ k)) % 2 ^ k

  pub offset_of-lt : (i : ℕ) → offset_of i < 2 ^ k
  unfolding offset_of
  offset_of-lt i = mod-lt _ (two_pow_pos k)

  pub probe_index-offset_of : (i : ℕ) → i < 2 ^ k → probe_index hash (offset_of i) (2 ^ k) ≡ i
  unfolding offset_of
  probe_index-offset_of i h =
      probe_index-eq k hash (offset_of i) small
      ∙ add-mod-mod hash (i + (2 ^ k - hash % 2 ^ k)) (2 ^ k)
      ∙ ap (λ x. x % 2 ^ k) turns
      ∙ mod_unique (2 ^ k) (hash / 2 ^ k + 1) i h
    where
      turns : hash + (i + (2 ^ k - hash % 2 ^ k)) ≡ 2 ^ k * (hash / 2 ^ k + 1) + i
      turns = grind (arith, div-add-mod hash (2 ^ k), mod-lt hash (two_pow_pos k))
