-- ===== src/NetId.antt =====
-- The packed identity of the external crate `netid64`: a kind byte, a node and a 40-bit counter.
pub mod Packed
use orbitive.Prelude.{ℕ, ◌^◌, ◌<◌, ◌≡◌, u8_mod, u16_mod}

-- What the code relies on: `make` packs the three parts and the accessors read them back, while
-- each part is in its range. An id is its raw word.
pub record NetIds : Type 0 where
  pub make : ℕ → ℕ → ℕ → ℕ
  pub kind : ℕ → ℕ
  pub node : ℕ → ℕ
  pub counter : ℕ → ℕ
  pub kind-make : (k n c : ℕ) → k < u8_mod → n < u16_mod → c < 2 ^ 40 → kind (make k n c) ≡ k
  pub node-make : (k n c : ℕ) → k < u8_mod → n < u16_mod → c < 2 ^ 40 → node (make k n c) ≡ n
  pub counter-make : (k n c : ℕ) → k < u8_mod → n < u16_mod → c < 2 ^ 40 → counter (make k n c) ≡ c
