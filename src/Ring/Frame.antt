-- ===== src/Ring/Frame.antt =====
-- core/src/ring/mod.rs: `Frame`, one record of a ring. Its id is a raw word.
use orbitive.Prelude.{ℕ, List}

pub record Frame : Type 0 where
  pub id : ℕ
  pub kind : ℕ
  pub ver : ℕ
  pub payload : List ℕ
