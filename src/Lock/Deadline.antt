-- ===== src/Lock/Deadline.antt =====
-- lock/src/lib.rs: what `deadline` makes of a time to live.
use orbitive.Prelude.{ℕ, ◌+◌, ◌/◌, ◌<◌, ◌≡◌, ◌↔◌, max, u64_mod, ok, arith}
use orbitive.Lock.Types.{deadline}

-- A lease gets a deadline exactly if its time to live is not zero and the deadline is a word. It
-- lasts its time in whole milliseconds, and one millisecond at least.
pub deadline_iff :
    (now_ms ttl_nanos t : ℕ)
    → (deadline now_ms ttl_nanos ≡ ok t)
      ↔ ((0 < ttl_nanos) × (t ≡ now_ms + max (ttl_nanos / 1_000_000) 1) × (t < u64_mod))
unfolding deadline
deadline_iff now_ms ttl_nanos t =
    (λ h. (ground arith, ground arith, ground arith), λ h. ground arith)
