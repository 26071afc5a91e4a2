-- ===== src/Quota/Gate.antt =====
-- quota/src/memory.rs: the word that guards a slot's identity, `Slot::gate`. Readers hold a `Pin`
-- each, which is one unit of the word; a `Writer` holds the flag of the top bit.
pub mod Exclusion
use orbitive.Prelude.{
  ℕ, zero, suc, ◌+◌, ◌-◌, ◌%◌, ◌^◌, ◌<◌, ◌≡◌, Bool, true, false, not, ◌||◌, Option, none, some,
  bit_and, ◌==◌, if◌then◌else◌, u64_mod, Result, ok, err,
}
use orbitive.Quota.Contract.{Error, corrupt_state, capacity_full, busy}

abbrev pub writer_flag : ℕ
writer_flag = 2 ^ 63

abbrev pub poisoned_flag : ℕ
poisoned_flag = 2 ^ 62

abbrev pub retired_flag : ℕ
retired_flag = 2 ^ 61

abbrev pub readers_max : ℕ
readers_max = retired_flag - 1

-- `gate & flag != 0`
abbrev pub has : ℕ → ℕ → Bool
has gate flag = not (bit_and gate flag == 0)

-- What `Slot::pin` does with the word that it has loaded.
pub data Attempt : Type 0 where
  refused : Error → Attempt
  absent : Attempt
  exchange : (gate : ℕ) → Attempt

unfoldable pub attempt : ℕ → Attempt
attempt gate =
    if has gate poisoned_flag
    then refused corrupt_state
    else if has gate retired_flag
    then absent
    else if has gate writer_flag || gate == readers_max
    then refused busy
    else exchange (gate + 1)

-- `Drop for Pin`: `fetch_sub(1)`, which wraps.
unfoldable pub unpin : ℕ → ℕ
unpin gate = (gate + u64_mod - 1) % u64_mod

-- `Slot::reserve`: one strong exchange of 0 for the flag.
unfoldable pub reserve : ℕ → Result Error ℕ
reserve gate =
    if gate == 0
    then ok writer_flag
    else if has gate poisoned_flag
    then err corrupt_state
    else if has gate retired_flag
    then err capacity_full
    else err busy

-- `Writer::publish`, `Writer::retire`, and `Drop for Writer` of one that did neither.
abbrev pub publish : ℕ
publish = 0

abbrev pub retire : ℕ
retire = retired_flag

abbrev pub abandon : Bool → ℕ
abandon dirty = if dirty then poisoned_flag else 0
