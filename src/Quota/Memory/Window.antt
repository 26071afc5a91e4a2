-- ===== src/Quota/Memory/Window.antt =====
-- quota/src/memory.rs: the walks of the probe window in `MemoryQuota::admit`.
use orbitive.Prelude.{
  ℕ, zero, suc, ◌+◌, not, ◌&&◌, ◌||◌, Bool, true, false, Option, none, some, leb, ◌==◌,
  if◌then◌else◌, ok,
}
use orbitive.Quota.Contract.{Key}
use orbitive.Quota.Retention.{Retention, strict, guard, Observation, Selection, consider}
use orbitive.Quota.Memory.{Slot, World, Machine, Done, andthen, matches, drop_pin, pin}

-- The next slot of the window.
abbrev pub next_index : ℕ → ℕ → ℕ
next_index count index = if index + 1 == count then 0 else index + 1

abbrev pub release : Bool → ℕ → Machine → Machine
release true i m = drop_pin i m
release false i m = m

-- The first walk of `MemoryQuota::admit`: the slot of the key, with its pin held, if it has one.
unfoldable pub find : World → Key → (probes : ℕ) → ℕ → ℕ → Machine → Done (Option ℕ)
find w key zero i budget m = (m, ok (none, budget))
find w key (suc probes) i budget m = andthen (pin w i none budget m) (λ live left m.
    elim (live && matches (m.shard.slots i).identity key) [
      | true ↦ (m, ok (some i, left))
      | false ↦ find w key probes (next_index m.shard.slot_count i) left (release live i m)
    ])

-- What the second walk, which holds `structure`, comes to.
pub data Survey : Type 0 where
  here : (index : ℕ) → Survey
  choice : Selection → Survey

abbrev pub is_guard : Retention → Bool
is_guard strict = false
is_guard guard = true

abbrev pub observe : Retention → Slot → Observation
observe r s = record { tat = s.tat; seen = if is_guard r then s.last_seen else 0 }

-- The slot is looked at under its pin, which is dropped after it.
abbrev pub weigh : Retention → ℕ → ℕ → Bool → Machine → Selection → Selection
weigh r now i false m selection = selection
weigh r now i true m selection =
    let s = m.shard.slots i in
    consider selection i s.identity.generation (not s.identity.occupied || leb s.tat now)
      (observe r s)

-- The second walk of `MemoryQuota::admit`.
unfoldable pub survey :
    World → Retention → Key → ℕ → (probes : ℕ) → ℕ → Selection → ℕ → Machine → Done Survey
survey w r key now zero i selection budget m = (m, ok (choice selection, budget))
survey w r key now (suc probes) i selection budget m =
    andthen (pin w i none budget m) (λ live left m.
      elim (live && matches (m.shard.slots i).identity key) [
        | true ↦ (m, ok (here i, left))
        | false ↦
            survey w r key now probes (next_index m.shard.slot_count i)
              (weigh r now i live m selection) left (release live i m)
      ])
