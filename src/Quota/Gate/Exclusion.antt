-- ===== src/Quota/Gate/Exclusion.antt =====
-- Readers and a writer of one slot exclude each other, whatever the interleaving.
use orbitive.Prelude.{
  ℕ, ◌+◌, ◌-◌, ◌≤◌, ◌<◌, ◌≡◌, ◌≢◌, ◌⊎◌, inl, inr, refl, sym, subst, Bool, true, false, arith,
  u64_mod, ok, err,
}
use orbitive.Prelude.Bits.{bit_and-bit}
use orbitive.Quota.Contract.{busy}
use orbitive.Quota.Gate.{
  writer_flag, poisoned_flag, retired_flag, readers_max, refused, exchange, attempt, unpin, reserve,
  publish, retire, abandon,
}

-- The live `Writer` of a slot, and whether it has begun to write.
pub data Hold : Type 0 where
  free : Hold
  writing : (dirty : Bool) → Hold

-- The word, with the guards that threads hold on it.
pub record Slot : Type 0 where
  pub gate : ℕ
  pub pins : ℕ
  pub hold : Hold

-- One atomic action of some thread. Only the holder of a guard can drop it.
pub data Step (s : Slot) (t : Slot) : Type 0 where
  pinned :
      (gate : ℕ)
      → attempt s.gate ≡ exchange gate
      → t ≡ record { gate = gate; pins = s.pins + 1; hold = s.hold }
      → Step s t
  unpinned :
      0 < s.pins → t ≡ record { gate = unpin s.gate; pins = s.pins - 1; hold = s.hold } → Step s t
  reserved :
      (gate : ℕ)
      → reserve s.gate ≡ ok gate
      → t ≡ record { gate = gate; pins = s.pins; hold = writing false }
      → Step s t
  dirtied :
      s.hold ≡ writing false
      → t ≡ record { gate = s.gate; pins = s.pins; hold = writing true }
      → Step s t
  published :
      (dirty : Bool)
      → s.hold ≡ writing dirty
      → t ≡ record { gate = publish; pins = s.pins; hold = free }
      → Step s t
  retired :
      (dirty : Bool)
      → s.hold ≡ writing dirty
      → t ≡ record { gate = retire; pins = s.pins; hold = free }
      → Step s t
  abandoned :
      (dirty : Bool)
      → s.hold ≡ writing dirty
      → t ≡ record { gate = abandon dirty; pins = s.pins; hold = free }
      → Step s t

-- `Slot::gate` starts at 0, with no guard.
abbrev pub fresh : Slot
fresh = record { gate = 0; pins = 0; hold = free }

pub data Reach : Slot → Type 0 where
  start : Reach fresh
  next : {s t : Slot} → Reach s → Step s t → Reach t

-- The word counts the pins of an open slot; otherwise it is one flag and there is no pin.
abbrev pub Shape : Hold → ℕ → ℕ → Type 0
Shape free gate pins =
    ((gate ≡ pins) × (pins ≤ readers_max))
    ⊎ ((pins ≡ 0) × ((gate ≡ retired_flag) ⊎ (gate ≡ poisoned_flag)))
Shape (writing dirty) gate pins = (gate ≡ writer_flag) × (pins ≡ 0)

abbrev pub IsGuarded : Slot → Type 0
IsGuarded s = Shape s.hold s.gate s.pins

-- A pin is taken only on a word with no flag and fewer readers than fit.
pub attempt-exchange :
    (gate after : ℕ)
    → attempt gate ≡ exchange after
    → gate < u64_mod
    → (after ≡ gate + 1) × (gate < readers_max)
unfolding attempt
attempt-exchange gate after e w =
    ground (arith, bit_and-bit 63 gate, bit_and-bit 62 gate, bit_and-bit 61 gate)

reserve-ok : (gate after : ℕ) → reserve gate ≡ ok after → (gate ≡ 0) × (after ≡ writer_flag)
unfolding reserve
reserve-ok gate after e = ground arith

Shape-word : (h : Hold) (gate pins : ℕ) → Shape h gate pins → gate < u64_mod
Shape-word free gate pins g = ground arith
Shape-word (writing dirty) gate pins g = omega arith

pinned-Shape :
    (h : Hold) (gate after pins : ℕ)
    → attempt gate ≡ exchange after
    → Shape h gate pins
    → Shape h after (pins + 1)
pinned-Shape free gate after pins e g =
    ground (arith, attempt-exchange gate after e (Shape-word free gate pins g))
pinned-Shape (writing dirty) gate after pins e g =
    ground (arith, attempt-exchange gate after e (Shape-word (writing dirty) gate pins g))

unpinned-Shape :
    (h : Hold) (gate pins : ℕ) → 0 < pins → Shape h gate pins → Shape h (unpin gate) (pins - 1)
unfolding unpin
unpinned-Shape free gate pins e g = ground arith
unpinned-Shape (writing dirty) gate pins e g = ground arith

reserved-Shape :
    (h : Hold) (gate after pins : ℕ)
    → reserve gate ≡ ok after
    → Shape h gate pins
    → Shape (writing false) after pins
reserved-Shape free gate after pins e g = ground (arith, reserve-ok gate after e)
reserved-Shape (writing dirty) gate after pins e g = ground (arith, reserve-ok gate after e)

-- Every action of every thread keeps the shape.
Step-IsGuarded : {s t : Slot} → Step s t → IsGuarded s → IsGuarded t
Step-IsGuarded {s} (pinned gate e f) g = rw f (pinned-Shape s.hold s.gate gate s.pins e g)
Step-IsGuarded {s} (unpinned h f) g = rw f (unpinned-Shape s.hold s.gate s.pins h g)
Step-IsGuarded {s} (reserved gate e f) g = rw f (reserved-Shape s.hold s.gate gate s.pins e g)
Step-IsGuarded {s} (dirtied h f) g = rw f (subst (λ x. Shape x s.gate s.pins) h g)
Step-IsGuarded {s} (published dirty h f) g =
    let w = subst (λ x. Shape x s.gate s.pins) h g in rw f (inl (omega arith))
Step-IsGuarded {s} (retired dirty h f) g =
    let w = subst (λ x. Shape x s.gate s.pins) h g in rw f (inr (w.1, inl refl))
Step-IsGuarded {s} (abandoned true h f) g =
    let w = subst (λ x. Shape x s.gate s.pins) h g in rw f (inr (w.1, inr refl))
Step-IsGuarded {s} (abandoned false h f) g =
    let w = subst (λ x. Shape x s.gate s.pins) h g in rw f (inl (omega arith))

Reach-IsGuarded : {s : Slot} → Reach s → IsGuarded s
Reach-IsGuarded start = inl (omega arith)
Reach-IsGuarded (next r st) = Step-IsGuarded st (Reach-IsGuarded r)

closed-by-writer :
    (gate : ℕ) → gate ≡ writer_flag → (attempt gate ≡ refused busy) × (reserve gate ≡ err busy)
unfolding attempt reserve
closed-by-writer gate e = (rw e, rw e)

pinned_open :
    (h : Hold) (gate pins : ℕ)
    → 0 < pins
    → Shape h gate pins
    → (unpin gate + 1 ≡ gate) × (reserve gate ≡ err busy)
unfolding unpin reserve
pinned_open free gate pins h g = ground (arith, bit_and-bit 62 gate, bit_and-bit 61 gate)
pinned_open (writing dirty) gate pins h g = absurd (omega arith)

Shape-free :
    (gate pins : ℕ)
    → Shape free gate pins
    → (gate ≡ pins) ⊎ ((pins ≡ 0) × ((gate ≡ retired_flag) ⊎ (gate ≡ poisoned_flag)))
Shape-free gate pins (inl g) = inl g.0
Shape-free gate pins (inr g) = inr g

poisoned_closed :
    ((gate : ℕ) → attempt poisoned_flag ≢ exchange gate)
    × ((gate : ℕ) → reserve poisoned_flag ≢ ok gate)
unfolding attempt reserve
poisoned_closed = (λ gate e. cc, λ gate e. cc)

poisoned_empty :
    (h : Hold) (gate pins : ℕ) → gate ≡ poisoned_flag → 0 < pins → Shape h gate pins → ⊥
poisoned_empty free gate pins e h g = ground arith
poisoned_empty (writing dirty) gate pins e h g = omega arith

poisoned_unheld :
    (s : Slot) (dirty : Bool) → s.hold ≡ writing dirty → s.gate ≡ poisoned_flag → IsGuarded s → ⊥
poisoned_unheld s dirty h e g = let w = subst (λ x. Shape x s.gate s.pins) h g in omega arith

-- In every reachable state of a slot: a writer excludes every pin, and no pin or reservation can be
-- taken while there is a writer; a drop of a pin never wraps; and without a writer the word is the
-- number of pins, or a flag alone with no pin left.
pub Reach-excludes :
    {s : Slot}
    → Reach s
    → ((dirty : Bool)
        → s.hold ≡ writing dirty
        → (s.pins ≡ 0) × (attempt s.gate ≡ refused busy) × (reserve s.gate ≡ err busy))
      × (0 < s.pins → (unpin s.gate + 1 ≡ s.gate) × (reserve s.gate ≡ err busy))
      × (s.hold ≡ free
          → (s.gate ≡ s.pins)
            ⊎ ((s.pins ≡ 0) × ((s.gate ≡ retired_flag) ⊎ (s.gate ≡ poisoned_flag))))
Reach-excludes {s} r =
    let g = Reach-IsGuarded r in
    (
      λ dirty h.
          let w = subst (λ x. Shape x s.gate s.pins) h g in
          (w.1, (closed-by-writer s.gate w.0).0, (closed-by-writer s.gate w.0).1),
      λ h. pinned_open s.hold s.gate s.pins h g,
      λ h. Shape-free s.gate s.pins (subst (λ x. Shape x s.gate s.pins) h g),
    )

-- A slot whose writer panicked half way is closed for good: no thread can take any step on it.
pub poisoned_closes : {s t : Slot} → Reach s → s.gate ≡ poisoned_flag → ¬ Step s t
poisoned_closes {s} r e (pinned gate a f) = poisoned_closed.0 gate (rw (sym e) a)
poisoned_closes {s} r e (unpinned h f) = poisoned_empty s.hold s.gate s.pins e h (Reach-IsGuarded r)
poisoned_closes {s} r e (reserved gate a f) = poisoned_closed.1 gate (rw (sym e) a)
poisoned_closes {s} r e (dirtied h f) = poisoned_unheld s false h e (Reach-IsGuarded r)
poisoned_closes {s} r e (published dirty h f) = poisoned_unheld s dirty h e (Reach-IsGuarded r)
poisoned_closes {s} r e (retired dirty h f) = poisoned_unheld s dirty h e (Reach-IsGuarded r)
poisoned_closes {s} r e (abandoned dirty h f) = poisoned_unheld s dirty h e (Reach-IsGuarded r)
