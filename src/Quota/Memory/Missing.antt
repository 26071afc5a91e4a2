-- ===== src/Quota/Memory/Missing.antt =====
-- A first walk that ends without a slot has passed no slot of the key but a retired one, while the
-- other threads retire none.
use orbitive.Prelude.{
  ℕ, zero, suc, ◌<◌, ◌≤◌, ◌≡◌, refl, sym, ap, subst, ◌∙◌, ◌&&◌, Bool, true, false, Option, none,
  some, ok, err, arith, u64_mod, ◌==◌, if◌then◌else◌,
}
use orbitive.Prelude.Bits.{bit_and-bit}
use orbitive.Quota.Contract.{Key, busy}
use orbitive.Quota.Gate.{Attempt, attempt, refused, absent, exchange, unpin, readers_max}
use orbitive.Quota.Gate.Exclusion.{attempt-exchange}
use orbitive.Quota.Memory.{
  Shard, World, Machine, Done, andthen, pin, drop_pin, matches, on, set_gate, gated, exchanged,
  hold_pin,
}
use orbitive.Quota.Memory.Window.{find, release, next_index}
use orbitive.Quota.Memory.Calm.{Same, Same-trans, Calm, Leaves, pin-Same, drop_pin-Same}
use orbitive.Quota.Memory.Walks.{probed}

abbrev pub Words : Shard → Type 0
Words s = (i : ℕ) → (s.slots i).gate < u64_mod

-- The gates are still words, and no slot has been retired.
pub record Kept (s t : Shard) : Type 0 where
  pub word : (i : ℕ) → (s.slots i).gate < u64_mod → (t.slots i).gate < u64_mod
  pub retired :
      (i : ℕ)
      → (s.slots i).gate < u64_mod
      → attempt (t.slots i).gate ≡ absent
      → attempt (s.slots i).gate ≡ absent

-- While an exchange is refused, the other threads retire no slot.
abbrev pub Steady : World → Type 0
Steady w = (k : ℕ) (peers : Shard → Shard) → w.weak k ≡ some peers → (s : Shard) → Kept s (peers s)

-- A slot of the window that has the key is retired.
abbrev pub Missing : Key → (probes count start : ℕ) → Shard → Type 0
Missing key probes count start s =
    (n : ℕ)
    → n < probes
    → matches (s.slots (probed n count start)).identity key ≡ true
    → attempt (s.slots (probed n count start)).gate ≡ absent

pub Kept-refl : (s : Shard) → Kept s s
Kept-refl s = record { word = λ i h. h; retired = λ i h e. e }

pub Kept-trans : {s t u : Shard} → Kept s t → Kept t u → Kept s u
Kept-trans a b = record {
  word = λ i h. b.word i (a.word i h);
  retired = λ i h e. a.retired i h (b.retired i (a.word i h) e);
}

pub Kept-Words : {s t : Shard} → Kept s t → Words s → Words t
Kept-Words kept words i = kept.word i (words i)

-- A word that only counts readers is not one of a retired slot.
attempt-readers : (gate : ℕ) → gate ≤ readers_max → attempt gate ≡ absent → ⊥
unfolding attempt
attempt-readers gate h e =
    ground (arith, bit_and-bit 63 gate, bit_and-bit 62 gate, bit_and-bit 61 gate)

unpin-readers : (gate : ℕ) → 0 < gate → gate ≤ readers_max → unpin gate ≤ readers_max
unfolding unpin
unpin-readers gate pos h = omega arith

set_gate-Kept : (i gate : ℕ) (s : Shard) → gate ≤ readers_max → Kept s (set_gate i gate s)
set_gate-Kept i gate s h = record {
  word = λ j. word_at j (j == i);
  retired = λ j word. retired_at j (j == i);
}
  where
    at : ℕ → Bool → ℕ
    at j b = (if b then record (s.slots i) { gate = gate } else s.slots j).gate

    word_at : (j : ℕ) (b : Bool) → (s.slots j).gate < u64_mod → at j b < u64_mod
    word_at j true word = omega arith
    word_at j false word = word

    retired_at : (j : ℕ) (b : Bool) → attempt (at j b) ≡ absent → attempt (s.slots j).gate ≡ absent
    retired_at j true e = absurd (attempt-readers gate h e)
    retired_at j false e = e

pub drop_pin-Kept :
    (i : ℕ) (m : Machine)
    → 0 < (m.shard.slots i).gate
    → (m.shard.slots i).gate ≤ readers_max
    → Kept m.shard (drop_pin i m).shard
unfolding drop_pin
drop_pin-Kept i m pos h = set_gate-Kept i _ m.shard (unpin-readers _ pos h)

-- One slot more at the front of a walk.
pub Missing-suc :
    (key : Key) (probes count i : ℕ) {s t : Shard}
    → Words s
    → Same s t
    → Kept s t
    → (matches (s.slots i).identity key ≡ true → attempt (s.slots i).gate ≡ absent)
    → Missing key probes count (next_index count i) t
    → Missing key (suc probes) count i s
Missing-suc key probes count i words same kept here rest zero h found = here found
Missing-suc key probes count i words same kept here rest (suc k) h found =
    let j = probed k count (next_index count i) in
    kept.retired j (words j)
      (rest k (omega arith) (ap (λ id. matches id key) (same.identity j) ∙ found))

module _ (w : World) (steady : Steady w) where
  -- How a pin without an expected generation ends: held, on a word that counts it, or on a retired
  -- slot.
  abbrev pub Pins : ℕ → Shard → Done Bool → Type 0
  Pins i s (n, err e) = Unit {0}
  Pins i s (n, ok (true, left)) =
      Kept s n.shard × (0 < (n.shard.slots i).gate) × ((n.shard.slots i).gate ≤ readers_max)
  Pins i s (n, ok (false, left)) = Kept s n.shard × (attempt (n.shard.slots i).gate ≡ absent)

  Kept-Pins : (i : ℕ) {s t : Shard} (d : Done Bool) → Kept s t → Pins i t d → Pins i s d
  Kept-Pins i (n, err e) kept h = tt
  Kept-Pins i (n, ok (true, left)) kept (k, pos, h) = (Kept-trans kept k, pos, h)
  Kept-Pins i (n, ok (false, left)) kept (k, h) = (Kept-trans kept k, h)

  held-Pins :
      (i left next : ℕ) (m : Machine)
      → 0 < next
      → next ≤ readers_max
      → Pins i m.shard (hold_pin i none left (on (set_gate i next) m))
  held-Pins i left next m pos h = (set_gate-Kept i next m.shard h, ground arith, ground arith)

  pub pin-Pins :
      (i budget : ℕ) (m : Machine) → Words m.shard → Pins i m.shard (pin w i none budget m)
  unfolding pin
  pin-Pins i zero m words = split (attempt (m.shard.slots i).gate) refl
    where
      split :
          (a : Attempt)
          → attempt (m.shard.slots i).gate ≡ a
          → Pins i m.shard (gated a (λ next. (m, err busy)) zero m)
      split (refused e) h = tt
      split absent h = (Kept-refl m.shard, h)
      split (exchange next) h = tt
  pin-Pins i (suc left) m words = split (attempt (m.shard.slots i).gate) refl (pin-Pins i left)
    where
      ended :
          (next : ℕ) (o : Option (Shard → Shard))
          → attempt (m.shard.slots i).gate ≡ exchange next
          → ((peers : Shard → Shard) → o ≡ some peers → (s : Shard) → Kept s (peers s))
          → ((n : Machine) → Words n.shard → Pins i n.shard (pin w i none left n))
          → Pins i m.shard
              (exchanged o (hold_pin i none left (on (set_gate i next) m)) (pin w i none left) m)
      ended next none h kept later =
          let (e, room) = attempt-exchange (m.shard.slots i).gate next h (words i) in
          held-Pins i left next m (omega arith) (omega arith)
      ended next (some peers) h kept later =
          let k = kept peers refl m.shard in
          Kept-Pins i (pin w i none left (on peers m)) k (later (on peers m) (Kept-Words k words))

      split :
          (a : Attempt)
          → attempt (m.shard.slots i).gate ≡ a
          → ((n : Machine) → Words n.shard → Pins i n.shard (pin w i none left n))
          → Pins i m.shard (
              gated a
                (λ next.
                  exchanged
                    (w.weak left)
                    (hold_pin i none left (on (set_gate i next) m))
                    (pin w i none left)
                    m)
                (suc left)
                m)
      split (refused e) h later = tt
      split absent h later = (Kept-refl m.shard, h)
      split (exchange next) h later = ended next (w.weak left) h (steady left) later

  module _ (calm : Calm w) (key : Key) where
    abbrev Misses : (probes count start : ℕ) → Shard → Done (Option ℕ) → Type 0
    Misses probes count start s (n, err e) = Unit {0}
    Misses probes count start s (n, ok (some i, left)) = Unit {0}
    Misses probes count start s (n, ok (none, left)) = Missing key probes count start s

    Misses-suc :
        (probes count i : ℕ) {s t : Shard} (d : Done (Option ℕ))
        → Words s
        → Same s t
        → Kept s t
        → (matches (s.slots i).identity key ≡ true → attempt (s.slots i).gate ≡ absent)
        → Misses probes count (next_index count i) t d
        → Misses (suc probes) count i s d
    Misses-suc probes count i (n, err e) words same kept here rest = tt
    Misses-suc probes count i (n, ok (some j, left)) words same kept here rest = tt
    Misses-suc probes count i (n, ok (none, left)) words same kept here rest =
        Missing-suc key probes count i words same kept here rest

    pub find-Misses :
        (probes i count budget : ℕ) (m : Machine)
        → m.shard.slot_count ≡ count
        → Words m.shard
        → Misses probes count i m.shard (find w key probes i budget m)
    unfolding find
    find-Misses zero i count budget m size words = λ n h. absurd (omega arith)
    find-Misses (suc probes) i count budget m size words =
        split (pin w i none budget m) (pin-Same w calm i none budget m) (pin-Pins i budget m words)
          (λ left n. find-Misses probes (next_index count i) count left n)
      where
        Later : Type 0
        Later =
            (left : ℕ) (n : Machine)
            → n.shard.slot_count ≡ count
            → Words n.shard
            → Misses probes count (next_index count i) n.shard
                (find w key probes (next_index count i) left n)

        -- The walk goes on after the slot, which is left as it was.
        onward :
            (left : ℕ) (n : Machine)
            → Same m.shard n.shard
            → Kept m.shard n.shard
            → (matches (m.shard.slots i).identity key ≡ true
                → attempt (m.shard.slots i).gate ≡ absent)
            → Later
            → (c : ℕ) → c ≡ count
            → Misses (suc probes) count i m.shard (find w key probes (next_index c i) left n)
        onward left n same kept here later c e =
            subst
              (λ c. Misses (suc probes) count i m.shard (find w key probes (next_index c i) left n))
              (sym e)
              (Misses-suc probes count i (find w key probes (next_index count i) left n) words same
                kept here (later left n (same.count ∙ size) (Kept-Words kept words)))

        visit :
            (live : Bool) (left : ℕ) (n : Machine) (b : Bool)
            → (live && matches (n.shard.slots i).identity key) ≡ b
            → Same m.shard n.shard
            → Pins i m.shard (n, ok (live, left))
            → Later
            → Misses (suc probes) count i m.shard (elim b [
              | true ↦ (n, ok (some i, left))
              | false ↦ find w key probes (next_index n.shard.slot_count i) left (release live i n)
            ])
        visit live left n true e same pins later = tt
        visit true left n false e same (kept, pos, fits) later =
            onward left (drop_pin i n) (Same-trans same (drop_pin-Same i n))
              (Kept-trans kept (drop_pin-Kept i n pos fits))
              (λ found. let id = ap (λ id. matches id key) (same.identity i) in cc) later
              n.shard.slot_count (same.count ∙ size)
        visit false left n false e same (kept, gone) later =
            onward left n same kept (λ found. kept.retired i (words i) gone) later
              n.shard.slot_count (same.count ∙ size)

        split :
            (d : Done Bool)
            → Leaves m.shard d
            → Pins i m.shard d
            → Later
            → Misses (suc probes) count i m.shard (
                andthen d (λ live left m. elim (live && matches (m.shard.slots i).identity key) [
                  | true ↦ (m, ok (some i, left))
                  | false ↦
                      find w key probes (next_index m.shard.slot_count i) left (release live i m)
                ]))
        split (n, err e) same pins later = tt
        split (n, ok (live, left)) same pins later =
            visit live left n (live && matches (n.shard.slots i).identity key) refl same pins later

    pub find-none-Missing :
        (probes i budget : ℕ) (m : Machine)
        → Words m.shard
        → (n : Machine) (left : ℕ) → find w key probes i budget m ≡ (n, ok (none, left))
        → Missing key probes m.shard.slot_count i m.shard
    find-none-Missing probes i budget m words n left e =
        subst (Misses probes m.shard.slot_count i m.shard) e
          (find-Misses probes i m.shard.slot_count budget m refl words)
