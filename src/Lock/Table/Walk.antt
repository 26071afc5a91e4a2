-- ===== src/Lock/Table/Walk.antt =====
-- The walk of `acquire` along the probe sequence: what holds after some rounds of it.
use orbitive.Prelude.{
  ℕ, suc, ◌^◌, ◌<◌, ◌≡◌, ◌≢◌, refl, subst, List, Option, none, some, ℕ_discrete, arith,
}
use orbitive.Lock.Types.{LockKey}
use orbitive.Lock.Table.Slot.{empty, occupied, tombstoned, LockStateSlot, lease, tombstone}
use orbitive.Lock.Table.Probe.{probe_index, at, get_or_insert, Scan, holder, room}
use orbitive.Lock.Table.Invariant.{Matches, Ages, Aged, Ages-occupied, Ages-empty}

below_suc : (P : ℕ → Type 0) (d : ℕ) → ((e : ℕ) → e < d → P e) → P d → (e : ℕ) → e < suc d → P e
below_suc P d old new e h = elim (ℕ_discrete d e) [
  | yes q ↦ subst P q new
  | no n ↦ old e (omega arith)
]

-- An entry whose lease has not lapsed.
abbrev pub Live : ℕ → LockStateSlot → Type 0
Live now s = (s.state ≡ occupied) × (now < s.expires_at_ms)

abbrev pub along : (k hash offset : ℕ) → ℕ
along k hash offset = probe_index hash offset (2 ^ k)

module _ (k hash now : ℕ) where
  -- Where a new entry may go: a slot not in use that a lookup reaches; there is none only if every
  -- slot walked so far is live.
  abbrev pub Spot : List LockStateSlot → ℕ → Option ℕ → Type 0
  Spot slots d none = (e : ℕ) → e < d → Live now (at slots (along k hash e))
  Spot slots d (some i) =
      (e : ℕ) × (e < 2 ^ k)
      × (i ≡ along k hash e)
      × ((at slots i).state ≢ occupied)
      × ((f : ℕ) → f < e → (at slots (along k hash f)).state ≢ empty)

  module _ (key : LockKey) where
    -- After `d` rounds: no slot walked is empty or holds the key.
    pub record Walked (slots : List LockStateSlot) (d : ℕ) (ins : Option ℕ) : Type 0 where
      pub nonempty : (e : ℕ) → e < d → (at slots (along k hash e)).state ≢ empty
      pub unmatched : (e : ℕ) → e < d → ¬ Matches (at slots (along k hash e)) hash key
      pub spot : Spot slots d ins

    -- A live entry of the key; or no entry of the key at all, and a place for one if there is any.
    abbrev pub Ends : List LockStateSlot → Scan → Type 0
    Ends slots (holder l) =
        (i : ℕ) × (i < 2 ^ k)
        × Matches (at slots i) hash key
        × (now < (at slots i).expires_at_ms)
        × (lease (at slots i) ≡ l)
    Ends slots (room ins) =
        ((i : ℕ) → i < 2 ^ k → ¬ Matches (at slots i) hash key) × Spot slots (2 ^ k) ins

pub tombstone-state : (s : LockStateSlot) → (tombstone s).state ≡ tombstoned
unfolding tombstone
tombstone-state s = refl

Live-aged : (now : ℕ) (s s' : LockStateSlot) → Ages now s s' → Live now s → Live now s'
unfolding tombstone
Live-aged now s s' a l = ground arith

unused-aged :
    (now : ℕ) (s s' : LockStateSlot) → Ages now s s' → s.state ≢ occupied → s'.state ≢ occupied
unused-aged now s s' a n o =
    n (subst (λ (t : LockStateSlot). t.state ≡ occupied) (Ages-occupied now s s' a o) o)

Matches-aged :
    (now hash : ℕ) (key : LockKey) (s s' : LockStateSlot)
    → Ages now s s'
    → Matches s' hash key
    → Matches s hash key
Matches-aged now hash key s s' a m =
    subst (λ (t : LockStateSlot). Matches t hash key) (Ages-occupied now s s' a m.busy) m

module _ (k hash now : ℕ) (slots slots' : List LockStateSlot) (a : Aged now slots slots') where
  Spot-aged : (d : ℕ) (ins : Option ℕ) → Spot k hash now slots d ins → Spot k hash now slots' d ins
  Spot-aged d none s = λ e h. Live-aged now _ _ (a.each (along k hash e)) (s e h)
  Spot-aged d (some i) (e, he, q, o, f) = (
    e,
    he,
    q,
    unused-aged now _ _ (a.each i) o,
    λ g hg. Ages-empty now _ _ (a.each (along k hash g)) (f g hg),
  )

  pub Walked-aged :
      (key : LockKey) (d : ℕ) (ins : Option ℕ)
      → Walked k hash now key slots d ins
      → Walked k hash now key slots' d ins
  Walked-aged key d ins w = record {
    nonempty = λ e h. Ages-empty now _ _ (a.each (along k hash e)) (w.nonempty e h);
    unmatched =
        λ e h m. w.unmatched e h (Matches-aged now hash key _ _ (a.each (along k hash e)) m);
    spot = Spot-aged d ins w.spot;
  }

module _ (k hash now : ℕ) (key : LockKey) (slots : List LockStateSlot) (d : ℕ) (h : d < 2 ^ k) where
  pub Spot-here :
      (stop : ℕ) (ins : Option ℕ)
      → Spot k hash now slots d ins
      → ((e : ℕ) → e < d → (at slots (along k hash e)).state ≢ empty)
      → (at slots (along k hash d)).state ≢ occupied
      → Spot k hash now slots stop (get_or_insert ins (along k hash d))
  Spot-here stop none s n o = (d, h, refl, o, n)
  Spot-here stop (some i) s n o = s

  pub Spot-Live :
      (ins : Option ℕ)
      → Spot k hash now slots d ins
      → Live now (at slots (along k hash d))
      → Spot k hash now slots (suc d) ins
  Spot-Live none s l = below_suc _ d s l
  Spot-Live (some i) s l = s

  -- Past a tombstone, which is the place for a new entry unless there was one before.
  pub Walked-tombstone :
      (ins : Option ℕ)
      → Walked k hash now key slots d ins
      → (at slots (along k hash d)).state ≡ tombstoned
      → Walked k hash now key slots (suc d) (get_or_insert ins (along k hash d))
  Walked-tombstone ins w t = record {
    nonempty = below_suc _ d w.nonempty (λ e. cc);
    unmatched = below_suc _ d w.unmatched (λ m. cc (m.busy));
    spot = Spot-here (suc d) ins w.spot w.nonempty (λ o. cc);
  }

  -- Past a live entry of another key.
  pub Walked-passed :
      (ins : Option ℕ)
      → Walked k hash now key slots d ins
      → Live now (at slots (along k hash d))
      → ¬ Matches (at slots (along k hash d)) hash key
      → Walked k hash now key slots (suc d) ins
  Walked-passed ins w l m = record {
    nonempty = below_suc _ d w.nonempty (λ e. cc (l.0));
    unmatched = below_suc _ d w.unmatched m;
    spot = Spot-Live ins w.spot l;
  }
