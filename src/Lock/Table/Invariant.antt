-- ===== src/Lock/Table/Invariant.antt =====
-- What keeps a lookup by probing right, and that a slot which becomes a tombstone does not harm it.
use orbitive.Prelude.{
  ℕ, ◌^◌, ◌≤◌, ◌<◌, ◌≡◌, ◌≢◌, ◌↔◌, ◌⊎◌, inl, inr, refl, sym, ap, subst, ◌∙◌, true, List, length,
  set, length-set, get_or-set_self, get_or-set_ne, ℕ_discrete, bytes_eq_iff, arith,
}
use orbitive.Lock.Types.{LockKey}
use orbitive.Lock.Table.Slot.{
  empty, occupied, LockStateSlot, namespace_bytes, key_bytes, matches, tombstone,
}
use orbitive.Lock.Table.Probe.{lock_hash, probe_index, at}

abbrev pub slot_key : LockStateSlot → LockKey
slot_key s = record { namespace = namespace_bytes s; label = key_bytes s }

pub record Matches (s : LockStateSlot) (hash : ℕ) (key : LockKey) : Type 0 where
  pub busy : s.state ≡ occupied
  pub hash_eq : s.key_hash ≡ hash
  pub key_eq : slot_key s ≡ key

pub matches_iff :
    (s : LockStateSlot) (hash : ℕ) (key : LockKey)
    → (matches s hash key ≡ true) ↔ Matches s hash key
unfolding matches
matches_iff s hash key =
    let names = bytes_eq_iff (namespace_bytes s) key.namespace in
    let labels = bytes_eq_iff (key_bytes s) key.label in
    (
      λ h. record {
        busy = ground arith;
        hash_eq = ground arith;
        key_eq = ground (arith, names.0, labels.0);
      },
      λ m. ground (
        arith,
        names.1 (ap (λ (k : LockKey). k.namespace) m.key_eq),
        labels.1 (ap (λ (k : LockKey). k.label) m.key_eq),
        m.busy,
        m.hash_eq,
      ),
    )

-- The table has `2 ^ k` slots. Each entry has its key's hash; no key has two entries; and no slot on
-- the way to an entry is empty, so that a lookup does not stop before it.
pub record IsTable (k : ℕ) (slots : List LockStateSlot) : Type 0 where
  pub size : length slots ≡ 2 ^ k
  pub hashed :
      (i : ℕ)
      → i < 2 ^ k
      → (at slots i).state ≡ occupied
      → (at slots i).key_hash ≡ lock_hash (slot_key (at slots i))
  pub distinct :
      (i j : ℕ)
      → i < 2 ^ k
      → j < 2 ^ k
      → (at slots i).state ≡ occupied
      → (at slots j).state ≡ occupied
      → slot_key (at slots i) ≡ slot_key (at slots j)
      → i ≡ j
  pub chained :
      (d e : ℕ)
      → e < d
      → d < 2 ^ k
      → (hash : ℕ) → (at slots (probe_index hash d (2 ^ k))).state ≡ occupied
      → (at slots (probe_index hash d (2 ^ k))).key_hash ≡ hash
      → (at slots (probe_index hash e (2 ^ k))).state ≢ empty

-- What time may do to a slot: nothing, or turn a lapsed entry into a tombstone.
abbrev pub Ages : ℕ → LockStateSlot → LockStateSlot → Type 0
Ages now s s' = (s' ≡ s) ⊎ ((s.state ≡ occupied) × (s.expires_at_ms ≤ now) × (s' ≡ tombstone s))

pub record Aged (now : ℕ) (slots slots' : List LockStateSlot) : Type 0 where
  pub size : length slots' ≡ length slots
  pub each : (i : ℕ) → Ages now (at slots i) (at slots' i)

pub Aged-refl : (now : ℕ) (slots : List LockStateSlot) → Aged now slots slots
Aged-refl now slots = record { size = refl; each = λ i. inl refl }

Ages-trans : (now : ℕ) (s t u : LockStateSlot) → Ages now s t → Ages now t u → Ages now s u
unfolding tombstone
Ages-trans now s t u a b = ground arith

pub Aged-trans :
    (now : ℕ) (slots slots' slots'' : List LockStateSlot)
    → Aged now slots slots'
    → Aged now slots' slots''
    → Aged now slots slots''
Aged-trans now slots slots' slots'' a b = record {
  size = b.size ∙ a.size;
  each = λ i. Ages-trans now (at slots i) (at slots' i) (at slots'' i) (a.each i) (b.each i);
}

-- An entry that is left is the one that was there, and a slot in use stays in use.
pub Ages-occupied : (now : ℕ) (s s' : LockStateSlot) → Ages now s s' → s'.state ≡ occupied → s' ≡ s
unfolding tombstone
Ages-occupied now s s' a o = ground arith

pub Ages-empty :
    (now : ℕ) (s s' : LockStateSlot) → Ages now s s' → s.state ≢ empty → s'.state ≢ empty
unfolding tombstone
Ages-empty now s s' a n o = ground arith

module _ (k now : ℕ) (slots slots' : List LockStateSlot) (a : Aged now slots slots') where
  -- An entry left after time has passed.
  left : (i : ℕ) → (at slots' i).state ≡ occupied → at slots' i ≡ at slots i
  left i o = Ages-occupied now (at slots i) (at slots' i) (a.each i) o

  busy_before : (i : ℕ) → (at slots' i).state ≡ occupied → (at slots i).state ≡ occupied
  busy_before i o = subst (λ (s : LockStateSlot). s.state ≡ occupied) (left i o) o

  pub Aged-IsTable : IsTable k slots → IsTable k slots'
  Aged-IsTable v = record {
    size = a.size ∙ v.size;
    hashed = λ i h o.
        subst (λ (s : LockStateSlot). s.key_hash ≡ lock_hash (slot_key s)) (sym (left i o))
          (v.hashed i h (busy_before i o));
    distinct = λ i j hi hj o o' e.
        v.distinct i j hi hj (busy_before i o) (busy_before j o')
          (sym (ap slot_key (left i o)) ∙ e ∙ ap slot_key (left j o'));
    chained = λ d e he hd hash o q. Ages-empty now _ _ (a.each (probe_index hash e (2 ^ k))) (
        v.chained d e he hd hash (busy_before _ o)
          (subst (λ (s : LockStateSlot). s.key_hash ≡ hash) (left _ o) q));
  }

abbrev Lapses : ℕ → List LockStateSlot → ℕ → ℕ → Type 0
Lapses now slots i n =
    ((at slots n).state ≡ occupied)
    × ((at slots n).expires_at_ms ≤ now)
    × (at (set slots i (tombstone (at slots i))) n ≡ tombstone (at slots n))

-- A lapsed slot made a tombstone.
pub set-Aged :
    (now : ℕ) (slots : List LockStateSlot) (i : ℕ)
    → (at slots i).state ≡ occupied
    → (at slots i).expires_at_ms ≤ now
    → i < length slots
    → Aged now slots (set slots i (tombstone (at slots i)))
set-Aged now slots i o x h = record {
  size = length-set slots i (tombstone (at slots i));
  each = λ j. elim (ℕ_discrete i j) [
    | yes e ↦ inr (subst (λ n. Lapses now slots i n) e (o, x, get_or-set_self slots i _ _ h))
    | no n ↦ inl (get_or-set_ne slots i j _ _ n)
  ];
}
