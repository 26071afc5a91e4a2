-- ===== src/Lock/Table/View.antt =====
-- What a table says to its users: the live lease of each key. Ageing does not change it, and a write
-- changes it for the written key alone.
use orbitive.Prelude.{
  ℕ, ◌^◌, ◌≤◌, ◌<◌, ◌≡◌, ◌≢◌, ◌↔◌, ◌⊎◌, inl, inr, refl, sym, ap, subst, ◌∙◌, List, set, length-set,
  get_or-set_self, get_or-set_ne, ℕ_discrete, arith,
}
use orbitive.Lock.Types.{LockKey, LockLease}
use orbitive.Lock.Table.Slot.{empty, occupied, LockStateSlot, lease}
use orbitive.Lock.Table.Probe.{lock_hash, probe_index, at}
use orbitive.Lock.Table.Invariant.{slot_key, Matches, IsTable, Ages, Aged, Ages-occupied}

-- At time `now` the key's lease is `l`.
pub record Holds (k now : ℕ) (slots : List LockStateSlot) (key : LockKey) (l : LockLease)
    : Type 0 where
  pub index : ℕ
  pub inside : index < 2 ^ k
  pub entry : Matches (at slots index) (lock_hash key) key
  pub live : now < (at slots index).expires_at_ms
  pub said : lease (at slots index) ≡ l

-- A key has one lease at most.
pub Holds-unique :
    (k now : ℕ) (slots : List LockStateSlot) (key : LockKey) (l l' : LockLease)
    → IsTable k slots
    → Holds k now slots key l
    → Holds k now slots key l'
    → l ≡ l'
Holds-unique k now slots key l l' v h h' =
    let same =
      v.distinct h.index h'.index h.inside h'.inside h.entry.busy h'.entry.busy
        (h.entry.key_eq ∙ sym h'.entry.key_eq) in
    sym h.said ∙ ap (λ i. lease (at slots i)) same ∙ h'.said

Holds_moved :
    (k later : ℕ) (key : LockKey) (l : LockLease) (from to : List LockStateSlot)
    → (h : Holds k later from key l) → at to h.index ≡ at from h.index
    → Holds k later to key l
Holds_moved k later key l from to h e = record {
  index = h.index;
  inside = h.inside;
  entry = subst (λ (s : LockStateSlot). Matches s (lock_hash key) key) (sym e) h.entry;
  live = subst (λ (s : LockStateSlot). later < s.expires_at_ms) (sym e) h.live;
  said = ap lease e ∙ h.said;
}

module _ (k now later : ℕ) (ordered : now ≤ later) (slots slots' : List LockStateSlot)
    (a : Aged now slots slots') (key : LockKey) (l : LockLease) where
  kept_live : (s s' : LockStateSlot) → Ages now s s' → later < s.expires_at_ms → s' ≡ s
  kept_live s s' (inl e) h = e
  kept_live s s' (inr x) h = absurd (omega arith)

  -- What lapses by `now` is no lease at any later time.
  pub Holds-aged : Holds k later slots' key l ↔ Holds k later slots key l
  Holds-aged = (
    λ h.
        Holds_moved k later key l slots' slots h
          (sym (Ages-occupied now _ _ (a.each h.index) h.entry.busy)),
    λ h. Holds_moved k later key l slots slots' h (kept_live _ _ (a.each h.index) h.live),
  )

-- What a slot must be for an entry of `key` to be written to it.
abbrev pub Open : LockKey → LockStateSlot → Type 0
Open key s = (s.state ≢ occupied) ⊎ (slot_key s ≡ key)

not_other :
    (key other : LockKey) (hash : ℕ) (s : LockStateSlot)
    → Open key s
    → other ≢ key
    → ¬ Matches s hash other
not_other key other hash s (inl unused) n m = unused m.busy
not_other key other hash s (inr same) n m = n (sym m.key_eq ∙ same)

module _ (k : ℕ) (slots : List LockStateSlot) (v : IsTable k slots) (i : ℕ) (h : i < 2 ^ k)
    (s : LockStateSlot) where
  pub at-set_self : at (set slots i s) i ≡ s
  at-set_self = get_or-set_self slots i s _ (subst (λ n. i < n) (sym v.size) h)

  at-set_ne : (j : ℕ) → i ≢ j → at (set slots i s) j ≡ at slots j
  at-set_ne j n = get_or-set_ne slots i j s _ n

  -- A statement about every slot after the write.
  pub by_slot :
      (P : ℕ → LockStateSlot → Type 0)
      → P i s
      → ((j : ℕ) → i ≢ j → P j (at slots j))
      → (j : ℕ) → P j (at (set slots i s) j)
  by_slot P new old j = elim (ℕ_discrete i j) [
    | yes e ↦ subst (λ m. P m (at (set slots i s) m)) e (subst (P i) (sym at-set_self) new)
    | no n ↦ subst (P j) (sym (at-set_ne j n)) (old j n)
  ]

  -- A write that neither drops nor adds an entry of another key leaves the other keys' leases.
  pub Holds-set_other :
      (key other : LockKey) (later : ℕ) (l : LockLease)
      → Open key (at slots i)
      → Open key s
      → other ≢ key
      → Holds k later (set slots i s) other l ↔ Holds k later slots other l
  Holds-set_other key other later l o o' n = (
    λ x. Holds_moved k later other l (set slots i s) slots x (sym (apart x.index (after x))),
    λ x. Holds_moved k later other l slots (set slots i s) x (apart x.index (before x)),
  )
    where
      apart : (j : ℕ) → i ≢ j → at (set slots i s) j ≡ at slots j
      apart j m = at-set_ne j m

      after : (x : Holds k later (set slots i s) other l) → i ≢ x.index
      after x e = not_other key other (lock_hash other) s o' n (
          subst (λ (t : LockStateSlot). Matches t (lock_hash other) other)
            (ap (at (set slots i s)) (sym e) ∙ at-set_self) x.entry)

      before : (x : Holds k later slots other l) → i ≢ x.index
      before x e =
          not_other key other (lock_hash other) (at slots i) o n
            (subst (λ j. Matches (at slots j) (lock_hash other) other) (sym e) x.entry)

  -- The key that was written has the lease that was written.
  pub Holds-set_self :
      (key : LockKey) (later : ℕ)
      → Matches s (lock_hash key) key
      → later < s.expires_at_ms
      → Holds k later (set slots i s) key (lease s)
  Holds-set_self key later m x = record {
    index = i;
    inside = h;
    entry = subst (λ (t : LockStateSlot). Matches t (lock_hash key) key) (sym at-set_self) m;
    live = subst (λ (t : LockStateSlot). later < t.expires_at_ms) (sym at-set_self) x;
    said = ap lease at-set_self;
  }

  -- A write keeps the table's invariant if its key stands nowhere else and a lookup reaches it.
  pub set-IsTable :
      s.state ≡ occupied
      → s.key_hash ≡ lock_hash (slot_key s)
      → ((j : ℕ)
          → j < 2 ^ k
          → i ≢ j
          → (at slots j).state ≡ occupied
          → slot_key (at slots j) ≢ slot_key s)
      → ((d e : ℕ)
          → e < d
          → d < 2 ^ k
          → probe_index s.key_hash d (2 ^ k) ≡ i
          → (at slots (probe_index s.key_hash e (2 ^ k))).state ≢ empty)
      → IsTable k (set slots i s)
  set-IsTable o q unique reached = record {
    size = length-set slots i s ∙ v.size;
    hashed =
        by_slot (λ j t. j < 2 ^ k → t.state ≡ occupied → t.key_hash ≡ lock_hash (slot_key t))
          (λ _ _. q) (λ j n hj oj. v.hashed j hj oj);
    distinct = λ j m.
        by_slot
          (λ j t.
            j < 2 ^ k
            → m < 2 ^ k
            → t.state ≡ occupied
            → (at (set slots i s) m).state ≡ occupied
            → slot_key t ≡ slot_key (at (set slots i s) m)
            → j ≡ m)
          (by_slot
            (λ m u.
              i < 2 ^ k
              → m < 2 ^ k
              → s.state ≡ occupied
              → u.state ≡ occupied
              → slot_key s ≡ slot_key u
              → i ≡ m)
            (λ _ _ _ _ _. refl) (λ m n _ hm _ om e. absurd (unique m hm n om (sym e))) m)
          (λ j n.
            by_slot
              (λ m u.
                j < 2 ^ k
                → m < 2 ^ k
                → (at slots j).state ≡ occupied
                → u.state ≡ occupied
                → slot_key (at slots j) ≡ slot_key u
                → j ≡ m)
              (λ hj _ oj _ e. absurd (unique j hj n oj e))
              (λ m n' hj hm oj om e. v.distinct j m hj hm oj om e) m)
          j;
    chained = λ d e he hd hash.
        by_slot
          (λ j t.
            probe_index hash d (2 ^ k) ≡ j
            → t.state ≡ occupied
            → t.key_hash ≡ hash
            → (at (set slots i s) (probe_index hash e (2 ^ k))).state ≢ empty)
          (λ r _ w. stays (probe_index hash e (2 ^ k)) (
            subst (λ g. (at slots (probe_index g e (2 ^ k))).state ≢ empty) w
              (reached d e he hd (ap (λ g. probe_index g d (2 ^ k)) w ∙ r))))
          (λ j n r oj w. stays (probe_index hash e (2 ^ k)) (
            v.chained d e he hd hash (subst (λ m. (at slots m).state ≡ occupied) (sym r) oj)
              (subst (λ m. (at slots m).key_hash ≡ hash) (sym r) w)))
          (probe_index hash d (2 ^ k)) refl;
  }
    where
      stays : (m : ℕ) → (at slots m).state ≢ empty → (at (set slots i s) m).state ≢ empty
      stays = by_slot (λ m u. (at slots m).state ≢ empty → u.state ≢ empty) (λ _ e. cc) (λ m n h. h)
