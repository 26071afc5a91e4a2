-- ===== src/Lock/Table/Find.antt =====
-- A lookup finds an entry of the key exactly if the table holds one.
use orbitive.Prelude.{
  ℕ, zero, suc, ◌+◌, ◌^◌, ◌≤◌, ◌<◌, ◌≡◌, ◌≢◌, ◌⊎◌, inl, inr, refl, sym, ap, subst, true, false,
  List, Option, none, some, length, Bool-cases, dec_lt, ℕ_discrete, arith,
}
use orbitive.Lock.Types.{LockKey}
use orbitive.Lock.Table.Slot.{SlotState, empty, occupied, tombstoned, LockStateSlot, matches}
use orbitive.Lock.Table.Probe.{probe_index, at, find_from, find_slot}
use orbitive.Lock.Table.Sequence.{probe_index-lt, offset_of, offset_of-lt, probe_index-offset_of}
use orbitive.Lock.Table.Invariant.{Matches, matches_iff, IsTable}

module _ (k hash : ℕ) (small : k ≤ 64) (key : LockKey) (slots : List LockStateSlot) where
  abbrev pub Unmatched : ℕ → Type 0
  Unmatched d = (e : ℕ) → e < d → ¬ Matches (at slots (probe_index hash e (2 ^ k))) hash key

  abbrev pub Absent : Type 0
  Absent = (i : ℕ) → i < 2 ^ k → ¬ Matches (at slots i) hash key

  -- A slot of the table, by the offset at which the sequence reaches it.
  by_offset :
      ((f : ℕ) → f < 2 ^ k → ¬ Matches (at slots (probe_index hash f (2 ^ k))) hash key) → Absent
  by_offset none_at i hi m =
      none_at (offset_of k hash small i) (offset_of-lt k hash small i) (
        subst (λ j. Matches (at slots j) hash key) (sym (probe_index-offset_of k hash small i hi))
          m)

  pub absent_all : Unmatched (2 ^ k) → Absent
  absent_all none_at = by_offset none_at

  -- No entry of the key lies beyond an empty slot of its sequence.
  pub absent_past_empty :
      (d : ℕ)
      → IsTable k slots
      → Unmatched d
      → (at slots (probe_index hash d (2 ^ k))).state ≡ empty
      → Absent
  absent_past_empty d v none_at e = by_offset beyond
    where
      beyond : (f : ℕ) → f < 2 ^ k → Matches (at slots (probe_index hash f (2 ^ k))) hash key → ⊥
      beyond f hf m = elim (dec_lt f d) [
        | yes lt ↦ none_at f lt m
        | no ge ↦ elim (ℕ_discrete f d) [
          | yes same ↦
              (let o =
                  subst (λ g. (at slots (probe_index hash g (2 ^ k))).state ≡ occupied) same
                    m.busy in
                cc)
          | no other ↦ v.chained f d (omega arith) hf hash m.busy m.hash_eq e
        ]
      ]

  abbrev pub Finds : Option ℕ → Type 0
  Finds none = Absent
  Finds (some i) = (i < 2 ^ k) × Matches (at slots i) hash key

state-cases : (s : LockStateSlot) → (s.state ≡ empty) ⊎ (s.state ≢ empty)
state-cases s = go s.state refl
  where
    go : (t : SlotState) → s.state ≡ t → (s.state ≡ empty) ⊎ (s.state ≢ empty)
    go empty e = inl e
    go occupied e = inr (λ f. cc)
    go tombstoned e = inr (λ f. cc)

module _ (hash : ℕ) (key : LockKey) (slots : List LockStateSlot) (rounds d i : ℕ)
    (e : probe_index hash d (length slots) ≡ i) where
  find-empty : (at slots i).state ≡ empty → find_from slots hash key (suc rounds) d ≡ none
  unfolding find_from
  find-empty s = ground arith

  find-match :
      matches (at slots i) hash key ≡ true → find_from slots hash key (suc rounds) d ≡ some i
  unfolding find_from
  find-match m = let q = (matches_iff _ hash key).0 m in ground (arith, q.busy)

  find-on :
      (at slots i).state ≢ empty
      → matches (at slots i) hash key ≡ false
      → find_from slots hash key (suc rounds) d ≡ find_from slots hash key rounds (suc d)
  unfolding find_from
  find-on n m = ground arith

module _ (k hash : ℕ) (small : k ≤ 64) (key : LockKey) (slots : List LockStateSlot)
    (v : IsTable k slots) where
  find_round :
      (rounds d : ℕ)
      → d < 2 ^ k
      → Unmatched k hash small key slots d
      → (Unmatched k hash small key slots (suc d)
          → Finds k hash small key slots (find_from slots hash key rounds (suc d)))
      → Finds k hash small key slots (find_from slots hash key (suc rounds) d)
  find_round rounds d h w ih = elim (Bool-cases (matches (at slots i) hash key)) [
    | inl m ↦
        subst (Finds k hash small key slots) (sym (find-match hash key slots rounds d i here m))
          (probe_index-lt k hash small d, (matches_iff _ hash key).0 m)
    | inr m ↦ elim (state-cases (at slots i)) [
      | inl e ↦
          subst (Finds k hash small key slots) (sym (find-empty hash key slots rounds d i here e))
            (absent_past_empty k hash small key slots d v w e)
      | inr n ↦
          subst (Finds k hash small key slots) (sym (find-on hash key slots rounds d i here n m))
            (ih (further m))
    ]
  ]
    where
      i : ℕ
      i = probe_index hash d (2 ^ k)

      here : probe_index hash d (length slots) ≡ i
      here = ap (probe_index hash d) v.size

      further : matches (at slots i) hash key ≡ false → Unmatched k hash small key slots (suc d)
      further m e he q = elim (ℕ_discrete d e) [
        | yes same ↦
            (let t = (matches_iff _ hash key).1 (
                subst (λ g. Matches (at slots (probe_index hash g (2 ^ k))) hash key) (sym same)
                  q) in
              cc)
        | no other ↦ w e (omega arith) q
      ]

  find-Finds :
      (rounds d : ℕ)
      → rounds + d ≡ 2 ^ k
      → Unmatched k hash small key slots d
      → Finds k hash small key slots (find_from slots hash key rounds d)
  unfolding find_from
  find-Finds zero d r w = absent_all k hash small key slots (λ e h. w e (omega arith))
  find-Finds (suc rounds) d r w =
      find_round rounds d (omega arith) w (find-Finds rounds (suc d) (omega arith))

  -- `find_slot` answers with an entry of the key, or there is none anywhere in the table.
  pub find_slot-Finds : Finds k hash small key slots (find_slot slots hash key)
  unfolding find_slot
  find_slot-Finds =
      find-Finds (length slots) 0 (omega (arith, v.size)) (λ e h. absurd (omega arith))
