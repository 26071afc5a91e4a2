-- ===== src/Lock/Table/Scanning.antt =====
-- What the scan of `acquire` has established when it ends.
use orbitive.Prelude.{
  ℕ, zero, suc, ◌+◌, ◌^◌, ◌≤◌, ◌<◌, ◌≡◌, refl, sym, ap, subst, ◌∙◌, List, Option, none, length, set,
  get_or-set_self, arith,
}
use orbitive.Lock.Types.{LockKey}
use orbitive.Lock.Table.Slot.{empty, LockStateSlot, tombstone}
use orbitive.Lock.Table.Probe.{
  probe_index, at, vacant, reusable, lapsed, found, passed, arm, Arm, get_or_insert, Scan, room,
  scan,
}
use orbitive.Lock.Table.Sequence.{probe_index-lt}
use orbitive.Lock.Table.Invariant.{
  matches_iff, IsTable, Aged, Aged-refl, Aged-trans, Aged-IsTable, set-Aged,
}
use orbitive.Lock.Table.Arms.{
  scan-vacant, scan-reusable, scan-lapsed, scan-found, scan-passed, arm-Says,
}
use orbitive.Lock.Table.Find.{absent_past_empty, absent_all}
use orbitive.Lock.Table.Walk.{
  along, Walked, Ends, tombstone-state, Walked-aged, Spot-here, Walked-tombstone, Walked-passed,
}

module _ (k hash now : ℕ) (key : LockKey) (small : k ≤ 64) where
  -- The walk stops at an empty slot: no entry of the key lies beyond it.
  Ends-empty :
      (slots : List LockStateSlot) (d : ℕ) (ins : Option ℕ)
      → IsTable k slots
      → d < 2 ^ k
      → Walked k hash now key slots d ins
      → (at slots (along k hash d)).state ≡ empty
      → Ends k hash now key slots (room (get_or_insert ins (along k hash d)))
  Ends-empty slots d ins v h w e = (
    absent_past_empty k hash small key slots d v w.unmatched e,
    Spot-here k hash now key slots d h (2 ^ k) ins w.spot w.nonempty (λ o. cc),
  )

  -- The walk has seen every slot.
  Ends-all :
      (slots : List LockStateSlot) (ins : Option ℕ)
      → Walked k hash now key slots (2 ^ k) ins
      → Ends k hash now key slots (room ins)
  Ends-all slots ins w = (absent_all k hash small key slots w.unmatched, w.spot)

  abbrev pub Done : List LockStateSlot → List LockStateSlot × Scan → Type 0
  Done slots end = Aged now slots end.0 × Ends k hash now key end.0 end.1

  -- The rounds left establish it from any walk of one slot more.
  abbrev Continues : (rounds d : ℕ) → Type 0
  Continues rounds d =
      (slots : List LockStateSlot) (ins : Option ℕ)
      → IsTable k slots
      → Walked k hash now key slots d ins
      → Done slots (scan key hash now rounds d slots ins)

  module _ (rounds d : ℕ) (ih : Continues rounds (suc d)) (h : d < 2 ^ k)
      (slots : List LockStateSlot) (ins : Option ℕ) (v : IsTable k slots)
      (w : Walked k hash now key slots d ins) where
    here : probe_index hash d (length slots) ≡ along k hash d
    here = ap (probe_index hash d) v.size

    scan_round :
        (a : Arm)
        → arm (at slots (along k hash d)) hash key now ≡ a
        → Done slots (scan key hash now (suc rounds) d slots ins)
    scan_round vacant e =
        subst (Done slots) (sym (scan-vacant key hash now rounds d slots ins _ here e))
          (Aged-refl now slots, Ends-empty slots d ins v h w (arm-Says hash key now _ vacant e))
    scan_round reusable e =
        subst (Done slots) (sym (scan-reusable key hash now rounds d slots ins _ here e)) (
          ih slots _ v
            (Walked-tombstone k hash now key slots d h ins w (arm-Says hash key now _ reusable e)))
    scan_round lapsed e =
        let (o, x) = arm-Says hash key now _ lapsed e in
        let i : ℕ = along k hash d in
        let inside = subst (λ n. i < n) (sym v.size) (probe_index-lt k hash small d) in
        let slots' = set slots i (tombstone (at slots i)) in
        let aged = set-Aged now slots i o x inside in
        let there =
          ap (λ (t : LockStateSlot). t.state)
            (get_or-set_self slots i (tombstone (at slots i)) _ inside) in
        let (b, ends) = ih slots' _ (Aged-IsTable k now slots slots' aged v) (
          Walked-tombstone k hash now key slots' d h ins
            (Walked-aged k hash now slots slots' aged key d ins w)
            (there ∙ tombstone-state (at slots i))) in
        subst (Done slots) (sym (scan-lapsed key hash now rounds d slots ins _ here e))
          (Aged-trans now slots slots' _ aged b, ends)
    scan_round found e =
        let (o, live, m) = arm-Says hash key now _ found e in
        subst (Done slots) (sym (scan-found key hash now rounds d slots ins _ here e)) (
          Aged-refl now slots,
          (along k hash d, probe_index-lt k hash small d, (matches_iff _ hash key).0 m, live, refl),
        )
    scan_round passed e =
        let (o, live, m) = arm-Says hash key now _ passed e in
        subst (Done slots) (sym (scan-passed key hash now rounds d slots ins _ here e)) (
          ih slots ins v (
            Walked-passed k hash now key slots d h ins w (o, live)
              (λ q. let t = (matches_iff _ hash key).1 q in cc)))

  scan-Ends : (rounds d : ℕ) → rounds + d ≡ 2 ^ k → Continues rounds d
  unfolding scan
  scan-Ends zero d r slots ins v w = (
    Aged-refl now slots,
    Ends-all slots ins (subst (λ n. Walked k hash now key slots n ins) r' w),
  )
    where
      r' : d ≡ 2 ^ k
      r' = omega arith
  scan-Ends (suc rounds) d r slots ins v w =
      scan_round rounds d (scan-Ends rounds (suc d) (omega arith)) (omega arith) slots ins v w _
        refl

  -- From the start, the whole scan of `acquire`.
  pub scan_lem :
      (slots : List LockStateSlot)
      → IsTable k slots
      → Done slots (scan key hash now (length slots) 0 slots none)
  scan_lem slots v = scan-Ends (length slots) 0 (omega (arith, v.size)) slots none v (record {
    nonempty = λ e h. absurd (omega arith);
    unmatched = λ e h m. omega arith;
    spot = λ e h. absurd (omega arith);
  })
