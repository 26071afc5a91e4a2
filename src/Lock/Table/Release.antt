-- ===== src/Lock/Table/Release.antt =====
-- `release_id`, `release_owner` and `force_release`: what each of their branches answers and leaves.
use orbitive.Prelude.{
  ℕ, suc, ◌^◌, ◌≤◌, ◌<◌, ◌≡◌, ◌≢◌, ◌↔◌, ◌⊎◌, inl, inr, refl, sym, ap, subst, ◌∙◌, Bool, true, false,
  Option, none, some, set, Result, ok, err, Result-cases, u64_mod, Bool-cases, dec_lt, arith,
}
use orbitive.Lock.Types.{LockKey, LockLease, released, Error, id_exhausted}
use orbitive.Lock.Table.Slot.{LockStateSlot, lease, tombstone, occupied}
use orbitive.Lock.Table.Probe.{lock_hash, at}
use orbitive.Lock.Table.Ops.{
  LockStateStore, LockTable, Publish, Outcome, mint_revision, live_slot, release_slot, with_live,
}
use orbitive.Lock.Table.Invariant.{Matches, Aged, Aged-refl}
use orbitive.Lock.Table.View.{Holds, Holds-unique, Holds-aged, Holds-set_other}
use orbitive.Lock.Table.Sound.{Sound, Sound-Aged}
use orbitive.Lock.Table.Lookup.{
  Free, Free-unheld, Lives, live_slot-Lives, tombstone-Free, tombstone-Aged,
}
use orbitive.Lock.Table.Walk.{tombstone-state}

module _ (c : LockStateStore) (publish : Publish) (key : LockKey) (now k : ℕ)
    (test : LockLease → Bool) where
  -- The branches of a release by a holder that passes `test`: the key is free and no other key is
  -- touched; nothing, if the key has no live lease that passes; or an error, if the revisions are
  -- used up or the event cannot be published.
  abbrev pub Releases : LockTable → Outcome Bool → Type 0
  Releases t (ok true, t') =
      (old : LockLease) × Holds k now t.slots key old
      × (test old ≡ true)
      × (publish (released old.lock_id old.key old.owner (suc t.next_revision)) ≡ ok tt)
      × Sound c k t'
      × Free k t'.slots key
      × ((other : LockKey)
          → other ≢ key
          → (later : ℕ) (l : LockLease)
          → Holds k later t'.slots other l ↔ Holds k later t.slots other l)
  Releases t (ok false, t') =
      Sound c k t'
      × Aged now t.slots t'.slots
      × ((l : LockLease) → Holds k now t.slots key l → test l ≡ false)
  Releases t (err e, t') =
      Sound c k t'
      × Aged now t.slots t'.slots
      × (((e ≡ id_exhausted) × ¬ (suc t.next_revision < u64_mod))
          ⊎ ((l : LockLease) × (r : ℕ) × (publish (released l.lock_id l.key l.owner r) ≡ err e)))

  module _ (small : k ≤ 64) (t : LockTable) (v : Sound c k t) where
    module _ (i : ℕ) (h : i < 2 ^ k) (m : Matches (at t.slots i) (lock_hash key) key)
        (live : now < (at t.slots i).expires_at_ms)
        (passes : test (lease (at t.slots i)) ≡ true) where
      abbrev old : LockLease
      old = lease (at t.slots i)

      spent : LockTable
      spent = record t { next_revision = suc t.next_revision }

      abbrev announced : Result Error (Unit {0})
      announced = publish (released old.lock_id old.key old.owner (suc t.next_revision))

      no_revision :
          ¬ (suc t.next_revision < u64_mod) → release_slot publish i t ≡ (err id_exhausted, t)
      unfolding release_slot mint_revision
      no_revision r = ground arith

      unpublished :
          (e : Error)
          → suc t.next_revision < u64_mod
          → announced ≡ err e
          → release_slot publish i t ≡ (err e, spent)
      unfolding release_slot mint_revision spent
      unpublished e r p = ground arith

      gives_up :
          suc t.next_revision < u64_mod
          → announced ≡ ok tt
          → release_slot publish i t
            ≡ (ok true, record spent { slots = set t.slots i (tombstone (at t.slots i)) })
      unfolding release_slot mint_revision spent
      gives_up r p = ground arith

      spent-Sound : Sound c k spent
      unfolding spent
      spent-Sound =
          Sound-Aged c k t v now t.next_lock _ t.slots (Aged-refl now t.slots) (omega arith) v.bound

      freed_Sound : Sound c k (record spent { slots = set t.slots i (tombstone (at t.slots i)) })
      unfolding spent
      freed_Sound =
          let expiry = (at t.slots i).expires_at_ms in
          Sound-Aged c k t v expiry t.next_lock _ _
            (tombstone-Aged k small key now t v.table i h m expiry (omega arith)) (omega arith)
            v.bound

      unused : (tombstone (at t.slots i)).state ≢ occupied
      unused o = let e = tombstone-state (at t.slots i) in cc

      release_slot-Releases : Releases t (release_slot publish i t)
      unfolding spent
      release_slot-Releases = elim (dec_lt (suc t.next_revision) u64_mod) [
        | no r ↦ subst (Releases t) (sym (no_revision r)) (v, Aged-refl now t.slots, inl (refl, r))
        | yes r ↦ elim (Result-cases announced) [
          | inr (e, p) ↦
              subst (Releases t) (sym (unpublished e r p))
                (spent-Sound, Aged-refl now t.slots, inr (old, _, p))
          | inl (u, p) ↦ subst (Releases t) (sym (gives_up r p)) (
            old,
            record { index = i; inside = h; entry = m; live = live; said = refl },
            passes,
            p,
            freed_Sound,
            tombstone-Free k small key now t v.table i h m,
            λ other n later l.
                Holds-set_other k t.slots v.table i h (tombstone (at t.slots i)) key other later l
                  (inr m.key_eq) (inl unused) n,
          )
        ]
      ]

    module _ (accept : LockStateSlot → Bool)
        (same : (s : LockStateSlot) → accept s ≡ test (lease s)) where
      answer :
          (found : Option ℕ × LockTable)
          → Lives k key now t found
          → Releases t (with_live found accept false (λ i u. release_slot publish i u))
      answer (none, t') (a, n, r, free) = (
        Sound-Aged c k t v now t'.next_lock t'.next_revision t'.slots a (omega arith)
            (let b = v.bound in omega arith),
        a,
        λ l x. absurd (
            Free-unheld k now t'.slots key l free
              ((Holds-aged k now now (omega arith) t.slots t'.slots a key l).1 x)),
      )
      answer (some i, t') (e, h, m, live) =
          subst
            (λ (u : LockTable).
              Releases t (with_live (some i, u) accept false (λ i u. release_slot publish i u)))
            (sym e)
            (elim (Bool-cases (accept (at t.slots i))) [
              | inl y ↦
                  subst (Releases t) (sym (pass y))
                    (release_slot-Releases i h m live (sym (same _) ∙ y))
              | inr n ↦ subst (Releases t) (sym (refuse n)) (
                v,
                Aged-refl now t.slots,
                λ l x.
                    ap test (
                      Holds-unique k now t.slots key l _ v.table x
                        (record { index = i; inside = h; entry = m; live = live; said = refl }))
                    ∙ sym (same _)
                    ∙ n,
              )
            ])
        where
          pass :
              accept (at t.slots i) ≡ true
              → with_live (some i, t) accept false (λ i u. release_slot publish i u)
                ≡ release_slot publish i t
          pass y = ground arith

          refuse :
              accept (at t.slots i) ≡ false
              → with_live (some i, t) accept false (λ i u. release_slot publish i u) ≡ (ok false, t)
          refuse y = ground arith

      pub with_live-Releases :
          Releases t
            (with_live (live_slot key now t) accept false (λ i u. release_slot publish i u))
      with_live-Releases = answer _ (live_slot-Lives k small key now t v.table)
