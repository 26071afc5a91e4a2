-- ===== src/Lock/Table/Renew.antt =====
-- `renew_id` and `renew_owner`: what each of their branches answers and leaves.
use orbitive.Prelude.{
  ℕ, suc, ◌+◌, ◌^◌, ◌≤◌, ◌<◌, ◌≡◌, ◌⊎◌, inl, inr, refl, sym, ap, subst, ◌∙◌, Bool, true, false,
  Option, none, some, length, set, max, drop, length-take, ok, err, Result-cases, u16_mod, u64_mod,
  Bool-cases, dec_lt, arith,
}
use orbitive.Lock.Types.{LockKey, LockLease, renewed, Error, id_exhausted}
use orbitive.Lock.Table.Slot.{LockStateSlot, lease, owner_bytes, write}
use orbitive.Lock.Table.Slot.Layout.{Fits, write-fields}
use orbitive.Lock.Table.Probe.{lock_hash, at}
use orbitive.Lock.Table.Ops.{
  LockStateStore, LockTable, Publish, Outcome, mint_revision, live_slot, renew_slot, with_live,
}
use orbitive.Lock.Table.Invariant.{Matches, Aged, Aged-refl}
use orbitive.Lock.Table.View.{Holds, Holds-unique, Holds-aged}
use orbitive.Lock.Table.Sound.{Sound, Sound-Aged, Sound-set}
use orbitive.Lock.Table.Lookup.{Free-unheld, Lives, live_slot-Lives}
use orbitive.Lock.Table.Writing.{Writes, write-over, write-owner_len}

owner_bytes-fits : (s : LockStateSlot) → s.owner_len < u16_mod → length (owner_bytes s) < u16_mod
unfolding owner_bytes
owner_bytes-fits s h =
    let n = length-take s.owner_len (drop (s.namespace_len + s.key_len) s.payload) in omega arith

-- The lease that a renewal makes of the one before.
abbrev pub extended : LockLease → (requested revision : ℕ) → LockLease
extended old requested revision = record old {
  expires_at_ms = max old.expires_at_ms requested;
  state_revision = revision;
}

module _ (c : LockStateStore) (publish : Publish) (key : LockKey) (now requested k : ℕ)
    (test : LockLease → Bool) where
  -- The branches of a renewal by a holder that passes `test`: the key's live lease with a later
  -- expiry, which only grows, and a new revision; nothing, if the key has no live lease that passes;
  -- or an error, if the revisions are used up or the event cannot be published.
  abbrev pub Renews : LockTable → Outcome (Option LockLease) → Type 0
  Renews t (ok (some l), t') =
      (old : LockLease) × Holds k now t.slots key old
      × (test old ≡ true)
      × (l ≡ extended old requested (suc t.next_revision))
      × (publish (renewed l) ≡ ok tt)
      × Sound c k t'
      × Writes k t.slots t'.slots l
  Renews t (ok none, t') =
      Sound c k t'
      × Aged now t.slots t'.slots
      × ((l : LockLease) → Holds k now t.slots key l → test l ≡ false)
  Renews t (err e, t') =
      Sound c k t'
      × Aged now t.slots t'.slots
      × (((e ≡ id_exhausted) × ¬ (suc t.next_revision < u64_mod))
          ⊎ ((l : LockLease) × (publish (renewed l) ≡ err e)))

  module _ (small : k ≤ 64) (t : LockTable) (v : Sound c k t)
      (lengths : (length key.namespace < u16_mod) × (length key.label < u16_mod)) where
    module _ (i : ℕ) (h : i < 2 ^ k) (m : Matches (at t.slots i) (lock_hash key) key)
        (live : now < (at t.slots i).expires_at_ms)
        (passes : test (lease (at t.slots i)) ≡ true) where
      abbrev old : LockLease
      old = lease (at t.slots i)

      abbrev new : LockLease
      new = extended old requested (suc t.next_revision)

      spent : LockTable
      spent = record t { next_revision = suc t.next_revision }

      no_revision :
          ¬ (suc t.next_revision < u64_mod)
          → renew_slot publish i requested t ≡ (err id_exhausted, t)
      unfolding renew_slot mint_revision
      no_revision r = ground arith

      unpublished :
          (e : Error)
          → suc t.next_revision < u64_mod
          → publish (renewed new) ≡ err e
          → renew_slot publish i requested t ≡ (err e, spent)
      unfolding renew_slot mint_revision spent
      unpublished e r p = ground arith

      extends :
          suc t.next_revision < u64_mod
          → publish (renewed new) ≡ ok tt
          → renew_slot publish i requested t ≡ (
            ok (some new),
            record spent {
              slots = set t.slots i (write (at t.slots i) (at t.slots i).key_hash new);
            },
          )
      unfolding renew_slot mint_revision spent
      extends r p = ground arith

      old_key : new.key ≡ key
      unfolding lease
      old_key = m.key_eq

      fits : Fits new
      unfolding lease
      fits =
          let o = owner_bytes-fits (at t.slots i) (v.words i h) in
          let n = ap (λ (x : LockKey). length x.namespace) m.key_eq in
          let n' = ap (λ (x : LockKey). length x.label) m.key_eq in
          (omega (arith, lengths), omega (arith, lengths), o)

      same_id : new.lock_id ≡ (at t.slots i).lock_id
      unfolding lease
      same_id = refl

      spent-Sound : Sound c k spent
      unfolding spent
      spent-Sound =
          Sound-Aged c k t v now t.next_lock _ t.slots (Aged-refl now t.slots) (omega arith) v.bound

      at_slot :
          Writes k t.slots (set t.slots i (write (at t.slots i) (at t.slots i).key_hash new)) new
      at_slot =
          write-over k t.slots v.table i h new fits (at t.slots i).key_hash
            (m.hash_eq ∙ ap lock_hash (sym old_key))
            (subst (λ x. Matches (at t.slots i) (lock_hash x) x) (sym old_key) m)

      extended_Sound : Sound c k (record spent {
        slots = set t.slots i (write (at t.slots i) (at t.slots i).key_hash new);
      })
      unfolding spent
      extended_Sound =
          let f = write-fields (at t.slots i) (at t.slots i).key_hash new in
          let id = ap c.ids.counter (f.2 ∙ same_id) in
          let issued = v.issued i h m.busy in
          Sound-set c k spent spent-Sound i _ h at_slot.kept
            (write-owner_len (at t.slots i) (at t.slots i).key_hash new) (omega arith)

      renew_slot-Renews : Renews t (renew_slot publish i requested t)
      unfolding spent
      renew_slot-Renews = elim (dec_lt (suc t.next_revision) u64_mod) [
        | no r ↦ subst (Renews t) (sym (no_revision r)) (v, Aged-refl now t.slots, inl (refl, r))
        | yes r ↦ elim (Result-cases (publish (renewed new))) [
          | inr (e, p) ↦
              subst (Renews t) (sym (unpublished e r p))
                (spent-Sound, Aged-refl now t.slots, inr (new, p))
          | inl (u, p) ↦ subst (Renews t) (sym (extends r p)) (
            old,
            record { index = i; inside = h; entry = m; live = live; said = refl },
            passes,
            refl,
            p,
            extended_Sound,
            at_slot,
          )
        ]
      ]

    module _ (accept : LockStateSlot → Bool)
        (same : (s : LockStateSlot) → accept s ≡ test (lease s)) where
      answer :
          (found : Option ℕ × LockTable)
          → Lives k key now t found
          → Renews t (with_live found accept none (λ i u. renew_slot publish i requested u))
      answer (none, t') (a, n, r, free) = (
        Sound-Aged c k t v now t'.next_lock t'.next_revision t'.slots a (omega arith)
            (let b = v.bound in omega arith),
        a,
        λ l x. absurd (
            Free-unheld k now t'.slots key l free
              ((Holds-aged k now now (omega arith) t.slots t'.slots a key l).1 x)),
      )
      answer (some i, t') (e, h, m, live) =
          subst
            (λ (u : LockTable).
              Renews t
                (with_live (some i, u) accept none (λ i u. renew_slot publish i requested u)))
            (sym e)
            (elim (Bool-cases (accept (at t.slots i))) [
              | inl y ↦
                  subst (Renews t) (sym (pass y)) (renew_slot-Renews i h m live (sym (same _) ∙ y))
              | inr n ↦ subst (Renews t) (sym (refuse n)) (
                v,
                Aged-refl now t.slots,
                λ l x.
                    ap test (
                      Holds-unique k now t.slots key l _ v.table x
                        (record { index = i; inside = h; entry = m; live = live; said = refl }))
                    ∙ sym (same _)
                    ∙ n,
              )
            ])
        where
          pass :
              accept (at t.slots i) ≡ true
              → with_live (some i, t) accept none (λ i u. renew_slot publish i requested u)
                ≡ renew_slot publish i requested t
          pass y = ground arith

          refuse :
              accept (at t.slots i) ≡ false
              → with_live (some i, t) accept none (λ i u. renew_slot publish i requested u)
                ≡ (ok none, t)
          refuse y = ground arith

      pub with_live-Renews :
          Renews t
            (with_live (live_slot key now t) accept none (λ i u. renew_slot publish i requested u))
      with_live-Renews = answer _ (live_slot-Lives k small key now t v.table)
