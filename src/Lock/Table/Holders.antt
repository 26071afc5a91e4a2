-- ===== src/Lock/Table/Holders.antt =====
-- The operations of holders: `renew_id`, `renew_owner`, `release_id`, `release_owner` and
-- `force_release`.
use orbitive.Prelude.{
  ℕ, ◌≤◌, ◌<◌, ◌≡◌, ◌==◌, inl, inr, refl, sym, subst, Bool, true, false, leb, none, length, ok,
  Bool-cases, Option-cases, bytes_eq, u16_mod, arith,
}
use orbitive.Lock.Types.{LockKey, LockOwner, LockLease}
use orbitive.Lock.Table.Slot.{LockStateSlot, owner_bytes, lease}
use orbitive.Lock.Table.Probe.{lock_hash, at, find_slot}
use orbitive.Lock.Table.Ops.{
  LockStateStore, LockTable, Publish, validate_key, validate_entry, live_slot, renew_slot,
  release_slot, with_live, renew_id, renew_owner, release_id, release_owner, force_release,
}
use orbitive.Lock.Table.Sound.{Sound, validate_entry-lengths}
use orbitive.Lock.Table.Renew.{Renews, with_live-Renews}
use orbitive.Lock.Table.Release.{Releases, with_live-Releases}

-- How `renew_id` and `renew_owner` know the holder: by the id of the lease, or by the owner's bytes.
abbrev pub by_id : (lock_id : ℕ) → LockLease → Bool
by_id lock_id l = l.lock_id == lock_id

abbrev pub by_owner : LockOwner → LockLease → Bool
by_owner owner l = bytes_eq l.owner owner

-- `force_release` asks for no holder.
abbrev pub by_anyone : LockLease → Bool
by_anyone l = true

id_same : (lock_id : ℕ) (s : LockStateSlot) → (s.lock_id == lock_id) ≡ by_id lock_id (lease s)
unfolding lease
id_same lock_id s = refl

owner_same :
    (owner : LockOwner) (s : LockStateSlot)
    → bytes_eq (owner_bytes s) owner ≡ by_owner owner (lease s)
unfolding lease
owner_same owner s = refl

module _ (c : LockStateStore) (publish : Publish) (now k : ℕ) (small : k ≤ 64) (t : LockTable)
    (v : Sound c k t) where
  module _ (key : LockKey) (owner : LockOwner) (valid : validate_entry c key owner ≡ ok tt) where
    lengths : (length key.namespace < u16_mod) × (length key.label < u16_mod)
    lengths = let n = validate_entry-lengths c key owner valid in (n.0, n.1)

    renew_owner-eq :
        (requested : ℕ)
        → renew_owner c publish key owner now requested t
          ≡ with_live
              (live_slot key now t)
              (λ s. bytes_eq (owner_bytes s) owner)
              none
              (λ i u. renew_slot publish i requested u)
    unfolding renew_owner
    renew_owner-eq requested = ground arith

    release_owner-eq :
        release_owner c publish key owner now t
        ≡ with_live
            (live_slot key now t)
            (λ s. bytes_eq (owner_bytes s) owner)
            false
            (λ i u. release_slot publish i u)
    unfolding release_owner
    release_owner-eq = ground arith

    -- For a valid entry, `renew_owner` extends the key's live lease exactly if it has that owner.
    pub renew_owner-Renews :
        (requested : ℕ)
        → Renews c publish key now requested k
            (by_owner owner)
            t
            (renew_owner c publish key owner now requested t)
    renew_owner-Renews requested =
        subst (Renews c publish key now requested k (by_owner owner) t)
          (sym (renew_owner-eq requested))
          (with_live-Renews c publish key now requested k (by_owner owner) small t v lengths
            (λ s. bytes_eq (owner_bytes s) owner) (owner_same owner))

    -- For a valid entry, `release_owner` frees the key exactly if its live lease has that owner.
    pub release_owner-Releases :
        Releases c publish key now k (by_owner owner) t (release_owner c publish key owner now t)
    release_owner-Releases =
        subst (Releases c publish key now k (by_owner owner) t) (sym release_owner-eq) (
          with_live-Releases c publish key now k (by_owner owner) small t v
            (λ s. bytes_eq (owner_bytes s) owner) (owner_same owner))

  module _ (l : LockLease) (valid : validate_entry c l.key l.owner ≡ ok tt) where
    renew_id-eq :
        (requested : ℕ)
        → renew_id c publish l now requested t
          ≡ with_live
              (live_slot l.key now t)
              (λ s. s.lock_id == l.lock_id)
              none
              (λ i u. renew_slot publish i requested u)
    unfolding renew_id
    renew_id-eq requested = ground arith

    release_id-eq :
        release_id c publish l now t
        ≡ with_live
            (live_slot l.key now t)
            (λ s. s.lock_id == l.lock_id)
            false
            (λ i u. release_slot publish i u)
    unfolding release_id
    release_id-eq = ground arith

    -- For a valid lease, `renew_id` extends the key's live lease exactly if it has that id.
    pub renew_id-Renews :
        (requested : ℕ)
        → Renews c publish l.key now requested k
            (by_id l.lock_id)
            t
            (renew_id c publish l now requested t)
    renew_id-Renews requested =
        subst (Renews c publish l.key now requested k (by_id l.lock_id) t)
          (sym (renew_id-eq requested))
          (with_live-Renews c publish l.key now requested k (by_id l.lock_id) small t v
            (lengths l.key l.owner valid) (λ s. s.lock_id == l.lock_id) (id_same l.lock_id))

    -- For a valid lease, `release_id` frees the key exactly if its live lease has that id.
    pub release_id-Releases :
        Releases c publish l.key now k (by_id l.lock_id) t (release_id c publish l now t)
    release_id-Releases =
        subst (Releases c publish l.key now k (by_id l.lock_id) t) (sym release_id-eq) (
          with_live-Releases c publish l.key now k (by_id l.lock_id) small t v
            (λ s. s.lock_id == l.lock_id) (id_same l.lock_id))

  module _ (key : LockKey) (valid : validate_key c key ≡ ok tt) where
    -- `force_release` is a release with a test that every lease passes.
    force_release-eq :
        force_release c publish key now t
        ≡ with_live (live_slot key now t) (λ _. true) false (λ i u. release_slot publish i u)
    unfolding force_release live_slot
    force_release-eq = elim (Option-cases (find_slot t.slots (lock_hash key) key)) [
      | inl e ↦ ground arith
      | inr (i, e) ↦ elim (Bool-cases (leb (at t.slots i).expires_at_ms now)) [
        | inl x ↦ ground arith
        | inr x ↦ ground arith
      ]
    ]

    -- For a valid key, `force_release` frees the key whoever holds it.
    pub force_release-Releases :
        Releases c publish key now k by_anyone t (force_release c publish key now t)
    force_release-Releases =
        subst (Releases c publish key now k by_anyone t) (sym force_release-eq)
          (with_live-Releases c publish key now k by_anyone small t v (λ _. true) (λ _. refl))
