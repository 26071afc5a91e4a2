-- ===== src/Lock/Table/Acquire.antt =====
-- `acquire`: what each of its branches answers and leaves.
use orbitive.Prelude.{
  ℕ, suc, ◌^◌, ◌≤◌, ◌<◌, ◌≡◌, ◌≢◌, ◌↔◌, inl, inr, refl, sym, ap, subst, ◌∙◌, List, none, some,
  length, set, ok, err, Result-cases, arith,
}
use orbitive.Lock.Types.{LockKey, LockOwner, LockLease, LockAcquire, LockTransition, Error}
use orbitive.Lock.Table.Slot.{LockStateSlot, write}
use orbitive.Lock.Table.Slot.Layout.{write-fields}
use orbitive.Lock.Table.Probe.{lock_hash, at, Scan, holder, room, scan}
use orbitive.Lock.Table.Ops.{
  LockStateStore, LockTable, Publish, Outcome, lock_counter_max, validate_entry, settle, acquire,
}
use orbitive.Lock.Table.Invariant.{Aged, Aged-refl, Aged-IsTable}
use orbitive.Lock.Table.View.{Holds, Holds-aged}
use orbitive.Lock.Table.Sequence.{probe_index-lt}
use orbitive.Lock.Table.Walk.{Ends}
use orbitive.Lock.Table.Scanning.{scan_lem}
use orbitive.Lock.Table.Sound.{Configured, Sound, Sound-Aged, Sound-set, validate_entry-lengths}
use orbitive.Lock.Table.Lookup.{Free, Free-unheld}
use orbitive.Lock.Table.Writing.{Writes, write-new, write-owner_len}
use orbitive.Lock.Table.Install.{minted, Installs, install-Installs}

module _ (c : LockStateStore) (publish : Publish) (key : LockKey) (owner : LockOwner)
    (now expires : ℕ) where
  abbrev pub new_lease : LockTable → LockLease
  new_lease = minted c publish key owner now expires

  -- What a new lease is, and what granting it does. The key held nothing before; the token is new;
  -- the key holds the lease until it expires; and no other key is touched.
  pub record Grant (k : ℕ) (t : LockTable) (l : LockLease) (t' : LockTable) : Type 0 where
    pub vacant : (l' : LockLease) → ¬ Holds k now t.slots key l'
    pub lease_eq : l ≡ new_lease t
    pub published : publish (LockTransition.acquired l) ≡ ok tt
    pub counted : t'.next_lock ≡ suc t.next_lock
    pub granted : (later : ℕ) → later < expires → Holds k later t'.slots key l
    pub others :
        (other : LockKey)
        → other ≢ key
        → (later : ℕ) → now ≤ later
        → (l' : LockLease) → Holds k later t'.slots other l' ↔ Holds k later t.slots other l'

  -- The branches of `acquire`.
  abbrev pub Acquires : ℕ → LockTable → Outcome LockAcquire → Type 0
  Acquires k t (ok (LockAcquire.occupied l), t') =
      Sound c k t' × Holds k now t.slots key l × Aged now t.slots t'.slots
  Acquires k t (ok (LockAcquire.acquired l), t') = Sound c k t' × Grant k t l t'
  Acquires k t (err e, t') = Sound c k t' × Aged now t.slots t'.slots

  module _ (k : ℕ) (small : k ≤ 64) (p : Configured c) (t : LockTable) (v : Sound c k t) where
    abbrev pub after : List LockStateSlot → LockTable
    after slots = record t { slots = slots }

    Aged-Sound : (slots : List LockStateSlot) → Aged now t.slots slots → Sound c k (after slots)
    Aged-Sound slots a =
        Sound-Aged c k t v now t.next_lock t.next_revision slots a (omega arith) v.bound

    counter_new_lease :
        t.next_lock < lock_counter_max → c.ids.counter (new_lease t).lock_id ≡ suc t.next_lock
    counter_new_lease h =
        c.ids.counter-make c.state_kind c.node_id (suc t.next_lock) p.kind p.node (omega arith)

    module _ (slots : List LockStateSlot) (a : Aged now t.slots slots) (index : ℕ)
        (inside : index < 2 ^ k) (free : Free k slots key) where
      abbrev slots' : List LockStateSlot
      slots' = set slots index (write (at slots index) (lock_hash key) (new_lease t))

      abbrev final : LockTable
      final = record {
        next_lock = suc t.next_lock;
        next_revision = suc t.next_revision;
        slots = slots';
      }

      module _ (w : Writes k slots slots' (new_lease t)) where
        final-Sound : t.next_lock < lock_counter_max → Sound c k final
        final-Sound h =
            let f = write-fields (at slots index) (lock_hash key) (new_lease t) in
            let token = ap c.ids.counter f.2 ∙ counter_new_lease h in
            Sound-set c k (record final { slots = slots })
              (Sound-Aged c k t v now _ _ slots a (omega arith) (omega arith)) index _ inside w.kept
              (write-owner_len (at slots index) (lock_hash key) (new_lease t)) (omega arith)

        final-Grant :
            publish (LockTransition.acquired (new_lease t)) ≡ ok tt → Grant k t (new_lease t) final
        final-Grant q = record {
          vacant = λ l' h.
              Free-unheld k now slots key l' free
                ((Holds-aged k now now (omega arith) t.slots slots a key l').1 h);
          lease_eq = refl;
          published = q;
          counted = refl;
          granted = w.granted;
          others = λ other n later h l'.
              let written = w.others other n later l' in
              let aged = Holds-aged k now later h t.slots slots a other l' in
              (λ x. aged.0 (written.0 x), λ x. written.1 (aged.1 x));
        }

        install_Acquires :
            (r : Outcome LockAcquire)
            → Installs c publish key owner now expires index (after slots) r
            → Acquires k t r
        install_Acquires (ok (LockAcquire.occupied l), t') x = absurd x
        install_Acquires (err e, t') ((lo, hi), same) =
            let a' = subst (Aged now t.slots) (sym same) a in
            (Sound-Aged c k t v now t'.next_lock t'.next_revision t'.slots a' lo hi, a')
        install_Acquires (ok (LockAcquire.acquired l), t') (le, h, q, te) =
            subst (λ l. Sound c k t' × Grant k t l t') (sym le)
              (subst (λ u. Sound c k u × Grant k t (new_lease t) u) (sym te)
                (final-Sound h, final-Grant q))

    settle-Acquires :
        validate_entry c key owner ≡ ok tt
        → (slots : List LockStateSlot) (s : Scan) → Aged now t.slots slots
        → Ends k (lock_hash key) now key slots s
        → Acquires k t (settle c publish key owner now expires (after slots) s)
    unfolding settle
    settle-Acquires valid slots (holder l) a (i, h, m, live, said) = (
      Aged-Sound slots a,
      (Holds-aged k now now (omega arith) t.slots slots a key l).0
          (record { index = i; inside = h; entry = m; live = live; said = said }),
      a,
    )
    settle-Acquires valid slots (room none) a e = (Aged-Sound slots a, a)
    settle-Acquires valid slots (room (some index)) a (free, (e, he, q, unused, reached)) =
        let inside = subst (λ i. i < 2 ^ k) (sym q) (probe_index-lt k (lock_hash key) small e) in
        install_Acquires slots a index inside free
          (write-new k slots (Aged-IsTable k now t.slots slots a v.table) index inside (new_lease t)
            (validate_entry-lengths c key owner valid) (lock_hash key) refl free e he q small unused
            reached)
          _ (install-Installs c publish key owner now expires index (after slots) v.bound)

    pub acquire-eq :
        validate_entry c key owner ≡ ok tt
        → acquire c publish key owner now expires t ≡ (
            let scanned = scan key (lock_hash key) now (length t.slots) 0 t.slots none in
            settle c publish key owner now expires (after scanned.0) scanned.1)
    unfolding acquire
    acquire-eq valid = ground arith

    acquire_invalid :
        (e : Error)
        → validate_entry c key owner ≡ err e
        → acquire c publish key owner now expires t ≡ (err e, t)
    unfolding acquire
    acquire_invalid e invalid = ground arith

    -- Every branch of `acquire` leaves the table sound. It answers `occupied` only with the lease
    -- that the key holds, and `acquired` only if the key held none, with a new lease that it then
    -- holds, while no other key's lease changes; an error does no more to the slots than time does.
    pub acquire-Acquires : Acquires k t (acquire c publish key owner now expires t)
    acquire-Acquires = elim (Result-cases (validate_entry c key owner)) [
      | inl (u, valid) ↦
          let (a, ends) = scan_lem k (lock_hash key) now key small t.slots v.table in
          subst (Acquires k t) (sym (acquire-eq valid)) (settle-Acquires valid _ _ a ends)
      | inr (e, invalid) ↦
          subst (Acquires k t) (sym (acquire_invalid e invalid)) (v, Aged-refl now t.slots)
    ]
