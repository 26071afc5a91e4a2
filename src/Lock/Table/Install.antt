-- ===== src/Lock/Table/Install.antt =====
-- The installation of a new lease in `acquire`: mint, publish, write.
use orbitive.Prelude.{
  ℕ, suc, ◌≤◌, ◌<◌, ◌≡◌, inl, inr, refl, sym, subst, set, ok, err, Result-cases, u64_mod, dec_lt,
  arith,
}
use orbitive.Lock.Types.{
  LockKey, LockOwner, LockLease, LockAcquire, LockTransition, Error, id_exhausted,
}
use orbitive.Lock.Table.Slot.{write}
use orbitive.Lock.Table.Probe.{lock_hash, at}
use orbitive.Lock.Table.Ops.{
  LockStateStore, LockTable, Publish, Outcome, lock_counter_max, mint_lock_id, mint_revision,
  install,
}

module _ (c : LockStateStore) (publish : Publish) (key : LockKey) (owner : LockOwner)
    (now expires : ℕ) where
  -- The lease that `acquire` makes of a table's counters.
  abbrev pub minted : LockTable → LockLease
  minted t = record {
    lock_id = c.ids.make c.state_kind c.node_id (suc t.next_lock);
    key = key;
    owner = owner;
    acquired_at_ms = now;
    expires_at_ms = expires;
    state_revision = suc t.next_revision;
  }

  -- The counters that a table is left with, by any step that may fail half-way.
  abbrev pub Spent : LockTable → LockTable → Type 0
  Spent t t' = (t.next_lock ≤ t'.next_lock) × (t'.next_lock ≤ lock_counter_max)

  -- A failed installation writes nothing; a successful one writes the minted lease.
  abbrev pub Installs : (index : ℕ) → LockTable → Outcome LockAcquire → Type 0
  Installs index t (ok (LockAcquire.occupied l), t') = ⊥
  Installs index t (ok (LockAcquire.acquired l), t') =
      (l ≡ minted t)
      × (t.next_lock < lock_counter_max)
      × (publish (LockTransition.acquired (minted t)) ≡ ok tt)
      × (t' ≡ record {
        next_lock = suc t.next_lock;
        next_revision = suc t.next_revision;
        slots = set t.slots index (write (at t.slots index) (lock_hash key) (minted t));
      })
  Installs index t (err e, t') = Spent t t' × (t'.slots ≡ t.slots)

  module _ (index : ℕ) (t : LockTable) (b : t.next_lock ≤ lock_counter_max) where
    -- The four ways through an installation.
    no_id :
        ¬ (t.next_lock < lock_counter_max)
        → install c publish key owner now expires index t ≡ (err id_exhausted, t)
    unfolding install mint_lock_id
    no_id h = ground arith

    no_revision :
        t.next_lock < lock_counter_max
        → ¬ (suc t.next_revision < u64_mod)
        → install c publish key owner now expires index t
          ≡ (err id_exhausted, record t { next_lock = suc t.next_lock })
    unfolding install mint_lock_id mint_revision
    no_revision h r = ground arith

    abbrev pub spent : LockTable
    spent = record t { next_lock = suc t.next_lock; next_revision = suc t.next_revision }

    unpublished :
        (e : Error)
        → t.next_lock < lock_counter_max
        → suc t.next_revision < u64_mod
        → publish (LockTransition.acquired (minted t)) ≡ err e
        → install c publish key owner now expires index t ≡ (err e, spent)
    unfolding install mint_lock_id mint_revision
    unpublished e h r p = ground arith

    pub installed :
        t.next_lock < lock_counter_max
        → suc t.next_revision < u64_mod
        → publish (LockTransition.acquired (minted t)) ≡ ok tt
        → install c publish key owner now expires index t ≡ (
          ok (LockAcquire.acquired (minted t)),
          record spent {
            slots = set t.slots index (write (at t.slots index) (lock_hash key) (minted t));
          },
        )
    unfolding install mint_lock_id mint_revision
    installed h r p = ground arith

    pub install-Installs : Installs index t (install c publish key owner now expires index t)
    install-Installs = elim (dec_lt t.next_lock lock_counter_max) [
      | no h ↦ subst (Installs index t) (sym (no_id h)) ((omega arith, b), refl)
      | yes h ↦ elim (dec_lt (suc t.next_revision) u64_mod) [
        | no r ↦ subst (Installs index t) (sym (no_revision h r)) ((omega arith, omega arith), refl)
        | yes r ↦ elim (Result-cases (publish (LockTransition.acquired (minted t)))) [
          | inr (e, p) ↦
              subst (Installs index t) (sym (unpublished e h r p))
                ((omega arith, omega arith), refl)
          | inl (u, p) ↦ subst (Installs index t) (sym (installed h r p)) (refl, h, p, refl)
        ]
      ]
    ]
