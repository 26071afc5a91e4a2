-- ===== src/Lock/Table/Ops.antt =====
-- lock/src/state.rs: the operations of `LockStateStore` on the header and the slots. The table's
-- lock makes each of them one step. An operation that fails leaves what it had done: a lapsed slot
-- stays a tombstone and a minted number stays spent, so it returns the table with the error too.
use orbitive.Prelude.{
  ℕ, Bool, true, false, ◌||◌, List, Option, none, some, length, map, set, max, ltb, leb, ◌==◌,
  bytes_eq, if◌then◌else◌, checked_add, saturating_add, u64_mod, Result, ok, err, refuse_if, ◌>>◌,
}
use orbitive.NetId.{NetIds}
use orbitive.Lock.Types.{
  LockKey, LockOwner, LockLease, LockAcquire, LockTransition, renewed, released, Error,
  namespace_empty, key_empty, owner_empty, id_exhausted, entry_too_large, state_full,
}
use orbitive.Lock.Table.Slot.{LockStateSlot, owner_bytes, lease, write, tombstone, clear}
use orbitive.Lock.Table.Probe.{lock_hash, at, find_slot, Scan, holder, room, scan}

-- `LockStateStore` and the compile-time size of a payload.
pub record LockStateStore : Type 0 where
  pub ids : NetIds
  pub payload_max : ℕ
  pub state_kind : ℕ
  pub node_id : ℕ

-- The counters of `LockStateHeader`, and the slots.
pub record LockTable : Type 0 where
  pub next_lock : ℕ
  pub next_revision : ℕ
  pub slots : List LockStateSlot

-- Whether the transition could be written to the event ring.
abbrev pub Publish : Type 0
Publish = LockTransition → Result Error (Unit {0})

abbrev pub Outcome : Type 0 → Type 0
Outcome A = Result Error A × LockTable

abbrev pub lock_counter_max : ℕ
lock_counter_max = 0xff_ffff_ffff

abbrev pub u16_max : ℕ
u16_max = 0xffff

unfoldable pub validate_key : LockStateStore → LockKey → Result Error (Unit {0})
validate_key c key = do
  refuse_if (length key.namespace == 0) namespace_empty
  refuse_if (length key.label == 0) key_empty
  refuse_if
      (ltb u16_max (length key.namespace)
        || (ltb u16_max (length key.label)
            || ltb c.payload_max
                (saturating_add u64_mod (length key.namespace) (length key.label))))
      (entry_too_large (length key.namespace) (length key.label) 0 c.payload_max)
  ok tt

unfoldable pub validate_entry : LockStateStore → LockKey → LockOwner → Result Error (Unit {0})
unfolding validate_key
validate_entry c key owner = do
  validate_key c key
  refuse_if (length owner == 0) owner_empty
  refuse_if
      (ltb u16_max (length key.namespace)
        || (ltb u16_max (length key.label)
            || (ltb u16_max (length owner)
                || ltb c.payload_max (
                    saturating_add u64_mod
                      (saturating_add u64_mod (length key.namespace) (length key.label))
                      (length owner)))))
      (entry_too_large (length key.namespace) (length key.label) (length owner) c.payload_max)
  ok tt

unfoldable pub mint_lock_id : LockStateStore → LockTable → Outcome ℕ
mint_lock_id c t = elim (checked_add u64_mod t.next_lock 1) [
  | none ↦ (err id_exhausted, t)
  | some counter ↦
      if ltb lock_counter_max counter
      then (err id_exhausted, t)
      else (ok (c.ids.make c.state_kind c.node_id counter), record t { next_lock = counter })
]

unfoldable pub mint_revision : LockTable → Outcome ℕ
mint_revision t = elim (checked_add u64_mod t.next_revision 1) [
  | none ↦ (err id_exhausted, t)
  | some revision ↦ (ok revision, record t { next_revision = revision })
]

-- `?` on a step that returns the table too.
infixl 5 ◌&>◌
abbrev pub ◌&>◌ : {A B : Type 0} → Outcome A → (A → LockTable → Outcome B) → Outcome B
(ok a, t) &> f = f a t
(err e, t) &> f = (err e, t)

-- The rest of `acquire`, after the scan: mint, publish, then write the slot.
unfoldable pub install :
    LockStateStore
    → Publish
    → LockKey
    → LockOwner
    → (now_ms expires_at_ms index : ℕ) → LockTable
    → Outcome LockAcquire
unfolding mint_lock_id mint_revision
install c publish key owner now_ms expires_at_ms index t = mint_lock_id c t &> λ lock_id t.
    mint_revision t &> λ revision t.
    let l : LockLease = record {
      lock_id = lock_id;
      key = key;
      owner = owner;
      acquired_at_ms = now_ms;
      expires_at_ms = expires_at_ms;
      state_revision = revision;
    } in
    (publish (LockTransition.acquired l), t) &> λ _ t. (
      ok (LockAcquire.acquired l),
      record t { slots = set t.slots index (write (at t.slots index) (lock_hash key) l) },
    )

-- What `acquire` does with the end of its scan.
unfoldable pub settle :
    LockStateStore
    → Publish
    → LockKey
    → LockOwner
    → (now_ms expires_at_ms : ℕ) → LockTable
    → Scan
    → Outcome LockAcquire
unfolding install
settle c publish key owner now_ms expires_at_ms t (holder l) = (ok (LockAcquire.occupied l), t)
settle c publish key owner now_ms expires_at_ms t (room none) =
    (err (state_full (length t.slots)), t)
settle c publish key owner now_ms expires_at_ms t (room (some index)) =
    install c publish key owner now_ms expires_at_ms index t

unfoldable pub acquire :
    LockStateStore
    → Publish
    → LockKey
    → LockOwner
    → (now_ms expires_at_ms : ℕ) → LockTable
    → Outcome LockAcquire
unfolding settle
acquire c publish key owner now_ms expires_at_ms t = (validate_entry c key owner, t) &> λ _ t.
    let scanned = scan key (lock_hash key) now_ms (length t.slots) 0 t.slots none in
    settle c publish key owner now_ms expires_at_ms (record t { slots = scanned.0 }) scanned.1

-- `live_slot`: the index of the key's slot, which is left a tombstone if its lease has lapsed.
unfoldable pub live_slot : LockKey → (now_ms : ℕ) → LockTable → Option ℕ × LockTable
live_slot key now_ms t = elim (find_slot t.slots (lock_hash key) key) [
  | none ↦ (none, t)
  | some i ↦
      if leb (at t.slots i).expires_at_ms now_ms
      then (none, record t { slots = set t.slots i (tombstone (at t.slots i)) })
      else (some i, t)
]

unfoldable pub renew_slot :
    Publish → (index requested_expires_at_ms : ℕ) → LockTable → Outcome (Option LockLease)
unfolding mint_revision
renew_slot publish index requested t =
    let old = lease (at t.slots index) in
    mint_revision t &> λ revision t.
    let l : LockLease = record old {
      expires_at_ms = max old.expires_at_ms requested;
      state_revision = revision;
    } in
    (publish (renewed l), t) &> λ _ t. (
      ok (some l),
      record t {
        slots = set t.slots index (write (at t.slots index) (at t.slots index).key_hash l);
      },
    )

unfoldable pub release_slot : Publish → (index : ℕ) → LockTable → Outcome Bool
unfolding mint_revision
release_slot publish index t =
    let l = lease (at t.slots index) in
    mint_revision t &> λ revision t.
    (publish (released l.lock_id l.key l.owner revision), t) &> λ _ t.
    (ok true, record t { slots = set t.slots index (tombstone (at t.slots index)) })

-- A live slot that passes a test is handed on; otherwise the answer is `refused`.
abbrev pub with_live :
    {A : Type 0}
    → (Option ℕ × LockTable)
    → (LockStateSlot → Bool)
    → A
    → (ℕ → LockTable → Outcome A)
    → Outcome A
with_live (none, t) accept refused f = (ok refused, t)
with_live (some i, t) accept refused f = if accept (at t.slots i) then f i t else (ok refused, t)

unfoldable pub renew_id :
    LockStateStore
    → Publish
    → LockLease
    → (now_ms requested_expires_at_ms : ℕ) → LockTable
    → Outcome (Option LockLease)
renew_id c publish l now_ms requested t = (validate_entry c l.key l.owner, t) &> λ _ t.
    with_live (live_slot l.key now_ms t) (λ s. s.lock_id == l.lock_id) none
      (λ i t. renew_slot publish i requested t)

unfoldable pub renew_owner :
    LockStateStore
    → Publish
    → LockKey
    → LockOwner
    → (now_ms requested_expires_at_ms : ℕ) → LockTable
    → Outcome (Option LockLease)
renew_owner c publish key owner now_ms requested t = (validate_entry c key owner, t) &> λ _ t.
    with_live (live_slot key now_ms t) (λ s. bytes_eq (owner_bytes s) owner) none
      (λ i t. renew_slot publish i requested t)

unfoldable pub release_id :
    LockStateStore → Publish → LockLease → (now_ms : ℕ) → LockTable → Outcome Bool
release_id c publish l now_ms t = (validate_entry c l.key l.owner, t) &> λ _ t.
    with_live (live_slot l.key now_ms t) (λ s. s.lock_id == l.lock_id) false
      (λ i t. release_slot publish i t)

unfoldable pub release_owner :
    LockStateStore → Publish → LockKey → LockOwner → (now_ms : ℕ) → LockTable → Outcome Bool
release_owner c publish key owner now_ms t = (validate_entry c key owner, t) &> λ _ t.
    with_live (live_slot key now_ms t) (λ s. bytes_eq (owner_bytes s) owner) false
      (λ i t. release_slot publish i t)

unfoldable pub force_release :
    LockStateStore → Publish → LockKey → (now_ms : ℕ) → LockTable → Outcome Bool
force_release c publish key now_ms t = (validate_key c key, t) &> λ _ t.
    elim (find_slot t.slots (lock_hash key) key) [
      | none ↦ (ok false, t)
      | some i ↦
          if leb (at t.slots i).expires_at_ms now_ms
          then (ok false, record t { slots = set t.slots i (tombstone (at t.slots i)) })
          else release_slot publish i t
    ]

-- `live_slot(..).map(|slot| slot.lease())`
abbrev pub read_live : Option ℕ × LockTable → Outcome (Option LockLease)
read_live (none, t) = (ok none, t)
read_live (some i, t) = (ok (some (lease (at t.slots i))), t)

unfoldable pub current :
    LockStateStore → LockKey → (now_ms : ℕ) → LockTable → Outcome (Option LockLease)
current c key now_ms t = (validate_key c key, t) &> λ _ t. read_live (live_slot key now_ms t)

unfoldable pub reset : LockTable → LockTable
reset t = record { next_lock = 0; next_revision = 0; slots = map clear t.slots }
