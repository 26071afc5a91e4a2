-- ===== src/Cache/Local.antt =====
-- cache/src/local.rs: the cache of one process. Each method runs under the state's mutex, whose
-- poison is ignored, and so is one step on `LocalState`.
pub mod Floor
pub mod Coverage
pub mod Putting
pub mod Admitting
pub mod Following
pub mod Serving
pub mod Events
pub mod Recovery
pub mod History
pub mod Hits
use orbitive.Prelude.{
  ℕ, max, not, ◌≡◌, Bool, true, false, ◌&&◌, ◌||◌, List, [], ◌∷◌, Option, none, some, length, leb,
  ◌==◌, bytes_eq, if◌then◌else◌,
}
use orbitive.Cache.Revision.{
  CacheRevision, PayloadRef, Address, CacheMutation, put, delete, reset, revision_of, older,
}
use orbitive.Cache.Lru.{LruCache}

pub record CacheEntry : Type 0 where
  pub value : List ℕ
  pub revision : CacheRevision
  pub expires_at_ms : Option ℕ

pub data CacheRead : Type 0 where
  hit : CacheEntry → CacheRead
  miss : CacheRead
  resync_required : CacheRead

pub data LocalSlot : Type 0 where
  present : (payload : PayloadRef) (revision : CacheRevision) (expires_at_ms : Option ℕ) → LocalSlot
  missing : (revision : CacheRevision) → LocalSlot

-- `LocalSlot::revision`
abbrev pub revision : LocalSlot → CacheRevision
revision (present payload r expires_at_ms) = r
revision (missing r) = r

pub data ApplyOutcome : Type 0 where
  applied ignored : ApplyOutcome
  payload_unavailable : (key : List ℕ) → ApplyOutcome

-- `Arena::get_address`: the body at an address, while it is there.
abbrev pub Arena : Type 0
Arena = Address → Option (List ℕ)

-- A body of the length that the mutation gave.
unfoldable pub resolve_payload : Arena → PayloadRef → Option (List ℕ)
resolve_payload arena payload = elim (arena payload.address) [
  | none ↦ none
  | some body ↦ if length body == payload.value_len then some body else none
]

abbrev pub is_some {ℓ} : {A : Type ℓ} → Option A → Bool
is_some none = false
is_some (some a) = true

-- `deadline <= now_ms`, where there is a deadline.
abbrev pub expired : Option ℕ → ℕ → Bool
expired none now_ms = false
expired (some deadline) now_ms = leb deadline now_ms

abbrev pub map_or_max : Option ℕ → ℕ → ℕ
map_or_max none n = n
map_or_max (some current) n = max current n

-- `max` over the revisions, of which the last greatest is kept.
abbrev pub newest : List (List ℕ × LocalSlot) → Option CacheRevision
newest [] = none
newest (e ∷ es) = elim (newest es) [
  | none ↦ some (revision e.1)
  | some r ↦ if older (revision e.1) r then some r else some (revision e.1)
]

-- An entry that is neither expired nor gone from the arena.
abbrev pub entry_at : Arena → ℕ → LocalSlot → Option CacheEntry
entry_at arena now_ms (missing r) = none
entry_at arena now_ms (present payload r expires_at_ms) =
    if expired expires_at_ms now_ms then none else elim (resolve_payload arena payload) [
      | none ↦ none
      | some body ↦ some (record { value = body; revision = r; expires_at_ms = expires_at_ms })
    ]

module _ (L : LruCache LocalSlot) where
  pub record LocalState : Type 0 where
    pub slots : L.Cache
    pub revision_floor : Option ℕ
    pub coherent : Bool

  -- `LocalCache::new`
  abbrev pub new_local : ℕ → LocalState
  new_local capacity = record { slots = L.new capacity; revision_floor = none; coherent = true }

  abbrev pub above : Option ℕ → ℕ → Bool
  above none sequence = true
  above (some floor) sequence = not (leb sequence floor)

  -- `LocalState::accepts`
  unfoldable pub accepts : LocalState → CacheRevision → Bool
  accepts s r = above s.revision_floor r.sequence

  -- The keys of the entries that a floor makes stale.
  abbrev pub stale_keys : ℕ → List (List ℕ × LocalSlot) → List (List ℕ)
  stale_keys floor [] = []
  stale_keys floor (e ∷ es) =
      if leb (revision e.1).sequence floor then e.0 ∷ stale_keys floor es else stale_keys floor es

  abbrev pub pop_all : List (List ℕ) → L.Cache → L.Cache
  pop_all [] c = c
  pop_all (k ∷ ks) c = pop_all ks (L.pop c k)

  -- `LocalState::advance_floor`
  unfoldable pub advance_floor : ℕ → LocalState → LocalState
  advance_floor n s =
      let floor = map_or_max s.revision_floor n in
      record s {
        slots = pop_all (stale_keys floor (L.iter s.slots)) s.slots;
        revision_floor = some floor;
      }

  abbrev pub advanced_to : Option CacheRevision → LocalState → LocalState
  advanced_to none s = s
  advanced_to (some r) s = advance_floor r.sequence s

  -- `LocalState::advance_floor_from_slots`
  unfoldable pub advance_floor_from_slots : LocalState → LocalState
  advance_floor_from_slots s = advanced_to (newest (L.iter s.slots)) s

  abbrev pub superseded : CacheRevision → Option LocalSlot → Bool
  superseded r none = false
  superseded r (some current) = older r (revision current)

  abbrev pub after_push : List ℕ → LocalState → Option (List ℕ × LocalSlot) → LocalState
  after_push key s none = s
  after_push key s (some (removed_key, removed)) =
      if bytes_eq removed_key key then s else advance_floor (revision removed).sequence s

  -- `LocalState::put_slot`: whether the slot is there at the end, and the state.
  unfoldable pub put_slot : List ℕ → LocalSlot → LocalState → Bool × LocalState
  put_slot key slot s =
      if superseded (revision slot) (L.peek s.slots key)
      then (false, s)
      else (let pushed = L.push s.slots key slot in
          let after = after_push key (record s { slots = pushed.1 }) pushed.0 in
          (is_some (L.peek after.slots key), after))

  abbrev pub demoted : LocalSlot → L.Cache → List ℕ → L.Cache
  demoted (missing r) c key = c
  demoted (present payload r expires_at_ms) c key = L.put c key (missing r)

  abbrev pub served :
      Option CacheEntry → LocalSlot → L.Cache → List ℕ → LocalState → CacheRead × LocalState
  served (some entry) slot c key s = (hit entry, record s { slots = c })
  served none slot c key s = (miss, record s { slots = demoted slot c key })

  abbrev pub looked_up :
      Arena → ℕ → Option LocalSlot → L.Cache → List ℕ → LocalState → CacheRead × LocalState
  looked_up arena now_ms none c key s = (miss, record s { slots = c })
  looked_up arena now_ms (some slot) c key s = served (entry_at arena now_ms slot) slot c key s

  -- `LocalCache::read_at`. An expired entry, and one that has left the arena, becomes a tombstone.
  unfoldable pub read_at : Arena → List ℕ → ℕ → LocalState → CacheRead × LocalState
  read_at arena key now_ms s =
      if s.coherent
      then looked_up arena now_ms (L.get s.slots key).0 (L.get s.slots key).1 key s
      else (resync_required, s)

  -- `LocalCache::require_resync`
  unfoldable pub require_resync : LocalState → LocalState
  require_resync s =
      let advanced = advance_floor_from_slots s in
      record advanced { slots = L.clear advanced.slots; coherent = false }

  -- `LocalCache::recover_from_backing`
  unfoldable pub recover_from_backing : ℕ → LocalState → LocalState
  recover_from_backing floor s = record {
    slots = L.clear s.slots;
    revision_floor = some (map_or_max s.revision_floor floor);
    coherent = true;
  }

  -- `LocalCache::reset_after_transport_reset`
  unfoldable pub reset_after_transport_reset : LocalState → LocalState
  reset_after_transport_reset s = record {
    slots = L.clear s.slots;
    revision_floor = none;
    coherent = true;
  }

  abbrev pub answered : ApplyOutcome → Bool × LocalState → ApplyOutcome × LocalState
  answered outcome (true, s) = (outcome, s)
  answered outcome (false, s) = (ignored, s)

  -- What `LocalCache::apply` does with a mutation that is accepted.
  unfoldable pub carry_out : Arena → CacheMutation → LocalState → ApplyOutcome × LocalState
  carry_out arena (put store key r expires_at_ms payload) s =
      if is_some (resolve_payload arena payload)
      then answered applied (put_slot key (present payload r expires_at_ms) s)
      else answered (payload_unavailable key) (put_slot key (missing r) s)
  carry_out arena (delete store key r) s = answered applied (put_slot key (missing r) s)
  carry_out arena (reset store r) s = (applied, advance_floor r.sequence s)

  -- `LocalCache::apply`. The arena is asked before the lock is taken.
  unfoldable pub apply : Arena → CacheMutation → LocalState → ApplyOutcome × LocalState
  apply arena mutation s =
      if accepts s (revision_of mutation) then carry_out arena mutation s else (ignored, s)

  -- `LocalCache::install_local`
  unfoldable pub install_local :
      List ℕ → PayloadRef → CacheRevision → Option ℕ → LocalState → LocalState
  install_local key payload r expires_at_ms s =
      if accepts s r then (put_slot key (present payload r expires_at_ms) s).1 else s

  -- `LocalCache::install_missing`
  unfoldable pub install_missing : List ℕ → CacheRevision → LocalState → LocalState
  install_missing key r s = if accepts s r then (put_slot key (missing r) s).1 else s

  -- `LocalCache::reset_local`
  unfoldable pub reset_local : CacheRevision → LocalState → LocalState
  reset_local r s = if accepts s r then advance_floor r.sequence s else s
