-- ===== src/Ring/Lane.antt =====
-- core/src/ring/mod.rs: the ring in one process's memory. A call that the source ends by a panic is
-- `none`. Writers of a `per_node` or a `shared_ordered` lane hold its mutex, so that one write is one
-- step. On a `shared` lane a writer first claims a counter and fills the slot later, which are
-- `claim` and `write_frame`; there `write_lane` is the two with nothing of another writer between
-- them, and Lane/Sharing.antt has the writers' actions as steps of their own.
pub mod Window
pub mod Reading
pub mod Sharing
use orbitive.Prelude.{
  ℕ, zero, suc, ◌+◌, ◌-◌, ◌%◌, ◌≡◌, Bool, true, false, ◌||◌, not, List, [], ◌∷◌, Option, none, some,
  length, get_elem?, get_or, set, map, replicate, ltb, leb, ◌==◌, if◌then◌else◌, u64_mod,
}
use orbitive.NetId.{NetIds}
use orbitive.Ring.Frame.{Frame}
use orbitive.Ring.Cursor.{RingRead, ready, pending, unavailable, RingFrameSource}

pub data RingTopology : Type 0 where
  shared per_node shared_ordered : RingTopology

pub record RingLane : Type 0 where
  pub write_pos : ℕ
  pub slots : List (Option Frame)

pub record Ring : Type 0 where
  pub ids : NetIds
  pub kind : ℕ
  pub capacity : ℕ
  pub payload_capacity : ℕ
  pub topology : RingTopology
  pub version_counter : ℕ
  pub lanes : List RingLane

abbrev pub new_lane : ℕ → RingLane
new_lane capacity = record { write_pos = 0; slots = replicate capacity none }

abbrev pub lane_count_for : RingTopology → ℕ → ℕ
lane_count_for shared fleet_capacity = 1
lane_count_for per_node fleet_capacity = fleet_capacity
lane_count_for shared_ordered fleet_capacity = 1

-- `Ring::new_for_fleet`, for the constants of a record type.
unfoldable pub new_for_fleet :
    NetIds → (kind capacity payload_capacity : ℕ) → RingTopology → (fleet_capacity : ℕ) → Ring
new_for_fleet ids kind capacity payload_capacity topology fleet_capacity = record {
  ids = ids;
  kind = kind;
  capacity = capacity;
  payload_capacity = payload_capacity;
  topology = topology;
  version_counter = 0;
  lanes = replicate (lane_count_for topology fleet_capacity) (new_lane capacity);
}

abbrev pub lane_index : RingTopology → ℕ → ℕ
lane_index shared node = 0
lane_index per_node node = node
lane_index shared_ordered node = 0

-- `lane` and `lane_for_frame`: a node outside the lanes is none.
abbrev pub lane : Ring → ℕ → Option RingLane
lane r node = get_elem? r.lanes (lane_index r.topology node)

-- `next_version`: the counter is exhausted at the end of u64.
unfoldable pub next_version : Ring → Option (ℕ × Ring)
next_version r =
    if ltb (r.version_counter + 1) u64_mod
    then some (r.version_counter + 1, record r { version_counter = r.version_counter + 1 })
    else none

-- `write_frame` on the lane's slots.
unfoldable pub write_frame :
    Ring → RingLane → (node counter frame_kind ver : ℕ) → List ℕ → ℕ × RingLane
write_frame r l node counter frame_kind ver payload =
    let id = r.ids.make r.kind node counter in
    (
      id,
      record l {
        slots =
            set l.slots (counter % r.capacity)
              (some (record { id = id; kind = frame_kind; ver = ver; payload = payload }));
      },
    )

abbrev pub with_lane : Ring → ℕ → RingLane → Ring
with_lane r node l = record r { lanes = set r.lanes (lane_index r.topology node) l }

-- `fetch_add` on a lane's head.
unfoldable pub claim : RingLane → (count : ℕ) → ℕ × RingLane
claim l count = (l.write_pos, record l { write_pos = (l.write_pos + count) % u64_mod })

-- One write to a lane, alone: claim and fill on a shared lane, fill and publish the head on the
-- others.
unfoldable pub write_lane : Ring → RingLane → (node frame_kind ver : ℕ) → List ℕ → ℕ × RingLane
unfolding write_frame claim
write_lane r l node frame_kind ver payload = elim r.topology [
  | shared ↦ write_frame r (claim l 1).1 node l.write_pos frame_kind ver payload
  | per_node ↦
      (let w = write_frame r l node l.write_pos frame_kind ver payload in
        (w.0, record w.1 { write_pos = (l.write_pos + 1) % u64_mod }))
  | shared_ordered ↦
      (let w = write_frame r l node l.write_pos frame_kind ver payload in
        (w.0, record w.1 { write_pos = (l.write_pos + 1) % u64_mod }))
]

-- `Ring::write`
unfoldable pub write : Ring → (node frame_kind ver : ℕ) → List ℕ → Option (ℕ × Ring)
unfolding write_lane
write r node frame_kind ver payload =
    if ltb r.payload_capacity (length payload) then none else elim (lane r node) [
      | none ↦ none
      | some l ↦
          (let w = write_lane r l node frame_kind ver payload in some (w.0, with_lane r node w.1))
    ]

-- The frames of a batch, from `start + offset` on.
unfoldable pub write_frames :
    Ring → RingLane → (node start offset frame_kind ver : ℕ) → List (List ℕ) → List ℕ × RingLane
unfolding write_frame
write_frames r l node start offset frame_kind ver [] = ([], l)
write_frames r l node start offset frame_kind ver (payload ∷ payloads) =
    let w = write_frame r l node ((start + offset) % u64_mod) frame_kind ver payload in
    let rest = write_frames r w.1 node start (suc offset) frame_kind ver payloads in
    (w.0 ∷ rest.0, rest.1)

abbrev pub any_longer : ℕ → List (List ℕ) → Bool
any_longer n [] = false
any_longer n (p ∷ ps) = ltb n (length p) || any_longer n ps

unfoldable pub write_batch_lane :
    Ring → RingLane → (node frame_kind ver : ℕ) → List (List ℕ) → List ℕ × RingLane
unfolding write_frames claim
write_batch_lane r l node frame_kind ver payloads = elim r.topology [
  | shared ↦ write_frames r (claim l (length payloads)).1 node l.write_pos 0 frame_kind ver payloads
  | per_node ↦
      (let w = write_frames r l node l.write_pos 0 frame_kind ver payloads in
        (w.0, record w.1 { write_pos = (l.write_pos + length w.0) % u64_mod }))
  | shared_ordered ↦
      (let w = write_frames r l node l.write_pos 0 frame_kind ver payloads in
        (w.0, record w.1 { write_pos = (l.write_pos + length w.0) % u64_mod }))
]

-- `Ring::write_batch`
unfoldable pub write_batch :
    Ring → (node frame_kind ver : ℕ) → List (List ℕ) → Option (List ℕ × Ring)
unfolding write_batch_lane
write_batch r node frame_kind ver payloads =
    if ltb r.capacity (length payloads) || any_longer r.payload_capacity payloads
    then none
    else if length payloads == 0
    then some ([], r)
    else elim (lane r node) [
      | none ↦ none
      | some l ↦
          (let w = write_batch_lane r l node frame_kind ver payloads in
            some (w.0, with_lane r node w.1))
    ]

-- What stands at `counter % capacity`.
abbrev pub slot_at : Ring → RingLane → ℕ → Option Frame
slot_at r l counter = get_or l.slots (counter % r.capacity) none

-- `Ring::read`
unfoldable pub read : Ring → ℕ → Option Frame
read r id = if not (r.ids.kind id == r.kind) then none else elim (lane r (r.ids.node id)) [
  | none ↦ none
  | some l ↦ elim (slot_at r l (r.ids.counter id)) [
    | none ↦ none
    | some f ↦ if f.id == id then some f else none
  ]
]

-- `read_head` on a lane.
unfoldable pub read_head : Ring → RingLane → Option Frame
read_head r l = if l.write_pos == 0 then none else slot_at r l (l.write_pos - 1)

abbrev on_missing : RingTopology → RingRead
on_missing shared = pending
on_missing per_node = unavailable
on_missing shared_ordered = unavailable

abbrev classify : NetIds → ℕ → RingRead → Option Frame → RingRead
classify ids counter missing none = missing
classify ids counter missing (some f) =
    if ids.counter f.id == counter
    then ready f
    else if ltb counter (ids.counter f.id)
    then unavailable
    else missing

-- `read_state_at`, of the first lane, and `read_lane_state_at`.
unfoldable pub read_state_at : Ring → RingLane → ℕ → RingRead
read_state_at r l counter = classify r.ids counter pending (slot_at r l counter)

unfoldable pub read_lane_state_at : Ring → RingLane → ℕ → RingRead
read_lane_state_at r l counter =
    classify r.ids counter (on_missing r.topology) (slot_at r l counter)

abbrev pub reset_lane : RingLane → RingLane
reset_lane l = record { write_pos = 0; slots = replicate (length l.slots) none }

-- `Ring::reset`
unfoldable pub reset : Ring → Ring
reset r = record r { version_counter = 0; lanes = map reset_lane r.lanes }

-- The ring's first lane as a source of frames.
unfoldable pub source : Ring → RingLane → RingFrameSource
unfolding read_state_at
source r l = record {
  ids = r.ids;
  kind = r.kind;
  head = l.write_pos;
  capacity = r.capacity;
  read_state_at = λ c. read_state_at r l c;
}
