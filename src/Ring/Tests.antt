-- ===== src/Ring/Tests.antt =====
-- A walk over a small ring, and the theorem applied to it.
use orbitive.Prelude.{
  true, false, map, some, max, ℕ, ◌+◌, ◌-◌, ◌<◌, ◌≤◌, ◌≡◌, ◌≢◌, ◌⊎◌, refl, [], ◌∷◌, length, ◌==◌,
  if◌then◌else◌, arith,
}
use orbitive.NetId.Packed.{packed}
use orbitive.Ring.Frame.{Frame}
use orbitive.Ring.Cursor.{ready, pending, unavailable, RingFrameSource, poll_ring}
use orbitive.Ring.Lane
use orbitive.Ring.Lane.{
  shared, RingLane, Ring, new_lane, new_for_fleet, write_lane, write_frame, claim, slot_at, lane,
  write, read, read_state_at,
}
use orbitive.Ring.Lane.Window.{
  IsLane, IsRing, new_lane-IsLane, next_lane, write_lane-IsLane, counters, poll_ring-window,
}
use orbitive.Ring.Lane.Sharing
use orbitive.Ring.Lane.Reading.{write-read}
use orbitive.Ring.Cursor.Walk.{delivered, floor, poll_ring_lem}

abbrev frame_at : ℕ → Frame
frame_at c = record { id = packed.make 7 0 c; kind = 0; ver = 0; payload = [] }

-- Four slots and nine counters: 6 was lost, and 8 is still in flight.
abbrev gappy : RingFrameSource
gappy = record {
  ids = packed;
  kind = 7;
  head = 9;
  capacity = 4;
  read_state_at =
      λ c. if c == 8 then pending else if c == 6 then unavailable else ready (frame_at c);
}

run : poll_ring gappy 2 ≡ (
  8,
  record {
    frames = frame_at 5 ∷ frame_at 7 ∷ [];
    loss = record { overwritten = 3; unavailable = 1 };
    from_counter = 2;
    to_counter = 8;
  },
)
unfolding poll_ring
run = refl

poll_ring_lem_example :
    (n : ℕ) × (floor gappy 2 + n ≤ 9)
    × ((poll_ring gappy 2).0 ≡ floor gappy 2 + n)
    × ((poll_ring gappy 2).1.to_counter ≡ floor gappy 2 + n)
    × ((poll_ring gappy 2).1.frames ≡ delivered gappy n (floor gappy 2))
    × ((poll_ring gappy 2).1.loss.overwritten
          + (poll_ring gappy 2).1.loss.unavailable
          + length (poll_ring gappy 2).1.frames
        ≡ floor gappy 2 + n - 2)
    × ((floor gappy 2 + n ≡ 9) ⊎ (gappy.read_state_at (floor gappy 2 + n) ≡ pending))
    × ((c : ℕ) → c < n → gappy.read_state_at (floor gappy 2 + c) ≢ pending)
poll_ring_lem_example = poll_ring_lem gappy 2 (omega arith) (omega arith) (omega arith)

-- A shared ring of two slots.
abbrev small_ring : Ring
small_ring = new_for_fleet packed 7 2 16 shared 1

abbrev small_lane : RingLane
small_lane = new_lane 2

small_ring-IsRing : IsRing small_ring
unfolding new_for_fleet
small_ring-IsRing = record { capacity_pos = omega arith; kind_word = omega arith }

small_lane-IsLane : IsLane small_ring small_lane
unfolding new_for_fleet
small_lane-IsLane = new_lane-IsLane small_ring

small_lane_here : lane small_ring 3 ≡ some small_lane
unfolding new_for_fleet
small_lane_here = refl

small_fits : 1 ≤ small_ring.payload_capacity
unfolding new_for_fleet
small_fits = omega arith

write-read_example :
    (id : ℕ) × (r' : Ring) × (write small_ring 3 0 5 (1 ∷ []) ≡ some (id, r'))
    × (read r' id ≡ some (record { id = id; kind = 0; ver = 5; payload = 1 ∷ [] }))
write-read_example =
    write-read small_ring small_lane 3 0 5 (1 ∷ []) small_ring-IsRing small_lane-IsLane
      small_lane_here (omega arith) (omega arith) small_fits

abbrev one_written : RingLane
one_written = next_lane small_ring small_lane 3 0 5 (1 ∷ [])

one_written-IsLane : IsLane small_ring one_written
unfolding new_for_fleet write_lane
one_written-IsLane =
    (write_lane-IsLane small_ring small_lane 3 0 5 (1 ∷ []) small_ring-IsRing small_lane-IsLane
      (omega arith) (omega arith)).0

-- Two writers claim counters 0 and 1, and the second fills its slot first.
abbrev two_claimed : Sharing.Shared
two_claimed = record {
  lane = (claim (claim small_lane 1).1 1).1;
  busy = Sharing.mark (Sharing.mark (λ j. false) 0 true) 1 true;
}

two_claimed-Reach : Sharing.Reach small_ring two_claimed
unfolding claim new_for_fleet
two_claimed-Reach =
    Sharing.next (Sharing.next Sharing.begin (Sharing.claimed (omega arith)))
      (Sharing.claimed (omega arith))

abbrev second_filled : Sharing.Shared
second_filled = record {
  lane = (write_frame small_ring two_claimed.lane 4 1 0 5 (1 ∷ [])).1;
  busy = Sharing.mark two_claimed.busy 1 false;
}

second_filled-Reach : Sharing.Reach small_ring second_filled
unfolding claim new_for_fleet
second_filled-Reach =
    Sharing.next two_claimed-Reach
      (Sharing.filled 1 4 0 5 (1 ∷ []) refl (omega arith) (omega arith))

second_head : second_filled.lane.write_pos ≡ 2
unfolding claim write_frame
second_head = refl

small_capacity : small_ring.capacity ≡ 2
unfolding new_for_fleet
small_capacity = refl

Reach-Stands_example : Sharing.Stands small_ring second_filled.lane 1
Reach-Stands_example =
    Sharing.Reach-Stands small_ring 1 small_ring-IsRing second_filled-Reach
      (omega (arith, second_head)) (omega (arith, second_head, small_capacity)) refl

poll_ring-window_example :
    ((poll_ring (Lane.source small_ring one_written) 0).0 ≡ 1)
    × (map (λ f. some f) (poll_ring (Lane.source small_ring one_written) 0).1.frames
        ≡ map
            (slot_at small_ring one_written)
            (counters (1 - max 0 (1 - small_ring.capacity)) (max 0 (1 - small_ring.capacity))))
    × ((poll_ring (Lane.source small_ring one_written) 0).1.loss.overwritten
          + (poll_ring (Lane.source small_ring one_written) 0).1.loss.unavailable
        ≡ max 0 (1 - small_ring.capacity) - 0)
poll_ring-window_example =
    poll_ring-window small_ring one_written small_ring-IsRing one_written-IsLane 0 (omega arith)
      (omega arith)

-- A writer of a shared ring that has claimed counter 0 and is overtaken by two others fills the
-- slot of counter 2 after that was written: counter 2, already behind the head, reads as pending.
late : RingLane
late =
    let first = claim small_lane 1 in
    let second = write_lane small_ring first.1 3 0 0 [] in
    let third = write_lane small_ring second.1 3 0 0 [] in
    (write_frame small_ring third.1 3 first.0 0 0 []).1

late_hides : (read_state_at small_ring late 2 ≡ pending) × (late.write_pos ≡ 3)
unfolding late read_state_at write_frame write_lane claim new_for_fleet
late_hides = (refl, refl)
