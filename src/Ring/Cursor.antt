-- ===== src/Ring/Cursor.antt =====
-- core/src/ring/cursor.rs: the walk of a cursor toward a ring's head.
pub mod Walk
use orbitive.Prelude.{
  ℕ, zero, suc, ◌+◌, ◌-◌, Bool, true, false, ◌||◌, not, List, [], ◌∷◌, ltb, leb, ◌==◌,
  saturating_add, u64_mod, if◌then◌else◌,
}
use orbitive.NetId.{NetIds}
use orbitive.Ring.Frame.{Frame}

pub data RingRead : Type 0 where
  ready : Frame → RingRead
  pending unavailable : RingRead

-- `RingFrameSource`: the facts of one ring, as a reader finds them during a walk.
pub record RingFrameSource : Type 0 where
  pub ids : NetIds
  pub kind : ℕ
  pub head : ℕ
  pub capacity : ℕ
  pub read_state_at : ℕ → RingRead

pub record RingLoss : Type 0 where
  pub overwritten : ℕ
  pub unavailable : ℕ

pub record RingPoll : Type 0 where
  pub frames : List Frame
  pub loss : RingLoss
  pub from_counter : ℕ
  pub to_counter : ℕ

-- The walk: `rounds` are the counters left up to the head. The frames, the counters that were
-- unavailable, and where it ends.
unfoldable pub walk : RingFrameSource → (rounds next unavailable : ℕ) → List Frame × ℕ × ℕ
walk s zero next lost = ([], lost, next)
walk s (suc rounds) next lost = elim (s.read_state_at next) [
  | ready f ↦
      if not (s.ids.kind f.id == s.kind) || not (s.ids.counter f.id == next)
      then walk s rounds (saturating_add u64_mod next 1) (saturating_add u64_mod lost 1)
      else (let rest = walk s rounds (saturating_add u64_mod next 1) lost in
          (f ∷ rest.0, rest.1, rest.2))
  | pending ↦ ([], lost, next)
  | unavailable ↦ walk s rounds (saturating_add u64_mod next 1) (saturating_add u64_mod lost 1)
]

-- `poll_ring`, which returns the cursor's next counter too.
unfoldable pub poll_ring : RingFrameSource → (next_counter : ℕ) → ℕ × RingPoll
unfolding walk
poll_ring s from =
    if leb s.head from
    then (
      s.head,
      record {
        frames = [];
        loss = record { overwritten = 0; unavailable = 0 };
        from_counter = from;
        to_counter = s.head;
      },
    )
    else (let oldest : ℕ = s.head - s.capacity in
        let start : ℕ = if ltb from oldest then oldest else from in
        let skipped : ℕ = if ltb from oldest then oldest - from else 0 in
        let end = walk s (s.head - start) start 0 in
        (
          end.2,
          record {
            frames = end.0;
            loss = record { overwritten = skipped; unavailable = end.1 };
            from_counter = from;
            to_counter = end.2;
          },
        ))
