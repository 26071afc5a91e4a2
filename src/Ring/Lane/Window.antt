-- ===== src/Ring/Lane/Window.antt =====
-- A lane to which one write is made after the other keeps the last frames, and a reader of a lane
-- that has them gets each of them.
use orbitive.Prelude.{
  ℕ, zero, suc, ◌+◌, ◌-◌, ◌%◌, ◌^◌, ◌<◌, ◌≤◌, ◌≡◌, ◌≢◌, ◌⊎◌, inl, inr, refl, sym, ap, ap₂, subst,
  ◌∙◌, List, [], ◌∷◌, ◌++◌, map, none, some, length, set, length-set, length-replicate,
  get_or-set_self, get_or-set_ne, ℕ_discrete, max, u8_mod, u16_mod, u64_mod, arith,
}
use orbitive.Prelude.Modular.{mod_injective}
use native.Mathlib.Nat.{mod-lt}
use orbitive.Ring.Frame.{Frame}
use orbitive.Ring.Cursor.{pending, poll_ring}
use orbitive.Ring.Cursor.Walk.{standing, delivered, floor, poll_ring_lem}
use orbitive.Ring.Lane.{
  RingTopology, shared, per_node, shared_ordered, RingLane, Ring, new_lane, write_frame, claim,
  write_lane, slot_at, read_state_at, source,
}

-- The frame at each counter of the window below the head.
pub record IsLane (r : Ring) (l : RingLane) : Type 0 where
  pub size : length l.slots ≡ r.capacity
  pub window :
      (c : ℕ)
      → c < l.write_pos
      → l.write_pos ≤ c + r.capacity
      → (f : Frame) × (slot_at r l c ≡ some f)
        × (r.ids.kind f.id ≡ r.kind)
        × (r.ids.counter f.id ≡ c)

-- The ranges of a ring's words.
pub record IsRing (r : Ring) : Type 0 where
  pub capacity_pos : 0 < r.capacity
  pub kind_word : r.kind < u8_mod

pub new_lane-IsLane : (r : Ring) → IsLane r (new_lane r.capacity)
new_lane-IsLane r = record {
  size = length-replicate r.capacity none;
  window = λ c h. absurd (omega arith);
}

-- Counters of one window stand in different slots.
apart :
    (capacity c head : ℕ)
    → 0 < capacity
    → c < head
    → head < c + capacity
    → head % capacity ≢ c % capacity
apart capacity c head pos h near e =
    let same = mod_injective capacity c head (omega arith) (omega arith) (sym e) in omega arith

module _ (r : Ring) (l : RingLane) (node frame_kind ver : ℕ) (payload : List ℕ) where
  abbrev pub written : Frame
  written = record {
    id = r.ids.make r.kind node l.write_pos;
    kind = frame_kind;
    ver = ver;
    payload = payload;
  }

  abbrev pub next_lane : RingLane
  next_lane = record {
    write_pos = suc l.write_pos;
    slots = set l.slots (l.write_pos % r.capacity) (some written);
  }

  -- Whatever the topology, one write alone does the same.
  write_lane-eq :
      suc l.write_pos < u64_mod
      → write_lane r l node frame_kind ver payload ≡ (written.id, next_lane)
  unfolding write_lane write_frame claim
  write_lane-eq h = go r.topology refl
    where
      go :
          (t : RingTopology)
          → r.topology ≡ t
          → write_lane r l node frame_kind ver payload ≡ (written.id, next_lane)
      go shared e = ground arith
      go per_node e = ground arith
      go shared_ordered e = ground arith

  module _ (v : IsRing r) (w : IsLane r l) (small : l.write_pos < 2 ^ 40)
      (node_word : node < u16_mod) where
    inside : l.write_pos % r.capacity < length l.slots
    inside =
        subst (λ n. l.write_pos % r.capacity < n) (sym w.size) (mod-lt l.write_pos v.capacity_pos)

    stands : slot_at r next_lane l.write_pos ≡ some written
    stands = get_or-set_self l.slots (l.write_pos % r.capacity) (some written) none inside

    next_lane-IsLane : IsLane r next_lane
    next_lane-IsLane = record {
      size = length-set l.slots (l.write_pos % r.capacity) (some written) ∙ w.size;
      window = λ c h near. elim (ℕ_discrete l.write_pos c) [
        | yes e ↦
            subst
              (λ c.
                (f : Frame) × (slot_at r next_lane c ≡ some f)
                × (r.ids.kind f.id ≡ r.kind)
                × (r.ids.counter f.id ≡ c))
              e
              (
                written,
                stands,
                r.ids.kind-make r.kind node l.write_pos v.kind_word node_word small,
                r.ids.counter-make r.kind node l.write_pos v.kind_word node_word small,
              )
        | no n ↦
            let (f, s, k, q) = w.window c (omega arith) (omega arith) in
            (
              f,
              get_or-set_ne l.slots (l.write_pos % r.capacity) (c % r.capacity) (some written) none
                    (apart r.capacity c l.write_pos v.capacity_pos (omega arith) (omega arith))
                  ∙ s,
              k,
              q,
            )
      ];
    }

    -- A write that is made alone, at a counter below 2^40 and for a node below 2^16, keeps the window
    -- complete: on the lane that it leaves, each of the last `capacity` counters below the head has
    -- its frame in its slot. The new frame stands at the counter that was the head, and the write
    -- answers with its id. Alone means that on a shared lane no other claim or fill comes between its
    -- own two.
    pub write_lane-IsLane :
        IsLane r (write_lane r l node frame_kind ver payload).1
        × (slot_at r (write_lane r l node frame_kind ver payload).1 l.write_pos ≡ some written)
        × ((write_lane r l node frame_kind ver payload).1.write_pos ≡ suc l.write_pos)
        × ((write_lane r l node frame_kind ver payload).0 ≡ written.id)
    write_lane-IsLane =
        subst
          (λ (x : ℕ × RingLane).
            IsLane r x.1
            × (slot_at r x.1 l.write_pos ≡ some written)
            × (x.1.write_pos ≡ suc l.write_pos)
            × (x.0 ≡ written.id))
          (sym (write_lane-eq (omega arith))) (next_lane-IsLane, stands, refl, refl)

-- `n` counters from `start` on.
pub counters : (n start : ℕ) → List ℕ
counters zero start = []
counters (suc n) start = start ∷ counters n (suc start)

length-counters : (n start : ℕ) → length (counters n start) ≡ n
unfolding counters
length-counters zero start = refl
length-counters (suc n) start = ap suc (length-counters n (suc start))

length-map {ℓ κ} :
    {A : Type ℓ} {B : Type κ} (f : A → B) (xs : List A) → length (map f xs) ≡ length xs
length-map f [] = refl
length-map f (x ∷ xs) = ap suc (length-map f xs)

module _ (r : Ring) (l : RingLane) (v : IsRing r) (w : IsLane r l) where
  in_window :
      (c : ℕ)
      → c < l.write_pos
      → l.write_pos ≤ c + r.capacity
      → ((source r l).read_state_at c ≢ pending)
        × ((f : Frame) × (slot_at r l c ≡ some f) × (standing (source r l) c ≡ f ∷ []))
  unfolding source read_state_at standing
  in_window c h near = let (f, s, k, q) = w.window c h near in (ground arith, (f, s, ground arith))

  all_delivered :
      (n start : ℕ)
      → start + n ≤ l.write_pos
      → l.write_pos ≤ start + r.capacity
      → map (λ f. some f) (delivered (source r l) n start) ≡ map (slot_at r l) (counters n start)
  unfolding delivered counters
  all_delivered zero start h near = refl
  all_delivered (suc n) start h near =
      let (f, at, one) = (in_window start (omega arith) near).1 in
      let rest = all_delivered n (suc start) (omega arith) (omega arith) in
      ap (λ fs. map (λ f. some f) (fs ++ delivered (source r l) n (suc start))) one
      ∙ ap₂ ◌∷◌ (sym at) rest

  length-delivered :
      (n start : ℕ)
      → start + n ≤ l.write_pos
      → l.write_pos ≤ start + r.capacity
      → length (delivered (source r l) n start) ≡ n
  length-delivered n start h near =
      sym (length-map (λ f. some f) (delivered (source r l) n start))
      ∙ ap length (all_delivered n start h near)
      ∙ length-map (slot_at r l) (counters n start)
      ∙ length-counters n start

  source_eq : ((source r l).head ≡ l.write_pos) × ((source r l).capacity ≡ r.capacity)
  unfolding source
  source_eq = (refl, refl)

  -- A poll, from a cursor below the head, on a lane whose window is complete, that is with each of
  -- the last `capacity` counters below the head in its slot, and the head below 2^64, goes to the
  -- head. It delivers exactly the frames that stand at the counters from the cursor, or from the
  -- window's first if the cursor is before that, up to the head, in the order of the counters, and
  -- counts as lost the others.
  pub poll_ring-window :
      (from : ℕ)
      → from < l.write_pos
      → l.write_pos < u64_mod
      → ((poll_ring (source r l) from).0 ≡ l.write_pos)
        × (map (λ f. some f) (poll_ring (source r l) from).1.frames
            ≡ map (slot_at r l) (
                counters
                  (l.write_pos - max from (l.write_pos - r.capacity))
                  (max from (l.write_pos - r.capacity))))
        × ((poll_ring (source r l) from).1.loss.overwritten
              + (poll_ring (source r l) from).1.loss.unavailable
            ≡ max from (l.write_pos - r.capacity) - from)
  unfolding source
  poll_ring-window from h b =
      let (n, within, to, _, frames, counted, stopped, _) =
        poll_ring_lem (source r l) from h b v.capacity_pos in
      let head = at_head n within stopped in
      let start : ℕ = max from (l.write_pos - r.capacity) in
      let from_start : floor (source r l) from ≡ start = omega arith in
      let rounds : n ≡ l.write_pos - start = omega arith in
      let size = length-delivered n (floor (source r l) from) within (omega arith) in
      let size' = ap length frames in
      let all =
        ap (map (λ f. some f)) frames
        ∙ all_delivered n (floor (source r l) from) within (omega arith) in
      (
        to ∙ head,
        all ∙ ap₂ (λ k c. map (slot_at r l) (counters k c)) rounds from_start,
        omega arith,
      )
    where
      at_head :
          (n : ℕ)
          → floor (source r l) from + n ≤ l.write_pos
          → (floor (source r l) from + n ≡ l.write_pos)
            ⊎ ((source r l).read_state_at (floor (source r l) from + n) ≡ pending)
          → floor (source r l) from + n ≡ l.write_pos
      at_head n within (inl e) = e
      at_head n within (inr p) = elim (ℕ_discrete (floor (source r l) from + n) l.write_pos) [
        | yes e ↦ e
        | no ne ↦ absurd ((in_window (floor (source r l) from + n) (omega arith) (omega arith)).0 p)
      ]
