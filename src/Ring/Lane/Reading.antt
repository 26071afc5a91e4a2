-- ===== src/Ring/Lane/Reading.antt =====
-- What is written to the ring is read by its id, and after a reset nothing is read.
use orbitive.Prelude.{
  ℕ, zero, suc, ◌^◌, ◌<◌, ◌≤◌, ◌≡◌, refl, ap, ◌∙◌, List, [], ◌∷◌, some, length, get_elem?, set,
  u16_mod, arith, subst, map, Option, none, replicate, get_or, ◌%◌, not, ◌==◌, if◌then◌else◌,
}
use orbitive.Ring.Frame.{Frame}
use orbitive.Ring.Lane.{
  RingLane, Ring, new_lane, lane_index, lane, with_lane, write_lane, write, read, slot_at,
  reset_lane, reset,
}
use orbitive.Ring.Lane.Window.{IsLane, IsRing, written, write_lane-IsLane}

get_elem?-set :
    (xs : List RingLane) (i : ℕ) (x y : RingLane)
    → get_elem? xs i ≡ some y
    → get_elem? (set xs i x) i ≡ some x
get_elem?-set [] i x y h = cc
get_elem?-set (z ∷ xs) zero x y h = refl
get_elem?-set (z ∷ xs) (suc i) x y h = get_elem?-set xs i x y h

module _ (r : Ring) (l : RingLane) (node frame_kind ver : ℕ) (payload : List ℕ) (v : IsRing r)
    (w : IsLane r l) (here : lane r node ≡ some l) (small : l.write_pos < 2 ^ 40)
    (node_word : node < u16_mod) where
  abbrev done : ℕ × RingLane
  done = write_lane r l node frame_kind ver payload

  write-eq :
      length payload ≤ r.payload_capacity
      → write r node frame_kind ver payload ≡ some (done.0, with_lane r node done.1)
  unfolding write
  write-eq fits = ground arith

  abbrev new : Frame
  new = written r l node frame_kind ver payload

  parts :
      (r.ids.kind new.id ≡ r.kind)
      × (r.ids.node new.id ≡ node)
      × (r.ids.counter new.id ≡ l.write_pos)
  parts = (
    r.ids.kind-make r.kind node l.write_pos v.kind_word node_word small,
    r.ids.node-make r.kind node l.write_pos v.kind_word node_word small,
    r.ids.counter-make r.kind node l.write_pos v.kind_word node_word small,
  )

  found :
      (l' : RingLane)
      → lane (with_lane r node l') (r.ids.node new.id) ≡ some l'
      → slot_at r l' (r.ids.counter new.id) ≡ some new
      → read (with_lane r node l') new.id ≡ some new
  unfolding read
  found l' e s = let k = parts.0 in ground arith

  -- A write of a payload that fits succeeds, and its frame is read by the id that it answers with. It
  -- is made alone, for a node below 2^16, on a lane with a complete window that the ring has for that
  -- node and whose counter is below 2^40.
  pub write-read :
      length payload ≤ r.payload_capacity
      → (id : ℕ) × (r' : Ring) × (write r node frame_kind ver payload ≡ some (id, r'))
        × (read r' id ≡ some (record { id = id; kind = frame_kind; ver = ver; payload = payload }))
  write-read fits =
      let (lane_ok, stands, _, id) =
        write_lane-IsLane r l node frame_kind ver payload v w small node_word in
      (
        new.id,
        with_lane r node done.1,
        write-eq fits ∙ ap (λ x. some (x, with_lane r node done.1)) id,
        found done.1
            (ap (λ n. lane (with_lane r node done.1) n) parts.1
              ∙ get_elem?-set r.lanes (lane_index r.topology node) done.1 l here)
            (ap (λ c. slot_at r done.1 c) parts.2 ∙ stands),
      )

get_elem?-map :
    (xs : List RingLane) (i : ℕ) (f : RingLane → RingLane) (x : RingLane)
    → get_elem? xs i ≡ some x
    → get_elem? (map f xs) i ≡ some (f x)
get_elem?-map [] i f x h = cc
get_elem?-map (y ∷ xs) zero f x h = cc
get_elem?-map (y ∷ xs) (suc i) f x h = get_elem?-map xs i f x h

get_or-replicate : (n i : ℕ) → ◌≡◌ {A = Option Frame} (get_or (replicate n none) i none) none
get_or-replicate zero i = refl
get_or-replicate (suc n) zero = refl
get_or-replicate (suc n) (suc i) = get_or-replicate n i

read_blank :
    (r : Ring) (id : ℕ)
    → ((x : RingLane) → lane r (r.ids.node id) ≡ some x → slot_at r x (r.ids.counter id) ≡ none)
    → read r id ≡ none
unfolding read
read_blank r id h = split (lane r (r.ids.node id)) h
  where
    split :
        (o : Option RingLane)
        → ((x : RingLane) → o ≡ some x → slot_at r x (r.ids.counter id) ≡ none)
        → (if not (r.ids.kind id == r.kind) then none else elim o [
          | none ↦ none
          | some l ↦ elim (slot_at r l (r.ids.counter id)) [
            | none ↦ none
            | some f ↦ if f.id == id then some f else none
          ]
        ])
          ≡ none
    split none h = ground arith
    split (some l) h = let e = h l refl in ground (arith, e)

-- Every lane that a reset ring has is blank.
reset_blank :
    (r : Ring) (xs : List RingLane) (i c : ℕ) (x : RingLane)
    → get_elem? (map reset_lane xs) i ≡ some x
    → slot_at r x c ≡ none
reset_blank r [] i c x h = cc
reset_blank r (y ∷ xs) zero c x h =
    subst (λ o. slot_of o c ≡ none) h (get_or-replicate (length y.slots) (c % r.capacity))
  where
    slot_of : Option RingLane → ℕ → Option Frame
    slot_of none c = none
    slot_of (some l) c = slot_at r l c
reset_blank r (y ∷ xs) (suc i) c x h = reset_blank r xs i c x h

-- After a reset no frame of any id is read, and a lane that the ring has for a node, with a slot for
-- each counter of its capacity, is as a new one.
pub reset-read :
    (r : Ring) (node : ℕ) (l : RingLane)
    → lane r node ≡ some l
    → length l.slots ≡ r.capacity
    → ((id : ℕ) → read (reset r) id ≡ none) × (lane (reset r) node ≡ some (new_lane r.capacity))
unfolding reset
reset-read r node l here size = (
  λ id.
      read_blank (reset r) id
        (λ x. reset_blank r r.lanes (lane_index r.topology (r.ids.node id)) (r.ids.counter id) x),
  get_elem?-map r.lanes (lane_index r.topology node) reset_lane l here
      ∙ ap (λ n. some (new_lane n)) size,
)
