-- ===== src/Ring/Cursor/Walk.antt =====
-- What one poll delivers, and how it accounts for every counter it passes.
use orbitive.Prelude.{
  ℕ, zero, suc, ◌+◌, ◌-◌, ◌<◌, ◌≤◌, ◌≡◌, ◌≢◌, ◌⊎◌, inl, inr, refl, sym, ap, subst, ◌∙◌, ◌&&◌, List,
  [], ◌∷◌, ◌++◌, length, ltb, leb, ◌==◌, max, u64_mod, if◌then◌else◌, arith, length-append,
  Bool-cases,
}
use orbitive.Ring.Frame.{Frame}
use orbitive.Ring.Cursor.{
  RingRead, ready, pending, unavailable, RingFrameSource, RingPoll, walk, poll_ring,
}

-- The frame that stands at a counter, if a frame of this ring with that counter does.
unfoldable pub standing : RingFrameSource → ℕ → List Frame
standing s c = elim (s.read_state_at c) [
  | ready f ↦ if s.ids.kind f.id == s.kind && s.ids.counter f.id == c then f ∷ [] else []
  | pending ↦ []
  | unavailable ↦ []
]

-- The frames that stand at `n` counters from `start` on, in order.
unfoldable pub delivered : RingFrameSource → (n start : ℕ) → List Frame
unfolding standing
delivered s zero start = []
delivered s (suc n) start = standing s start ++ delivered s n (suc start)

-- A walk that passes `n` of `rounds` counters.
pub record Walks (s : RingFrameSource) (rounds next lost : ℕ) (end : List Frame × ℕ × ℕ)
    : Type 0 where
  pub passed : ℕ
  pub within : passed ≤ rounds
  pub to : end.2 ≡ next + passed
  pub frames : end.0 ≡ delivered s passed next
  pub counted : end.1 + length end.0 ≡ lost + passed
  pub stopped : (passed ≡ rounds) ⊎ (s.read_state_at (next + passed) ≡ pending)
  pub committed : (c : ℕ) → c < passed → s.read_state_at (next + c) ≢ pending

module _ (s : RingFrameSource) (rounds next lost : ℕ) (room : next + suc rounds < u64_mod)
    (room' : lost + suc rounds < u64_mod) where
  walk-pending : s.read_state_at next ≡ pending → walk s (suc rounds) next lost ≡ ([], lost, next)
  unfolding walk
  walk-pending e = ground arith

  walk-lost :
      s.read_state_at next ≢ pending
      → standing s next ≡ []
      → walk s (suc rounds) next lost ≡ walk s rounds (suc next) (suc lost)
  unfolding walk standing
  walk-lost n e = ground arith

  walk-found :
      (f : Frame)
      → standing s next ≡ f ∷ []
      → walk s (suc rounds) next lost
        ≡ (let rest = walk s rounds (suc next) lost in (f ∷ rest.0, rest.1, rest.2))
  unfolding walk standing
  walk-found f e = ground arith

standing-pending :
    (s : RingFrameSource) (c : ℕ) (f : Frame) → standing s c ≡ f ∷ [] → s.read_state_at c ≢ pending
unfolding standing
standing-pending s c f e p = ground arith

pending-cases : (r : RingRead) → (r ≡ pending) ⊎ (r ≢ pending)
pending-cases pending = inl refl
pending-cases unavailable = inr (λ e. cc)
pending-cases (ready f) = inr (λ e. cc)

standing-cases :
    (s : RingFrameSource) (c : ℕ) → (standing s c ≡ []) ⊎ ((f : Frame) × (standing s c ≡ f ∷ []))
unfolding standing
standing-cases s c = go (s.read_state_at c) refl
  where
    go :
        (r : RingRead)
        → s.read_state_at c ≡ r
        → (standing s c ≡ []) ⊎ ((f : Frame) × (standing s c ≡ f ∷ []))
    go pending e = inl (ground arith)
    go unavailable e = inl (ground arith)
    go (ready f) e = elim (Bool-cases (s.ids.kind f.id == s.kind && s.ids.counter f.id == c)) [
      | inl t ↦ inr (f, ground arith)
      | inr t ↦ inl (ground arith)
    ]

module _ (s : RingFrameSource) where
  abbrev Goal : (rounds next lost : ℕ) → Type 0
  Goal rounds next lost =
      next + rounds < u64_mod
      → lost + rounds < u64_mod
      → Walks s rounds next lost (walk s rounds next lost)

  -- One counter more, passed.
  one_more :
      (rounds next lost lost' : ℕ) (found : List Frame) (end : List Frame × ℕ × ℕ)
      → s.read_state_at next ≢ pending
      → standing s next ≡ found
      → lost' + length found ≡ suc lost
      → Walks s rounds (suc next) lost' end
      → Walks s (suc rounds) next lost (found ++ end.0, end.1, end.2)
  unfolding delivered
  one_more rounds next lost lost' found end n e count w =
      let to = w.to in
      let counted = w.counted in
      let within = w.within in
      let joined = length-append found end.0 in
      record {
        passed = suc w.passed;
        within = omega arith;
        to = omega arith;
        frames = ap (λ x. x ++ end.0) (sym e) ∙ ap (λ x. standing s next ++ x) w.frames;
        counted = omega arith;
        stopped = elim w.stopped [
          | inl same ↦ inl (ap suc same)
          | inr p ↦ inr (subst (λ c. s.read_state_at c ≡ pending) (shift next w.passed) p)
        ];
        committed = committed w.passed w.committed;
      }
    where
      shift : (a b : ℕ) → suc a + b ≡ a + suc b
      shift a b = omega arith

      committed :
          (passed : ℕ)
          → ((c : ℕ) → c < passed → s.read_state_at (suc next + c) ≢ pending)
          → (c : ℕ) → c < suc passed
          → s.read_state_at (next + c) ≢ pending
      committed passed old zero h = subst (λ c. s.read_state_at c ≢ pending) (sym here) n
        where
          here : next + 0 ≡ next
          here = omega arith
      committed passed old (suc c) h =
          subst (λ d. s.read_state_at d ≢ pending) (shift next c) (old c (omega arith))

  walk-Walks : (rounds next lost : ℕ) → Goal rounds next lost
  unfolding walk delivered
  walk-Walks zero next lost r r' = record {
    passed = 0;
    within = omega arith;
    to = omega arith;
    frames = refl;
    counted = omega arith;
    stopped = inl refl;
    committed = λ c h. absurd (omega arith);
  }
  walk-Walks (suc rounds) next lost r r' = elim (pending-cases (s.read_state_at next)) [
    | inl e ↦
        subst (Walks s (suc rounds) next lost) (sym (walk-pending s rounds next lost r r' e))
          (held e)
    | inr n ↦ elim (standing-cases s next) [
      | inl e ↦
          subst (Walks s (suc rounds) next lost) (sym (walk-lost s rounds next lost r r' n e)) (
            one_more rounds next lost (suc lost) [] _ n e (omega arith)
              (walk-Walks rounds (suc next) (suc lost) (omega arith) (omega arith)))
      | inr (f, e) ↦
          subst (Walks s (suc rounds) next lost) (sym (walk-found s rounds next lost r r' f e)) (
            one_more rounds next lost lost (f ∷ []) _ n e (omega arith)
              (walk-Walks rounds (suc next) lost (omega arith) (omega arith)))
    ]
  ]
    where
      held : s.read_state_at next ≡ pending → Walks s (suc rounds) next lost ([], lost, next)
      held e = record {
        passed = 0;
        within = omega arith;
        to = omega arith;
        frames = refl;
        counted = omega arith;
        stopped = inr (subst (λ c. s.read_state_at c ≡ pending) (zero_more next) e);
        committed = λ c h. absurd (omega arith);
      }
        where
          zero_more : (a : ℕ) → a ≡ a + 0
          zero_more a = omega arith

-- The first counter of the window that a poll looks at.
abbrev pub floor : RingFrameSource → ℕ → ℕ
floor s from = max from (s.head - s.capacity)

-- The poll of a cursor behind the head, by the end of its walk.
abbrev polled : (s : RingFrameSource) → ℕ → List Frame × ℕ × ℕ → ℕ × RingPoll
polled s from end = (
  end.2,
  record {
    frames = end.0;
    loss = record { overwritten = floor s from - from; unavailable = end.1 };
    from_counter = from;
    to_counter = end.2;
  },
)

-- What a poll is to do.
abbrev Polls : (s : RingFrameSource) (from : ℕ) → ℕ × RingPoll → Type 0
Polls s from r =
    (n : ℕ) × (floor s from + n ≤ s.head)
    × (r.0 ≡ floor s from + n)
    × (r.1.to_counter ≡ floor s from + n)
    × (r.1.frames ≡ delivered s n (floor s from))
    × (r.1.loss.overwritten + r.1.loss.unavailable + length r.1.frames ≡ floor s from + n - from)
    × ((floor s from + n ≡ s.head) ⊎ (s.read_state_at (floor s from + n) ≡ pending))
    × ((c : ℕ) → c < n → s.read_state_at (floor s from + c) ≢ pending)

from_walk :
    (s : RingFrameSource) (from : ℕ)
    → from < s.head
    → 0 < s.capacity
    → (end : List Frame × ℕ × ℕ) → Walks s (s.head - floor s from) (floor s from) 0 end
    → Polls s from (polled s from end)
from_walk s from h cap end w =
    let within = w.within in
    let counted = w.counted in
    (
      w.passed,
      omega arith,
      w.to,
      w.to,
      w.frames,
      omega arith,
      elim w.stopped [ inl all ↦ inl (omega arith) | inr p ↦ inr p ],
      w.committed,
    )

behind :
    (s : RingFrameSource) (from start skipped : ℕ)
    → from < s.head
    → start ≡ floor s from
    → (if ltb from (s.head - s.capacity) then s.head - s.capacity else from) ≡ start
    → (if ltb from (s.head - s.capacity) then s.head - s.capacity - from else 0) ≡ start - from
    → poll_ring s from ≡ polled s from (walk s (s.head - floor s from) (floor s from) 0)
unfolding poll_ring
behind s from start skipped h e e' e'' = elim (Bool-cases (leb s.head from)) [
  | inl x ↦ absurd (ground arith)
  | inr x ↦ rw (x, e', e'', e) refl
]

-- A poll of a cursor behind the head goes on from the cursor, or from the oldest counter of the
-- window if that is later. It delivers in order every frame that stands at the counters it passes,
-- stops at the head or at a counter still in flight, never past one, and each counter from the
-- cursor on is either delivered or counted as lost.
pub poll_ring_lem :
    (s : RingFrameSource) (from : ℕ)
    → from < s.head
    → s.head < u64_mod
    → 0 < s.capacity
    → (n : ℕ) × (floor s from + n ≤ s.head)
      × ((poll_ring s from).0 ≡ floor s from + n)
      × ((poll_ring s from).1.to_counter ≡ floor s from + n)
      × ((poll_ring s from).1.frames ≡ delivered s n (floor s from))
      × ((poll_ring s from).1.loss.overwritten
            + (poll_ring s from).1.loss.unavailable
            + length (poll_ring s from).1.frames
          ≡ floor s from + n - from)
      × ((floor s from + n ≡ s.head) ⊎ (s.read_state_at (floor s from + n) ≡ pending))
      × ((c : ℕ) → c < n → s.read_state_at (floor s from + c) ≢ pending)
poll_ring_lem s from h b cap =
    subst (Polls s from) (sym (behind s from (floor s from) 0 h refl (ground arith) (ground arith)))
      (from_walk s from h cap _
        (walk-Walks s (s.head - floor s from) (floor s from) 0 (omega arith) (omega arith)))
