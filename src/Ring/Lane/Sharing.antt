-- ===== src/Ring/Lane/Sharing.antt =====
-- Writers of a shared lane, whose claims of counters and fills of slots come in any order.
use orbitive.Prelude.{
  ℕ, suc, ◌+◌, ◌%◌, ◌^◌, ◌<◌, ◌≤◌, ◌≡◌, ◌≢◌, sym, subst, ◌∙◌, Bool, true, false, List, none, some,
  length, set, length-set, length-replicate, get_or-set_self, get_or-set_ne, ◌==◌, if◌then◌else◌,
  ℕ_discrete, dec_le, u16_mod, arith,
}
use orbitive.Prelude.Modular.{mod_injective}
use native.Mathlib.Nat.{mod-lt}
use orbitive.Ring.Frame.{Frame}
use orbitive.Ring.Lane.{RingLane, Ring, new_lane, write_frame, claim, slot_at}
use orbitive.Ring.Lane.Window.{IsRing}

-- A lane with its writers: `busy` are the counters that a writer has claimed and not yet filled.
pub record Shared : Type 0 where
  pub lane : RingLane
  pub busy : ℕ → Bool

abbrev pub mark : (ℕ → Bool) → ℕ → Bool → ℕ → Bool
mark busy c b j = if j == c then b else busy j

abbrev pub start : Ring → Shared
start r = record { lane = new_lane r.capacity; busy = λ j. false }

-- One atomic action of a writer. The head stays within the 40 bits of a counter, and a slot is filled
-- before the writers that came later have gone around the lane.
pub data Step (r : Ring) : Shared → Shared → Type 0 where
  claimed :
      {s : Shared}
      → s.lane.write_pos < 2 ^ 40
      → Step r s (record { lane = (claim s.lane 1).1; busy = mark s.busy (claim s.lane 1).0 true })
  filled :
      {s : Shared} (c node frame_kind ver : ℕ) (payload : List ℕ)
      → s.busy c ≡ true
      → node < u16_mod
      → s.lane.write_pos ≤ c + r.capacity
      → Step r s (record {
        lane = (write_frame r s.lane node c frame_kind ver payload).1;
        busy = mark s.busy c false;
      })

pub data Reach (r : Ring) : Shared → Type 0 where
  begin : Reach r (start r)
  next : {s t : Shared} → Reach r s → Step r s t → Reach r t

-- A frame of the ring's kind stands at its counter.
abbrev pub Stands : Ring → RingLane → ℕ → Type 0
Stands r l c =
    (f : Frame) × (slot_at r l c ≡ some f) × (r.ids.kind f.id ≡ r.kind) × (r.ids.counter f.id ≡ c)

record Shares (r : Ring) (s : Shared) : Type 0 where
  size : length s.lane.slots ≡ r.capacity
  small : s.lane.write_pos ≤ 2 ^ 40
  behind : (c : ℕ) → s.busy c ≡ true → c < s.lane.write_pos
  window :
      (c : ℕ)
      → c < s.lane.write_pos
      → s.lane.write_pos ≤ c + r.capacity
      → s.busy c ≡ false
      → Stands r s.lane c

module _ (r : Ring) (v : IsRing r) where
  begin-Shares : Shares r (start r)
  begin-Shares = record {
    size = length-replicate r.capacity none;
    small = omega arith;
    behind = λ c e. cc;
    window = λ c h. absurd (omega arith);
  }

  claim_eq :
      (l : RingLane)
      → l.write_pos < 2 ^ 40
      → claim l 1 ≡ (l.write_pos, record l { write_pos = suc l.write_pos })
  unfolding claim
  claim_eq l h = ground arith

  mark_self : (busy : ℕ → Bool) (c : ℕ) (b : Bool) → mark busy c b c ≡ b
  mark_self busy c b = ground arith

  mark_ne : (busy : ℕ → Bool) (c j : ℕ) (b : Bool) → j ≢ c → mark busy c b j ≡ busy j
  mark_ne busy c j b n = ground arith

  claimed-Shares :
      (s : Shared)
      → s.lane.write_pos < 2 ^ 40
      → Shares r s
      → Shares r (record {
        lane = record s.lane { write_pos = suc s.lane.write_pos };
        busy = mark s.busy s.lane.write_pos true;
      })
  claimed-Shares s h i = record {
    size = i.size;
    small = omega arith;
    behind = λ c e. elim (ℕ_discrete c s.lane.write_pos) [
      | yes same ↦ omega arith
      | no other ↦
          let before = i.behind c (sym (mark_ne s.busy s.lane.write_pos c true other) ∙ e) in
          omega arith
    ];
    window = λ c low near e. elim (ℕ_discrete c s.lane.write_pos) [
      | yes same ↦
          let taken =
            subst (λ j. mark s.busy s.lane.write_pos true j ≡ true) (sym same)
              (mark_self s.busy s.lane.write_pos true) in
          cc
      | no other ↦
          i.window c (omega arith) (omega arith)
            (sym (mark_ne s.busy s.lane.write_pos c true other) ∙ e)
    ];
  }

  -- Counters of one window stand in different slots.
  apart :
      (a b head : ℕ)
      → a < head
      → b < head
      → head ≤ a + r.capacity
      → head ≤ b + r.capacity
      → a ≢ b
      → a % r.capacity ≢ b % r.capacity
  apart a b head la lb na nb n e = elim (dec_le a b) [
    | yes le ↦ n (mod_injective r.capacity a b le (omega arith) e)
    | no gt ↦ n (sym (mod_injective r.capacity b a (omega arith) (omega arith) (sym e)))
  ]

  filled-Shares :
      (s : Shared) (c node frame_kind ver : ℕ) (payload : List ℕ)
      → s.busy c ≡ true
      → node < u16_mod
      → s.lane.write_pos ≤ c + r.capacity
      → Shares r s
      → Shares r (record {
        lane = (write_frame r s.lane node c frame_kind ver payload).1;
        busy = mark s.busy c false;
      })
  unfolding write_frame
  filled-Shares s c node frame_kind ver payload taken node_word near i =
      let below = i.behind c taken in
      let counter : c < 2 ^ 40 = omega (arith, i.small) in
      let new : Frame = record {
        id = r.ids.make r.kind node c;
        kind = frame_kind;
        ver = ver;
        payload = payload;
      } in
      let place : ℕ = c % r.capacity in
      let inside : place < length s.lane.slots =
        subst (λ n. place < n) (sym i.size) (mod-lt c v.capacity_pos) in
      record {
        size = length-set s.lane.slots place (some new) ∙ i.size;
        small = i.small;
        behind = λ j e. elim (ℕ_discrete j c) [
          | yes same ↦ omega arith
          | no other ↦ i.behind j (sym (mark_ne s.busy c j false other) ∙ e)
        ];
        window = λ j low close e. elim (ℕ_discrete c j) [
          | yes same ↦
              subst (Stands r (record s.lane { slots = set s.lane.slots place (some new) })) same (
                new,
                get_or-set_self s.lane.slots place (some new) none inside,
                r.ids.kind-make r.kind node c v.kind_word node_word counter,
                r.ids.counter-make r.kind node c v.kind_word node_word counter,
              )
          | no other ↦
              let free = sym (mark_ne s.busy c j false (λ x. other (sym x))) ∙ e in
              let (f, stands, k, q) = i.window j low close free in
              (
                f,
                get_or-set_ne s.lane.slots place (j % r.capacity) (some new) none
                      (apart c j s.lane.write_pos below low near close other)
                    ∙ stands,
                k,
                q,
              )
        ];
      }

  Step-Shares : {s t : Shared} → Step r s t → Shares r s → Shares r t
  Step-Shares {s} (claimed h) i =
      subst (λ (x : ℕ × RingLane). Shares r (record { lane = x.1; busy = mark s.busy x.0 true }))
        (sym (claim_eq s.lane h)) (claimed-Shares s h i)
  Step-Shares {s} (filled c node frame_kind ver payload taken word near) i =
      filled-Shares s c node frame_kind ver payload taken word near i

  Reach-Shares : {s : Shared} → Reach r s → Shares r s
  Reach-Shares begin = begin-Shares
  Reach-Shares (next reach step) = Step-Shares step (Reach-Shares reach)

-- However the claims and the fills of the writers of a shared lane are interleaved, from an empty
-- lane of at least one slot on, while the head is at most 2^40, each node is below 2^16 and each
-- slot is filled before the head is more than the capacity past its counter, every counter of the
-- last `capacity` below the head that is not still to be filled has its frame in its slot.
pub Reach-Stands :
    (r : Ring) {s : Shared} (c : ℕ)
    → IsRing r
    → Reach r s
    → c < s.lane.write_pos
    → s.lane.write_pos ≤ c + r.capacity
    → s.busy c ≡ false
    → Stands r s.lane c
Reach-Stands r c v reach = (Reach-Shares r v reach).window c
