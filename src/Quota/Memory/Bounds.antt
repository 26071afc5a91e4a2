-- ===== src/Quota/Memory/Bounds.antt =====
-- The debts that an admission changes are of the shards of its store and of the slots of its shard.
use orbitive.Prelude.{
  ℕ, zero, suc, ◌/◌, ◌%◌, ◌<◌, ◌≤◌, ◌≡◌, ◌≢◌, refl, sym, ap, subst, ◌||◌, not, Bool, true, false,
  ltb, ◌==◌, if◌then◌else◌, arith, Result, ok, err, Bool-cases, ◌⊎◌, inl, inr, ==_iff,
}
use native.Mathlib.Nat.{mod-lt}
use orbitive.Quota.Contract.{Error, Key, Geometry, new_geometry, invalid_geometry}
use orbitive.Quota.Gcra.{Captured}
use orbitive.Quota.Memory.{Slot, Shard, Table, World, Machine, Done}
use orbitive.Quota.Memory.Calm.{Calm}
use orbitive.Quota.Memory.Effects.{Admits}
use orbitive.Quota.Memory.Window.{next_index}
use orbitive.Quota.Memory.Admit.{Shards, location, admit, admit_at, stored, try_consume}
use orbitive.Quota.Memory.Admission.{admit_at-Ends}
use orbitive.Quota.Memory.Walks.{probed}

next_index_bound : (count i : ℕ) → i < count → next_index count i < count
next_index_bound count i h = ground arith

probed_bound : (n count i : ℕ) → i < count → probed n count i < count
probed_bound zero count i h = h
probed_bound (suc n) count i h =
    probed_bound n count (next_index count i) (next_index_bound count i h)

new_geometry-probes :
    (slots shards key_bytes probes : ℕ) (geometry : Geometry)
    → new_geometry slots shards key_bytes probes ≡ ok geometry
    → 0 < probes
    → (geometry.shards ≡ shards) × (0 < geometry.slots / geometry.shards)
unfolding new_geometry
new_geometry-probes slots shards key_bytes probes geometry h pos =
    split (Bool-cases (ltb (slots / shards) probes)) (not (slots % shards == 0)) h
  where
    made : Geometry
    made = record { slots = slots; shards = shards; key_bytes = key_bytes; probes = probes }

    split :
        (ltb (slots / shards) probes ≡ true) ⊎ (ltb (slots / shards) probes ≡ false)
        → (b : Bool)
        → (if b || ltb (slots / shards) probes then err invalid_geometry else ok made) ≡ ok geometry
        → (geometry.shards ≡ shards) × (0 < geometry.slots / geometry.shards)
    split few true h = cc
    split (inl few) false h = cc
    split (inr enough) false h =
        let same : made ≡ geometry = cc in
        let room : 0 < slots / shards = ground (arith, enough) in
        (ap (λ g. g.shards) (sym same), subst (λ g. 0 < g.slots / g.shards) same room)

location_bounds :
    (t : Table) (key : Key) {shard_count : ℕ}
    → t.geometry.shards ≡ shard_count
    → 0 < shard_count
    → 0 < t.geometry.slots / t.geometry.shards
    → ((location t key).0 < t.geometry.shards)
      × ((location t key).1 < t.geometry.slots / t.geometry.shards)
unfolding location
location_bounds t key e ps room =
    (mod-lt (t.hash_one 0 key) (omega arith), mod-lt (t.hash_one 1 key) room)

-- The debt of a slot is as it was.
abbrev pub Untouched : Slot → Slot → Type 0
Untouched a b = (b.identity ≡ a.identity) × (b.tat ≡ a.tat)

module _ (w : World) (t : Table) (key : Key) (cost count j : ℕ) (past : count ≤ j) where
  past_end :
      (s u : Shard) (r : Result Error (Captured × ℕ))
      → Admits w t (λ i. i < count) (Unit {0}) key cost s u r
      → Untouched (s.slots j) (u.slots j)
  past_end s u (err e) same = (same.identity j, same.tat j)
  past_end s u (ok (Captured.limited wait, left))
        (i, inside, found, raw, now, sampled, served, same) =
      (same.identity j, same.tat j)
  past_end s u (ok (Captured.allowed now tat, left))
        (raw, sampled, inl (i, inside, found, served, taken)) =
      (taken.identity j, taken.others j (apart i inside))
    where
      apart : (i : ℕ) → i < count → j ≢ i
      apart i inside e = omega arith
  past_end s u (ok (Captured.allowed now tat, left))
        (raw, sampled, inr (i, inside, q, vacant, served, given)) =
      (given.identity j (apart i inside), given.others j (apart i inside))
    where
      apart : (i : ℕ) → i < count → j ≢ i
      apart i inside e = omega arith

-- In a world whose other threads only pin slots, raise floors and touch, a request to a store of a
-- geometry that `Geometry::new` accepts, with at least one shard and one probe, and whose shards each
-- have the slots that the geometry gives them, writes no identity and no arrival time of a shard or a
-- slot that the store does not have.
pub try_consume-inside :
    (w : World) (t : Table) (key : Key) (cost : ℕ) (shards : Shards)
    (slots shard_count key_bytes probes k j : ℕ)
    → Calm w
    → new_geometry slots shard_count key_bytes probes ≡ ok t.geometry
    → 0 < shard_count
    → 0 < probes
    → ((k : ℕ) → (shards k).slot_count ≡ t.geometry.slots / t.geometry.shards)
    → (t.geometry.shards ≤ k) ⊎ (t.geometry.slots / t.geometry.shards ≤ j)
    → Untouched ((shards k).slots j) (((try_consume w t key cost shards).0 k).slots j)
unfolding try_consume admit
try_consume-inside w t key cost shards slots shard_count key_bytes probes k j calm h ps pp sizes
      outside =
    split (admit_at w t key cost (location t key).1 (record { shard = shards place; readings = 0 }))
      (λ past.
        past_end w t key cost (t.geometry.slots / t.geometry.shards) j past (shards place) _ _ (
          admit_at-Ends w calm t (λ i. i < t.geometry.slots / t.geometry.shards) (Unit {0}) key cost
            (location t key).1 (record { shard = shards place; readings = 0 })
            (λ n b.
              subst (λ c. probed n c (location t key).1 < t.geometry.slots / t.geometry.shards)
                (sym (sizes place))
                (probed_bound n _ _ (location_bounds t key parts.0 ps parts.1).1))
            (λ n left e. tt)))
  where
    place : ℕ
    place = (location t key).0

    parts : (t.geometry.shards ≡ shard_count) × (0 < t.geometry.slots / t.geometry.shards)
    parts = new_geometry-probes slots shard_count key_bytes probes t.geometry h pp

    pick :
        (m : Machine)
        → (t.geometry.slots / t.geometry.shards ≤ j
            → Untouched ((shards place).slots j) (m.shard.slots j))
        → (b : Bool) → (k == place) ≡ b
        → Untouched ((shards k).slots j) ((if b then m.shard else shards k).slots j)
    pick m inside false e = (refl, refl)
    pick m inside true e = here outside
      where
        same : k ≡ place
        same = (==_iff k place).0 e

        here :
            (t.geometry.shards ≤ k) ⊎ (t.geometry.slots / t.geometry.shards ≤ j)
            → Untouched ((shards k).slots j) (m.shard.slots j)
        here (inl far) =
            let near = (location_bounds t key parts.0 ps parts.1).0 in absurd (omega (arith, same))
        here (inr past) =
            subst (λ k. Untouched ((shards k).slots j) (m.shard.slots j)) (sym same) (inside past)

    split :
        (d : Done Captured)
        → (t.geometry.slots / t.geometry.shards ≤ j
            → Untouched ((shards place).slots j) (d.0.shard.slots j))
        → Untouched ((shards k).slots j) (((stored shards place d).0 k).slots j)
    split (m, err e) inside = pick m inside (k == place) refl
    split (m, ok (answer, left)) inside = pick m inside (k == place) refl
