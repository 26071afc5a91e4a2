-- ===== src/Quota/Memory/Tenants.antt =====
-- What an admission of one key is to the other keys of the store, and to the whole store.
use orbitive.Prelude.{
  ℕ, ◌<◌, ◌≡◌, ◌≢◌, ◌↔◌, refl, sym, ap, subst, ◌∙◌, Bool, true, false, ◌&&◌, inl, inr, ◌==◌, List,
  length, take, drop, take-length_append, drop-length_append, bytes_eq, bytes_eq_sound,
  bytes_eq_self, arith, ok, err, if◌then◌else◌, ==_iff,
}
use orbitive.Quota.Contract.{Error, Key}
use orbitive.Quota.Gcra.{Captured}
use orbitive.Quota.Retention.{strict}
use orbitive.Quota.Memory.{Identity, Table, World, Machine, Done, matches, renamed}
use orbitive.Quota.Memory.Admit.{Shards, admit, admit_at, location, stored, try_consume, decided}
use orbitive.Quota.Memory.Calm.{Same, Same-refl, Calm}
use orbitive.Quota.Memory.Effects.{Admits}
use orbitive.Quota.Memory.Admission.{admit_at-Ends}

namespace-renamed :
    (id : Identity) (n : ℕ) (key : Key)
    → take (length key.namespace) (renamed id n key).bytes ≡ key.namespace
unfolding renamed
namespace-renamed id n key = take-length_append key.namespace _

subject-renamed :
    (id : Identity) (n : ℕ) (key : Key)
    → take (length key.subject) (drop (length key.namespace) (renamed id n key).bytes) ≡ key.subject
unfolding renamed
subject-renamed id n key =
    ap (take (length key.subject)) (drop-length_append key.namespace _)
    ∙ take-length_append key.subject _

Key_eq : (a b : Key) → a.namespace ≡ b.namespace → a.subject ≡ b.subject → a ≡ b
Key_eq a b n s = λ i. record { namespace = n i; subject = s i }

all_four :
    (c d : Bool) (u v x y : List ℕ)
    → (c && (d && (bytes_eq u x && bytes_eq v y))) ≡ true
    → (u ≡ x) × (v ≡ y)
all_four c d u v x y h = ground (arith, bytes_eq_sound u x, bytes_eq_sound v y)

self_eq : (n : ℕ) → (n == n) ≡ true
self_eq n = ground arith

matches_self : (id : Identity) (n : ℕ) (key : Key) → matches (renamed id n key) key ≡ true
unfolding matches renamed
matches_self id n key =
    rw
      (
        self_eq (length key.namespace),
        self_eq (length key.subject),
        namespace-renamed id n key,
        subject-renamed id n key,
        bytes_eq_self key.namespace,
        bytes_eq_self key.subject,
      )
      refl

matches_only :
    (id : Identity) (n : ℕ) (key other : Key)
    → matches (renamed id n key) other ≡ true
    → key ≡ other
unfolding matches renamed
matches_only id n key other h =
    let parts =
      all_four (length key.namespace == length other.namespace)
        (length key.subject == length other.subject) _ _ other.namespace other.subject h in
    Key_eq key other (sym (namespace-renamed id n key) ∙ parts.0)
      (sym (subject-renamed id n key) ∙ parts.1)

-- A slot that `Writer::install` has given to a key is found under that key, and under no other: the
-- lengths that it stores delimit the two parts of the key.
pub matches-renamed :
    (id : Identity) (n : ℕ) (key other : Key)
    → (matches (renamed id n key) other ≡ true) ↔ (key ≡ other)
matches-renamed id n key other = (
  matches_only id n key other,
  λ same. subst (λ k. matches (renamed id n key) k ≡ true) same (matches_self id n key),
)

-- The effects of an admission, wherever its slot stands.
admit_at_any :
    (w : World) (t : Table) (key : Key) (cost start : ℕ) (m : Machine)
    → Calm w
    → let done = admit_at w t key cost start m in
      Admits w t (λ i. Unit {0}) (Unit {0}) key cost m.shard done.0.shard done.1
admit_at_any w t key cost start m calm =
    admit_at-Ends w calm t (λ i. Unit {0}) (Unit {0}) key cost start m (λ n h. tt) (λ n left e. tt)

-- In a world whose other threads only pin slots, raise floors and touch, a request that ends with an
-- error has charged no key: every slot of every shard keeps its identity and its arrival time,
-- whichever step of the admission failed.
pub try_consume_error :
    (w : World) (t : Table) (key : Key) (cost : ℕ) (shards : Shards) (e : Error) (k : ℕ)
    → Calm w
    → (try_consume w t key cost shards).1 ≡ err e
    → Same (shards k) ((try_consume w t key cost shards).0 k)
unfolding try_consume admit
try_consume_error w t key cost shards e k calm h =
    split (admit_at w t key cost (location t key).1 (record { shard = shards place; readings = 0 }))
      (admit_at_any w t key cost (location t key).1 (record { shard = shards place; readings = 0 })
        calm)
      h
  where
    place : ℕ
    place = (location t key).0

    split :
        (d : Done Captured)
        → Admits w t (λ i. Unit {0}) (Unit {0}) key cost (shards place) d.0.shard d.1
        → decided (stored shards place d).1 ≡ err e
        → Same (shards k) ((stored shards place d).0 k)
    split (m, err e) same h = pick (k == place) refl
      where
        pick : (b : Bool) → (k == place) ≡ b → Same (shards k) (if b then m.shard else shards k)
        pick true i = subst (λ j. Same (shards j) m.shard) (sym ((==_iff k place).0 i)) same
        pick false i = Same-refl (shards k)
    split (m, ok (answer, left)) admits h = cc

-- Under `Strict`, in a world whose other threads only pin slots, raise floors and touch, a request for
-- one key that is answered at the scaled time `now` leaves every other key that owes anything then its
-- slot, its identity and its arrival time, in the shard of the key.
pub admit_at_live :
    (w : World) (t : Table) (key : Key) (cost start now tat left j : ℕ) (m : Machine)
    → Calm w
    → t.retention ≡ strict
    → (admit_at w t key cost start m).1 ≡ ok (Captured.allowed now tat, left)
    → matches (m.shard.slots j).identity key ≡ false
    → (m.shard.slots j).identity.occupied ≡ true
    → now < (m.shard.slots j).tat
    → let after = (admit_at w t key cost start m).0.shard.slots j in
      (after.identity ≡ (m.shard.slots j).identity) × (after.tat ≡ (m.shard.slots j).tat)
admit_at_live w t key cost start now tat left j m calm strict_store answered other occupied owes =
    split (admit_at w t key cost start m) (admit_at_any w t key cost start m calm) answered
  where
    split :
        (d : Done Captured)
        → Admits w t (λ i. Unit {0}) (Unit {0}) key cost m.shard d.0.shard d.1
        → d.1 ≡ ok (Captured.allowed now tat, left)
        → ((d.0.shard.slots j).identity ≡ (m.shard.slots j).identity)
          × ((d.0.shard.slots j).tat ≡ (m.shard.slots j).tat)
    split (n, err e) admits h = cc
    split (n, ok (Captured.limited wait, rest)) admits h = cc
    split (n, ok (Captured.allowed at arrival, rest))
          (raw, sampled, inl (i, inside, found, served, taken)) h =
        (taken.identity j, taken.others j apart)
      where
        apart : j ≢ i
        apart e = cc
    split (n, ok (Captured.allowed at arrival, rest))
          (raw, sampled, inr (i, inside, q, vacant, served, given)) h =
        (given.identity j apart, given.others j apart)
      where
        apart : j ≢ i
        apart e =
            let same_time : at ≡ now = cc in
            let same_slot = ap (λ k. (m.shard.slots k).tat) e in
            let repaid =
              vacant (subst (λ k. (m.shard.slots k).identity.occupied ≡ true) e occupied)
                strict_store in
            absurd (omega arith)
