-- ===== src/Quota/Memory/Admission.antt =====
-- Admission as a whole: each of its answers is one step of the algorithm on one key's record.
use orbitive.Quota.Memory.Installing.{structure-Same, Ends, install-Ends, consume-Ends}
use orbitive.Quota.Memory.Walks.{
  probed, Finds, Surveys, Along, find-Finds, survey-Surveys, Same-Surveys,
}
use orbitive.Quota.Memory.Missing.{Words, Steady, Missing, find-none-Missing}
use orbitive.Quota.Memory.Offered.{Chooses, new_selection-Offered, finish-Chooses}
use orbitive.Prelude.{
  ℕ, ◌+◌, ◌<◌, ◌≡◌, refl, ◌∙◌, Bool, true, false, Option, none, some, Result, ok, err,
  if◌then◌else◌, ltb, length,
}
use orbitive.Quota.Contract.{Error, Key, busy, key_too_large, corrupt_state}
use orbitive.Quota.Gcra.{Prepared, prepare}
use orbitive.Quota.Retention.{Candidate, finish, new_selection}
use orbitive.Quota.Memory.{
  Shard, Table, World, Machine, Done, Hold, free, held, poisoned, andthen, lift,
}
use orbitive.Quota.Memory.Words.{sample, consume}
use orbitive.Quota.Memory.Admit.{
  install, decide, unlocked, unlocked_on_error, set_structure, admit_new, admit_at, proceed,
  is_poisoned,
}
use orbitive.Quota.Memory.Window.{find, survey, Survey, here, choice}
use orbitive.Quota.Memory.Calm.{Same-refl, Same-trans, Calm, Leaves, sample-Same}
use orbitive.Quota.Memory.Effects.{Admits, Same-Admits, Admits-Same}

-- `P` is what holds of every slot of the key's window, and `Q` what holds if the first walk, which
-- does not hold `structure`, has not found the key.
module _ (w : World) (calm : Calm w) (t : Table) (P : ℕ → Type 0) (Q : Type 0) where
  module _ (p : Prepared) (key : Key) (cost : ℕ) (prepared : prepare t.algorithm cost ≡ ok p) where
    -- The lock is taken and released around the second walk.
    walked-Ends :
        (s : Shard) (d : Done Survey)
        → Surveys w calm P key s d
        → Q
        → Ends w t P Q key cost s (andthen (unlocked_on_error d) (decide w t p key))
    walked-Ends s (n, err e) same q = Same-trans same (structure-Same free n)
    walked-Ends s (n, ok (here i, left)) (same, inside, found) q =
        let m = set_structure free n in
        let done = consume w t.retention t.algorithm p i left m in
        Same-Admits w t P Q key cost done.0.shard done.1 (Same-trans same (structure-Same free n))
          (consume-Ends w calm t P Q p key cost prepared i left m inside found)
    walked-Ends s (n, ok (choice selection, left)) (same, offered) q =
        split (finish selection) (finish-Chooses P selection offered)
      where
        split :
            (r : Result Error Candidate)
            → Chooses P r
            → Ends w t P Q key cost s (unlocked (andthen (lift r left n) (install w t p key)))
        split (err e) c = Same-trans same (structure-Same free n)
        split (ok c) inside =
            let done = install w t p key c left n in
            Same-Admits w t P Q key cost (set_structure free done.0).shard done.1 same (
              Admits-Same w t P Q key cost n.shard done.1
                (install-Ends w calm t P Q p key cost prepared c left n inside q)
                (structure-Same free done.0))

    admit_new-Ends :
        (start count budget : ℕ) (m : Machine)
        → m.shard.slot_count ≡ count
        → Along P t.geometry.probes count start
        → Q
        → Ends w t P Q key cost m.shard (admit_new w t p key start budget m)
    unfolding admit_new
    admit_new-Ends start count budget m size along q = split m.shard.structure
      where
        surveyed :
            (d : Done ℕ)
            → Leaves m.shard d
            → Surveys w calm P key m.shard (
                andthen d (λ now left m.
                  survey w t.retention key now t.geometry.probes start
                    (new_selection t.retention)
                    left
                    m))
        surveyed (n, err e) same = same
        surveyed (n, ok (now, left)) same =
            Same-Surveys w calm P key
              (survey w t.retention key now t.geometry.probes start (new_selection t.retention) left
                n)
              same
              (survey-Surveys w calm P t.retention key now t.geometry.probes start count
                (new_selection t.retention) left n (same.count ∙ size) along
                (new_selection-Offered P t.retention))

        split :
            (h : Hold)
            → Ends w t P Q key cost m.shard (elim h [
              | held ↦ (m, err busy)
              | poisoned ↦ (m, err corrupt_state)
              | free ↦
                  andthen
                    (unlocked_on_error (
                      andthen (sample w t.algorithm budget (set_structure held m)) (λ now left m.
                        survey w t.retention key now t.geometry.probes start
                          (new_selection t.retention)
                          left
                          m)))
                    (decide w t p key)
            ])
        split held = Same-refl m.shard
        split poisoned = Same-refl m.shard
        split free =
            walked-Ends m.shard _
              (surveyed (sample w t.algorithm budget (set_structure held m)) (
                Same-trans (structure-Same held m)
                  (sample-Same w calm t.algorithm budget (set_structure held m))))
              q

    proceed-Ends :
        (start count : ℕ) (s : Shard) (d : Done (Option ℕ))
        → Finds w calm P key s d
        → s.slot_count ≡ count
        → Along P t.geometry.probes count start
        → ((n : Machine) (left : ℕ) → d ≡ (n, ok (none, left)) → Q)
        → Ends w t P Q key cost s (andthen d (proceed w t p key start))
    proceed-Ends start count s (n, err e) same size along missed = same
    proceed-Ends start count s (n, ok (some i, left)) (same, inside, found) size along missed =
        let done = consume w t.retention t.algorithm p i left n in
        Same-Admits w t P Q key cost done.0.shard done.1 same
          (consume-Ends w calm t P Q p key cost prepared i left n inside found)
    proceed-Ends start count s (n, ok (none, left)) same size along missed =
        let done = admit_new w t p key start left n in
        Same-Admits w t P Q key cost done.0.shard done.1 same
          (admit_new-Ends start count left n (same.count ∙ size) along (missed n left refl))

  pub admit_at-Ends :
      (key : Key) (cost start : ℕ) (m : Machine)
      → Along P t.geometry.probes m.shard.slot_count start
      → ((n : Machine) (left : ℕ)
          → find w key t.geometry.probes start t.cas_budget m ≡ (n, ok (none, left))
          → Q)
      → Ends w t P Q key cost m.shard (admit_at w t key cost start m)
  unfolding admit_at
  admit_at-Ends key cost start m along missed =
      long (ltb t.geometry.key_bytes (length key.namespace + length key.subject))
    where
      open_store :
          (p : Prepared) (b : Bool)
          → prepare t.algorithm cost ≡ ok p
          → Ends w t P Q key cost m.shard (
              if b
              then (m, err corrupt_state)
              else andthen
                  (find w key t.geometry.probes start t.cas_budget m)
                  (proceed w t p key start))
      open_store p true prepared = Same-refl m.shard
      open_store p false prepared =
          proceed-Ends p key cost prepared start m.shard.slot_count m.shard
            (find w key t.geometry.probes start t.cas_budget m)
            (find-Finds w calm P key t.geometry.probes start m.shard.slot_count t.cas_budget m refl
              along)
            refl along missed

      prepared :
          (r : Result Error Prepared)
          → prepare t.algorithm cost ≡ r
          → Ends w t P Q key cost m.shard (
              andthen (lift r t.cas_budget m) (λ p budget m.
                if is_poisoned m.shard.structure
                then (m, err corrupt_state)
                else andthen
                    (find w key t.geometry.probes start budget m)
                    (proceed w t p key start)))
      prepared (err e) h = Same-refl m.shard
      prepared (ok p) h = open_store p (is_poisoned m.shard.structure) h

      long :
          (b : Bool)
          → Ends w t P Q key cost m.shard (
              if b
              then (m, err key_too_large)
              else andthen (lift (prepare t.algorithm cost) t.cas_budget m) (λ p budget m.
                if is_poisoned m.shard.structure
                then (m, err corrupt_state)
                else andthen
                    (find w key t.geometry.probes start budget m)
                    (proceed w t p key start)))
      long true = Same-refl m.shard
      long false = prepared (prepare t.algorithm cost) refl

-- A slot that a walk of the window from `start` looks at.
abbrev pub InWindow : Table → ℕ → Shard → ℕ → Type 0
InWindow t start s i = (n : ℕ) × (n < t.geometry.probes) × (i ≡ probed n s.slot_count start)

-- In a world whose other threads only pin slots, raise floors and touch, and retire no slot, every
-- admission on a shard whose gates are 64-bit words is one of these. An error leaves every identity
-- and arrival time as it was. An answer of "limited" leaves them too, and is what the algorithm
-- answers on the record of a slot of the key's window that has the key. An answer of "allowed" is
-- what the algorithm answers, either on the record of a slot of the window that has the key, whose
-- arrival time alone becomes the new one, or on no record. In that case every slot of the window that
-- had the key is retired, and one slot of the window, which was empty or under `Strict` owed nothing
-- at that time, is given to the key with its generation raised.
pub admit_at-Admits :
    (w : World) (t : Table) (key : Key) (cost start : ℕ) (m : Machine)
    → Calm w
    → Steady w
    → Words m.shard
    → let done = admit_at w t key cost start m in
      Admits w t
        (InWindow t start m.shard)
        (Missing key t.geometry.probes m.shard.slot_count start m.shard)
        key
        cost
        m.shard
        done.0.shard
        done.1
admit_at-Admits w t key cost start m calm steady words =
    admit_at-Ends w calm t (InWindow t start m.shard)
      (Missing key t.geometry.probes m.shard.slot_count start m.shard) key cost start m
      (λ n h. (n, h, refl))
      (find-none-Missing w steady calm key t.geometry.probes start t.cas_budget m words)
