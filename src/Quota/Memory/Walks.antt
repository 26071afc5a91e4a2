-- ===== src/Quota/Memory/Walks.antt =====
-- The two walks of the probe window leave every debt alone, and a slot that they end at has the key.
use orbitive.Prelude.{
  ℕ, zero, suc, ◌<◌, ◌≡◌, refl, sym, subst, ◌∙◌, ◌&&◌, Bool, true, false, Option, none, some, ok,
  err, arith,
}
use orbitive.Quota.Contract.{Key}
use orbitive.Quota.Retention.{Retention, Selection}
use orbitive.Quota.Memory.{Shard, World, Machine, Done, andthen, pin, matches}
use orbitive.Quota.Memory.Window.{find, survey, Survey, here, choice, release, weigh, next_index}
use orbitive.Quota.Memory.Offered.{Offered, weigh-Offered}
use orbitive.Quota.Memory.Calm.{Same, Same-refl, Same-trans, Calm, Leaves, drop_pin-Same, pin-Same}

-- The slot of a walk after `n` steps from its start.
abbrev pub probed : (n count start : ℕ) → ℕ
probed zero count start = start
probed (suc n) count start = probed n count (next_index count start)

-- Every slot of a walk of `probes` steps satisfies `P`.
abbrev pub Along : (ℕ → Type 0) → (probes count start : ℕ) → Type 0
Along P probes count start = (n : ℕ) → n < probes → P (probed n count start)

module _ (w : World) (calm : Calm w) (P : ℕ → Type 0) where
  release-Same : (live : Bool) (i : ℕ) (m : Machine) → Same m.shard (release live i m).shard
  release-Same true i m = drop_pin-Same i m
  release-Same false i m = Same-refl m.shard

  -- A walk leaves the debts alone, and a slot that it ends at is one of the walk and has the key.
  abbrev pub Finds : Key → Shard → Done (Option ℕ) → Type 0
  Finds key s (n, err e) = Same s n.shard
  Finds key s (n, ok (none, left)) = Same s n.shard
  Finds key s (n, ok (some i, left)) =
      Same s n.shard × P i × (matches (n.shard.slots i).identity key ≡ true)

  Same-Finds :
      (key : Key) {s t : Shard} (d : Done (Option ℕ)) → Same s t → Finds key t d → Finds key s d
  Same-Finds key (n, err e) same f = Same-trans same f
  Same-Finds key (n, ok (none, left)) same f = Same-trans same f
  Same-Finds key (n, ok (some i, left)) same (f, inside, found) = (Same-trans same f, inside, found)

  pub find-Finds :
      (key : Key) (probes i count budget : ℕ) (m : Machine)
      → m.shard.slot_count ≡ count
      → Along P probes count i
      → Finds key m.shard (find w key probes i budget m)
  unfolding find
  find-Finds key zero i count budget m size along = Same-refl m.shard
  find-Finds key (suc probes) i count budget m size along =
      split (pin w i none budget m) (pin-Same w calm i none budget m) (λ left n size.
        find-Finds key probes (next_index count i) count left n size
          (λ k b. along (suc k) (omega arith)))
    where
      Later : Type 0
      Later =
          (left : ℕ) (n : Machine)
          → n.shard.slot_count ≡ count
          → Finds key n.shard (find w key probes (next_index count i) left n)

      visit :
          (live : Bool) (left : ℕ) (n : Machine) (b : Bool)
          → (live && matches (n.shard.slots i).identity key) ≡ b
          → Same m.shard n.shard
          → Later
          → Finds key m.shard (elim b [
            | true ↦ (n, ok (some i, left))
            | false ↦ find w key probes (next_index n.shard.slot_count i) left (release live i n)
          ])
      visit true left n true e same later = (same, along 0 (omega arith), e)
      visit false left n true e same later = cc
      visit live left n false e same later =
          let here = same.count ∙ size in
          let freed = release-Same live i n in
          Same-Finds key
            (find w key probes (next_index n.shard.slot_count i) left (release live i n))
            (Same-trans same freed)
            (subst
              (λ c.
                Finds key (release live i n).shard
                  (find w key probes (next_index c i) left (release live i n)))
              (sym here) (later left (release live i n) (freed.count ∙ here)))

      split :
          (d : Done Bool)
          → Leaves m.shard d
          → Later
          → Finds key m.shard (
              andthen d (λ live left m. elim (live && matches (m.shard.slots i).identity key) [
                | true ↦ (m, ok (some i, left))
                | false ↦
                    find w key probes (next_index m.shard.slot_count i) left (release live i m)
              ]))
      split (n, err e) same later = same
      split (n, ok (live, left)) same later =
          visit live left n (live && matches (n.shard.slots i).identity key) refl same later

  abbrev pub Surveys : Key → Shard → Done Survey → Type 0
  Surveys key s (n, err e) = Same s n.shard
  Surveys key s (n, ok (choice selection, left)) = Same s n.shard × Offered P selection
  Surveys key s (n, ok (here i, left)) =
      Same s n.shard × P i × (matches (n.shard.slots i).identity key ≡ true)

  pub Same-Surveys :
      (key : Key) {s t : Shard} (d : Done Survey) → Same s t → Surveys key t d → Surveys key s d
  Same-Surveys key (n, err e) same f = Same-trans same f
  Same-Surveys key (n, ok (choice selection, left)) same (f, offered) = (Same-trans same f, offered)
  Same-Surveys key (n, ok (here i, left)) same (f, inside, found) =
      (Same-trans same f, inside, found)

  pub survey-Surveys :
      (r : Retention) (key : Key) (now probes i count : ℕ) (selection : Selection) (budget : ℕ)
      (m : Machine)
      → m.shard.slot_count ≡ count
      → Along P probes count i
      → Offered P selection
      → Surveys key m.shard (survey w r key now probes i selection budget m)
  unfolding survey
  survey-Surveys r key now zero i count selection budget m size along offered =
      (Same-refl m.shard, offered)
  survey-Surveys r key now (suc probes) i count selection budget m size along offered =
      split (pin w i none budget m) (pin-Same w calm i none budget m)
        (λ selection left n size offered.
          survey-Surveys r key now probes (next_index count i) count selection left n size
            (λ k b. along (suc k) (omega arith)) offered)
    where
      Later : Type 0
      Later =
          (selection : Selection) (left : ℕ) (n : Machine)
          → n.shard.slot_count ≡ count
          → Offered P selection
          → Surveys key n.shard (survey w r key now probes (next_index count i) selection left n)

      inside : P i
      inside = along 0 (omega arith)

      visit :
          (live : Bool) (left : ℕ) (n : Machine) (b : Bool)
          → (live && matches (n.shard.slots i).identity key) ≡ b
          → Same m.shard n.shard
          → Later
          → Surveys key m.shard (elim b [
            | true ↦ (n, ok (here i, left))
            | false ↦
                survey w r key now probes
                  (next_index n.shard.slot_count i)
                  (weigh r now i live n selection)
                  left
                  (release live i n)
          ])
      visit true left n true e same later = (same, inside, e)
      visit false left n true e same later = cc
      visit live left n false e same later =
          let here = same.count ∙ size in
          let freed = release-Same live i n in
          Same-Surveys key
            (survey w r key now probes (next_index n.shard.slot_count i)
              (weigh r now i live n selection) left (release live i n))
            (Same-trans same freed)
            (subst
              (λ c. Surveys key (release live i n).shard (
                survey w r key now probes (next_index c i) (weigh r now i live n selection) left
                  (release live i n)))
              (sym here)
              (later (weigh r now i live n selection) left (release live i n) (freed.count ∙ here)
                (weigh-Offered P r now i live n selection inside offered)))

      split :
          (d : Done Bool)
          → Leaves m.shard d
          → Later
          → Surveys key m.shard (
              andthen d (λ live left m. elim (live && matches (m.shard.slots i).identity key) [
                | true ↦ (m, ok (here i, left))
                | false ↦
                    survey w r key now probes
                      (next_index m.shard.slot_count i)
                      (weigh r now i live m selection)
                      left
                      (release live i m)
              ]))
      split (n, err e) same later = same
      split (n, ok (live, left)) same later =
          visit live left n (live && matches (n.shard.slots i).identity key) refl same later
