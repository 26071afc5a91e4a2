-- ===== src/Quota/Memory/Rescan.antt =====
-- The second walk of an admission, which holds `structure`, looks for the key again.
use orbitive.Prelude.{
  ℕ, zero, suc, ◌<◌, ◌≡◌, refl, sym, ap, subst, ◌∙◌, ◌&&◌, Bool, true, false, none, ok, err, arith,
}
use orbitive.Quota.Contract.{Key}
use orbitive.Quota.Gate.{attempt, absent}
use orbitive.Quota.Retention.{Retention, Selection, new_selection, finish}
use orbitive.Quota.Memory.{Shard, World, Machine, Done, andthen, pin, drop_pin, matches}
use orbitive.Quota.Memory.Window.{survey, Survey, here, choice, release, weigh, next_index}
use orbitive.Quota.Memory.Calm.{Same, Same-trans, Calm, Leaves, pin-Same, drop_pin-Same}
use orbitive.Quota.Memory.Missing.{
  Words, Kept, Kept-trans, Kept-Words, Steady, Missing, Missing-suc, drop_pin-Kept, Pins, pin-Pins,
}
use orbitive.Quota.Memory.Offered.{Chooses, finish-Chooses, new_selection-Offered}
use orbitive.Quota.Memory.Walks.{probed, Surveys, survey-Surveys}

module _ (w : World) (steady : Steady w) (calm : Calm w) (r : Retention) (key : Key) (now : ℕ) where
  abbrev Passes : (probes count start : ℕ) → Shard → Done Survey → Type 0
  Passes probes count start s (n, err e) = Unit {0}
  Passes probes count start s (n, ok (here i, left)) = Unit {0}
  Passes probes count start s (n, ok (choice selection, left)) = Missing key probes count start s

  Passes-suc :
      (probes count i : ℕ) {s t : Shard} (d : Done Survey)
      → Words s
      → Same s t
      → Kept s t
      → (matches (s.slots i).identity key ≡ true → attempt (s.slots i).gate ≡ absent)
      → Passes probes count (next_index count i) t d
      → Passes (suc probes) count i s d
  Passes-suc probes count i (n, err e) words same kept free rest = tt
  Passes-suc probes count i (n, ok (here j, left)) words same kept free rest = tt
  Passes-suc probes count i (n, ok (choice selection, left)) words same kept free rest =
      Missing-suc key probes count i words same kept free rest

  survey-Passes :
      (probes i count : ℕ) (selection : Selection) (budget : ℕ) (m : Machine)
      → m.shard.slot_count ≡ count
      → Words m.shard
      → Passes probes count i m.shard (survey w r key now probes i selection budget m)
  unfolding survey
  survey-Passes zero i count selection budget m size words = λ n h. absurd (omega arith)
  survey-Passes (suc probes) i count selection budget m size words =
      split (pin w i none budget m) (pin-Same w calm i none budget m)
        (pin-Pins w steady i budget m words)
        (λ selection left n. survey-Passes probes (next_index count i) count selection left n)
    where
      Later : Type 0
      Later =
          (selection : Selection) (left : ℕ) (n : Machine)
          → n.shard.slot_count ≡ count
          → Words n.shard
          → Passes probes count (next_index count i) n.shard
              (survey w r key now probes (next_index count i) selection left n)

      -- The walk goes on after the slot, which is left as it was.
      onward :
          (chosen : Selection) (left : ℕ) (n : Machine)
          → Same m.shard n.shard
          → Kept m.shard n.shard
          → (matches (m.shard.slots i).identity key ≡ true
              → attempt (m.shard.slots i).gate ≡ absent)
          → Later
          → (c : ℕ) → c ≡ count
          → Passes
              (suc probes)
              count
              i
              m.shard
              (survey w r key now probes (next_index c i) chosen left n)
      onward chosen left n same kept free later c e =
          subst
            (λ c.
              Passes (suc probes) count i m.shard
                (survey w r key now probes (next_index c i) chosen left n))
            (sym e)
            (Passes-suc probes count i
              (survey w r key now probes (next_index count i) chosen left n) words same kept free
              (later chosen left n (same.count ∙ size) (Kept-Words kept words)))

      visit :
          (live : Bool) (left : ℕ) (n : Machine) (b : Bool)
          → (live && matches (n.shard.slots i).identity key) ≡ b
          → Same m.shard n.shard
          → Pins w steady i m.shard (n, ok (live, left))
          → Later
          → Passes (suc probes) count i m.shard (elim b [
            | true ↦ (n, ok (here i, left))
            | false ↦
                survey w r key now probes
                  (next_index n.shard.slot_count i)
                  (weigh r now i live n selection)
                  left
                  (release live i n)
          ])
      visit live left n true e same pins later = tt
      visit true left n false e same (kept, pos, fits) later =
          onward (weigh r now i true n selection) left (drop_pin i n)
            (Same-trans same (drop_pin-Same i n)) (Kept-trans kept (drop_pin-Kept i n pos fits))
            (λ found. let id = ap (λ id. matches id key) (same.identity i) in cc) later
            n.shard.slot_count (same.count ∙ size)
      visit false left n false e same (kept, gone) later =
          onward selection left n same kept (λ found. kept.retired i (words i) gone) later
            n.shard.slot_count (same.count ∙ size)

      split :
          (d : Done Bool)
          → Leaves m.shard d
          → Pins w steady i m.shard d
          → Later
          → Passes (suc probes) count i m.shard (
              andthen d (λ live left m. elim (live && matches (m.shard.slots i).identity key) [
                | true ↦ (m, ok (here i, left))
                | false ↦
                    survey w r key now probes
                      (next_index m.shard.slot_count i)
                      (weigh r now i live m selection)
                      left
                      (release live i m)
              ]))
      split (n, err e) same pins later = tt
      split (n, ok (live, left)) same pins later =
          visit live left n (live && matches (n.shard.slots i).identity key) refl same pins later

-- What the second walk comes to: with `P` for the slots of the window, and `Q` if the key is missing.
abbrev pub Rescans : Key → (ℕ → Type 0) → Type 0 → Shard → Done Survey → Type 0
Rescans key P Q s (n, err e) = Same s n.shard
Rescans key P Q s (n, ok (here i, left)) =
    Same s n.shard × P i × (matches (n.shard.slots i).identity key ≡ true)
Rescans key P Q s (n, ok (choice selection, left)) =
    Same s n.shard × Q × Chooses P (finish selection)

-- In a world whose other threads only pin slots, raise floors and touch, and retire no slot, the
-- second walk of an admission, on a shard whose gates are 64-bit words, leaves every identity and
-- arrival time as it was. If it ends at a slot, that is a slot of the window which has the key. If it
-- ends with a choice, every slot of the window that had the key is retired, and the slot that it
-- would give to the key, if there is one, is a slot of the window.
pub survey-Rescans :
    (w : World) (r : Retention) (key : Key) (now probes start budget : ℕ) (m : Machine)
    → Calm w
    → Steady w
    → Words m.shard
    → Rescans key
        (λ i. (n : ℕ) × (n < probes) × (i ≡ probed n m.shard.slot_count start))
        (Missing key probes m.shard.slot_count start m.shard)
        m.shard
        (survey w r key now probes start (new_selection r) budget m)
survey-Rescans w r key now probes start budget m calm steady words =
    both (survey w r key now probes start (new_selection r) budget m)
      (survey-Surveys w calm InWindow r key now probes start m.shard.slot_count (new_selection r)
        budget m refl (λ n h. (n, h, refl)) (new_selection-Offered InWindow r))
      (survey-Passes w steady calm r key now probes start m.shard.slot_count (new_selection r)
        budget m refl words)
  where
    InWindow : ℕ → Type 0
    InWindow i = (n : ℕ) × (n < probes) × (i ≡ probed n m.shard.slot_count start)

    both :
        (d : Done Survey)
        → Surveys w calm InWindow key m.shard d
        → Passes w steady calm r key now probes m.shard.slot_count start m.shard d
        → Rescans key InWindow (Missing key probes m.shard.slot_count start m.shard) m.shard d
    both (n, err e) same passed = same
    both (n, ok (here i, left)) found passed = found
    both (n, ok (choice selection, left)) (same, offered) passed =
        (same, passed, finish-Chooses InWindow selection offered)
