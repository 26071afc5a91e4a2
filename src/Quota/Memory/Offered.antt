-- ===== src/Quota/Memory/Offered.antt =====
-- A selection offers only slots that it was shown.
use orbitive.Prelude.{
  ℕ, ◌&&◌, Bool, true, false, Option, none, some, if◌then◌else◌, Result, ok, err, ok_or,
}
use orbitive.Quota.Contract.{Error, capacity_full}
use orbitive.Quota.Retention.{
  Retention, Observation, Candidate, Selection, new_selection, keep_first, or_else, consider,
  finish, colder, is_guard,
}
use orbitive.Quota.Memory.{Machine}
use orbitive.Quota.Memory.Window.{weigh}

abbrev pub Offers : (ℕ → Type 0) → Option Candidate → Type 0
Offers P none = Unit {0}
Offers P (some c) = P c.index

-- Both of the slots that a selection keeps satisfy `P`.
abbrev pub Offered : (ℕ → Type 0) → Selection → Type 0
Offered P s = Offers P s.replenished × Offers P s.cold

module _ (P : ℕ → Type 0) where
  pub new_selection-Offered : (r : Retention) → Offered P (new_selection r)
  unfolding new_selection
  new_selection-Offered r = (tt, tt)

  keep_first-Offers :
      (o : Option Candidate) (c : Candidate) → Offers P o → P c.index → Offers P (keep_first o c)
  keep_first-Offers none c h p = p
  keep_first-Offers (some d) c h p = h

  consider-Offered :
      (s : Selection) (i generation : ℕ) (b : Bool) (o : Observation)
      → P i
      → Offered P s
      → Offered P (consider s i generation b o)
  unfolding consider
  consider-Offered s i generation true o p h = (keep_first-Offers s.replenished _ h.0 p, h.1)
  consider-Offered s i generation false o p h = split (is_guard s.retention && colder s.cold o)
    where
      split :
          (b : Bool)
          → Offered P (
              if b
              then record s {
                cold = some (record { index = i; generation = generation; observed = some o });
              }
              else s)
      split true = (h.0, p)
      split false = h

  pub weigh-Offered :
      (r : Retention) (now i : ℕ) (live : Bool) (m : Machine) (s : Selection)
      → P i
      → Offered P s
      → Offered P (weigh r now i live m s)
  weigh-Offered r now i false m s p h = h
  weigh-Offered r now i true m s p h = consider-Offered s i _ _ _ p h

  -- How the choice ends: with an error, or with a slot of `P`.
  abbrev pub Chooses : Result Error Candidate → Type 0
  Chooses (err e) = Unit {0}
  Chooses (ok c) = P c.index

  pub finish-Chooses : (s : Selection) → Offered P s → Chooses (finish s)
  unfolding finish
  finish-Chooses s h = split s.replenished s.cold h.0 h.1
    where
      split :
          (a b : Option Candidate)
          → Offers P a
          → Offers P b
          → Chooses (ok_or (or_else a b) capacity_full)
      split none none ha hb = tt
      split none (some c) ha hb = hb
      split (some c) b ha hb = ha
