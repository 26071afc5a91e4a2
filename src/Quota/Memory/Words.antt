-- ===== src/Quota/Memory/Words.antt =====
-- quota/src/memory.rs and quota/src/retention.rs: the loops of exchanges on a shard's clock floor and
-- on a slot's recency and arrival time, and the consumption of a key that has a slot.
use orbitive.Prelude.{
  ℕ, zero, suc, Bool, true, false, Option, none, some, ltb, ◌==◌, if◌then◌else◌, ok, err,
}
use orbitive.Quota.Contract.{busy, clock_went_backwards, Decision}
use orbitive.Quota.Gcra.{
  Gcra, Prepared, Outcome, allowed, limited, Captured, scale, retry_after, evaluate,
}
use orbitive.Quota.Retention.{Retention, strict, guard}
use orbitive.Quota.Memory.{
  World, Machine, Done, andthen, lift, set_tat, set_last_seen, on, drop_pin, exchanged,
}

-- The floor's loop in `MemoryQuota::sample`: it runs while the floor is below the reading.
unfoldable pub raise : World → ℕ → (budget : ℕ) → Machine → Done (Unit {0})
raise w now zero m = if ltb m.shard.watermark now then (m, err busy) else (m, ok (tt, zero))
raise w now (suc left) m =
    if ltb m.shard.watermark now
    then exchanged (w.weak left) (on (λ s. record s { watermark = now }) m, ok (tt, left))
        (raise w now left) m
    else (m, ok (tt, suc left))

abbrev pub tick : Machine → Machine
tick m = record m { readings = suc m.readings }

abbrev pub advance : World → ℕ → ℕ → ℕ → Machine → Done ℕ
advance w now scaled left m = andthen (raise w now left m) (λ done left m. (m, ok (scaled, left)))

-- What `MemoryQuota::sample` makes of a reading. The floor has not moved since it was loaded.
abbrev pub accept : World → Gcra → ℕ → ℕ → Machine → Done ℕ
accept w g now left m =
    if ltb now m.shard.watermark
    then (m, err clock_went_backwards)
    else andthen (lift (scale g now) left m) (advance w now)

-- `MemoryQuota::sample`: the scaled reading, once the floor is not behind it.
unfoldable pub sample : World → Gcra → ℕ → Machine → Done ℕ
sample w g budget m = andthen (lift (w.clock m.readings) budget (tick m)) (accept w g)

-- `touch`
unfoldable pub touch : World → ℕ → ℕ → (budget : ℕ) → Machine → Done (Unit {0})
touch w i now zero m =
    if ltb (m.shard.slots i).last_seen now then (m, err busy) else (m, ok (tt, zero))
touch w i now (suc left) m =
    if ltb (m.shard.slots i).last_seen now
    then exchanged (w.weak left) (on (set_last_seen i now) m, ok (tt, left)) (touch w i now left) m
    else (m, ok (tt, suc left))

-- `Pin::commit`: a weak exchange of `previous`, which another value refuses.
unfoldable pub commit : World → ℕ → ℕ → ℕ → (budget : ℕ) → Machine → Done Bool
commit w i previous next zero m = (m, err busy)
commit w i previous next (suc left) m =
    exchanged (w.weak left)
      (if (m.shard.slots i).tat == previous
        then (on (set_tat i next) m, ok (true, left))
        else (m, ok (false, left)))
      (λ n. (n, ok (false, left))) m

abbrev pub if_guard {ℓ} : {A : Type ℓ} → Retention → A → A → A
if_guard guard a b = a
if_guard strict a b = b

-- What one round of `MemoryQuota::consume` evaluates, with the scaled time.
unfoldable pub assess :
    World → Retention → Gcra → Prepared → ℕ → ℕ → ℕ → Machine → Done (ℕ × Outcome)
assess w r g p i previous budget m = andthen (sample w g budget m) (λ now left m.
    andthen (if_guard r (touch w i now left m) (m, ok (tt, left))) (λ done left m.
      andthen (lift (evaluate p now (some previous)) left m)
        (λ outcome left m. (m, ok ((now, outcome), left)))))

-- A committed charge answers; an exchange that is not carried out calls for another round.
abbrev pub answer_of : ℕ → ℕ → Bool → Option Captured
answer_of now tat true = some (Captured.allowed now tat)
answer_of now tat false = none

abbrev pub conclude : World → Gcra → ℕ → ℕ → ℕ × Outcome → ℕ → Machine → Done (Option Captured)
conclude w g i previous (now, limited debt) left m =
    andthen (lift (retry_after g debt) left m)
      (λ wait left m. (m, ok (some (Captured.limited wait), left)))
conclude w g i previous (now, allowed tat) left m =
    andthen (commit w i previous tat left m) (λ done left m. (m, ok (answer_of now tat done, left)))

unfoldable pub round :
    World → Retention → Gcra → Prepared → ℕ → ℕ → Machine → Done (Option Captured)
round w r g p i budget m =
    andthen (assess w r g p i (m.shard.slots i).tat budget m) (conclude w g i (m.shard.slots i).tat)

abbrev pub continue :
    Done (Option Captured) → (ℕ → Machine → Option (Done Captured)) → Option (Done Captured)
continue (m, err e) next = some (m, err e)
continue (m, ok (some answer, left)) next = some (m, ok (answer, left))
continue (m, ok (none, left)) next = next left m

-- The rounds of `MemoryQuota::consume`; `none` if `fuel` rounds do not end.
unfoldable pub rounds :
    World → Retention → Gcra → Prepared → ℕ → (fuel : ℕ) → ℕ → Machine → Option (Done Captured)
rounds w r g p i zero budget m = none
rounds w r g p i (suc fuel) budget m =
    continue (round w r g p i budget m) (λ left m. rounds w r g p i fuel left m)

-- Fuel beyond the budget is not used up: see `rounds-Returns`.
abbrev pub returned : Machine → Option (Done Captured) → Done Captured
returned m none = (m, err busy)
returned m (some done) = done

abbrev pub released : ℕ → Done Captured → Done Captured
released i (m, r) = (drop_pin i m, r)

-- `MemoryQuota::consume`, which owns the pin and drops it however it ends.
unfoldable pub consume : World → Retention → Gcra → Prepared → ℕ → ℕ → Machine → Done Captured
consume w r g p i budget m = released i (returned m (rounds w r g p i (suc budget) budget m))

-- `AdmissionResult for Decision`: what a caller keeps that does not ask for a snapshot.
unfoldable pub decision_of : Captured → Decision
decision_of (Captured.allowed now tat) = Decision.allowed
decision_of (Captured.limited wait) = Decision.limited wait
