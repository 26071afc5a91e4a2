-- ===== src/Prelude/Bytes.antt =====
-- Little-endian bytes of a word.
use Prim.Native.Nat.{ℕ, zero, suc, ◌+◌, ◌*◌, ◌/◌, ◌%◌, ◌^◌, ◌<◌}
use mathlib.Core.Path.{◌≡◌, refl, ap, ap₂, ◌∙◌}
use mathlib.Core.List.{List, [], ◌∷◌}
use native.Mathlib.Omega.{arith}
use native.Mathlib.Nat.{pow-succ'}
use orbitive.Prelude.Lists.{length, take, drop}

-- `to_le_bytes` of a word of `n` bytes.
abbrev pub to_le_bytes : (n : ℕ) → ℕ → List ℕ
to_le_bytes zero w = []
to_le_bytes (suc n) w = w % 256 ∷ to_le_bytes n (w / 256)

abbrev pub from_le_bytes : List ℕ → ℕ
from_le_bytes [] = 0
from_le_bytes (b ∷ bs) = b + 256 * from_le_bytes bs

abbrev pub AreBytes : List ℕ → Type 0
AreBytes [] = Unit {0}
AreBytes (b ∷ bs) = (b < 256) × AreBytes bs

-- `bytes[start..start + len]`
abbrev pub slice : ℕ → ℕ → List ℕ → List ℕ
slice start len bytes = take len (drop start bytes)

-- A word of an encoded header, by its first byte and its size.
abbrev pub word : List ℕ → (start size : ℕ) → ℕ
word payload start size = from_le_bytes (slice start size payload)

pub from_le_bytes-to_le_bytes : (n w : ℕ) → w < 256 ^ n → from_le_bytes (to_le_bytes n w) ≡ w
from_le_bytes-to_le_bytes zero w h = omega arith
from_le_bytes-to_le_bytes (suc n) w h =
    let p = pow-succ' 256 n in
    let small : w / 256 < 256 ^ n = omega arith in
    let rest = from_le_bytes-to_le_bytes n (w / 256) small in omega arith

pub length-to_le_bytes : (n w : ℕ) → length (to_le_bytes n w) ≡ n
length-to_le_bytes zero w = refl
length-to_le_bytes (suc n) w = ap suc (length-to_le_bytes n (w / 256))

pub to_le_bytes-from_le_bytes :
    (bs : List ℕ) → AreBytes bs → to_le_bytes (length bs) (from_le_bytes bs) ≡ bs
to_le_bytes-from_le_bytes [] h = refl
to_le_bytes-from_le_bytes (b ∷ bs) (hb, h) =
    let low : (b + 256 * from_le_bytes bs) % 256 ≡ b = omega arith in
    let high : (b + 256 * from_le_bytes bs) / 256 ≡ from_le_bytes bs = omega arith in
    ap₂ ◌∷◌ low (ap (to_le_bytes (length bs)) high ∙ to_le_bytes-from_le_bytes bs h)

pub AreBytes-take : (n : ℕ) (xs : List ℕ) → AreBytes xs → AreBytes (take n xs)
AreBytes-take zero xs h = tt
AreBytes-take (suc n) [] h = tt
AreBytes-take (suc n) (x ∷ xs) h = (h.0, AreBytes-take n xs h.1)

pub AreBytes-drop : (n : ℕ) (xs : List ℕ) → AreBytes xs → AreBytes (drop n xs)
AreBytes-drop zero xs h = h
AreBytes-drop (suc n) [] h = tt
AreBytes-drop (suc n) (x ∷ xs) h = AreBytes-drop n xs h.1

pub from_le_bytes_bound : (bs : List ℕ) → AreBytes bs → from_le_bytes bs < 256 ^ length bs
from_le_bytes_bound [] h = omega arith
from_le_bytes_bound (b ∷ bs) h =
    let p = pow-succ' 256 (length bs) in
    let r = from_le_bytes_bound bs h.1 in let x = h.0 in omega arith
