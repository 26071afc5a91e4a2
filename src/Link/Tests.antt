-- ===== src/Link/Tests.antt =====
-- One event on a link, and the theorems applied to it.
use orbitive.Prelude.{ℕ, ◌≡◌, refl, Bool, true, List, [], ◌∷◌, ok, err, arith, leb, ◌&&◌}
use orbitive.Link.Frame.{is_event, is_reserved, encode_event, decode_event, malformed, not_an_event}
use orbitive.Link.Frame.Roundtrip.{decode_event-encode_event}
use orbitive.Link.Frame.Canonical.{encode_event-decode_event}

-- Bytes of ASCII, which all are UTF-8.
abbrev is_ascii : List ℕ → Bool
is_ascii [] = true
is_ascii (b ∷ bs) = leb b 127 && is_ascii bs

abbrev topic : List ℕ
topic = 104 ∷ 105 ∷ []

abbrev frame : List ℕ
frame = 241 ∷ 2 ∷ 0 ∷ 104 ∷ 105 ∷ 3 ∷ 0 ∷ 0 ∷ 0 ∷ 255 ∷ 0 ∷ 1 ∷ []

encoded : encode_event topic (255 ∷ 0 ∷ 1 ∷ []) ≡ ok frame
unfolding encode_event
encoded = refl

decoded : decode_event is_ascii frame ≡ ok (topic, 255 ∷ 0 ∷ 1 ∷ [])
unfolding decode_event
decoded = refl

truncated : decode_event is_ascii (241 ∷ 2 ∷ 0 ∷ 104 ∷ []) ≡ err malformed
unfolding decode_event
truncated = refl

foreign : decode_event is_ascii (1 ∷ 2 ∷ []) ≡ err not_an_event
unfolding decode_event
foreign = refl

decode_event-encode_event_example :
    (decode_event is_ascii frame ≡ ok (topic, 255 ∷ 0 ∷ 1 ∷ []))
    × (is_event frame ≡ true)
    × (is_reserved frame ≡ true)
decode_event-encode_event_example =
    decode_event-encode_event is_ascii topic (255 ∷ 0 ∷ 1 ∷ []) frame refl encoded

encode_event-decode_event_example :
    (encode_event topic (255 ∷ 0 ∷ 1 ∷ []) ≡ ok frame) × (is_ascii topic ≡ true)
encode_event-decode_event_example =
    encode_event-decode_event is_ascii topic (255 ∷ 0 ∷ 1 ∷ []) frame
      (
        omega arith,
        (
          omega arith,
          (
            omega arith,
            (
              omega arith,
              (
                omega arith,
                (
                  omega arith,
                  (
                    omega arith,
                    (omega arith, (omega arith, (omega arith, (omega arith, (omega arith, tt))))),
                  ),
                ),
              ),
            ),
          ),
        ),
      )
      decoded
