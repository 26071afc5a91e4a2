-- ===== src/Link/Frame.antt =====
-- link/src/frame.rs: the frames that a link keeps for itself, and the codec of an event.
pub mod Roundtrip
pub mod Canonical
use orbitive.Prelude.{
  ℕ, ◌+◌, ◌%◌, ◌<◌, ◌≡◌, ◌&&◌, not, Bool, true, false, List, [], ◌∷◌, ◌++◌, Option, none, some,
  length, take, drop, ltb, leb, ◌==◌, if◌then◌else◌, u16_mod, u32_mod, Result, ok, err, refuse_if,
  ◌>>=◌, ◌>>◌,
}
use orbitive.Prelude.Bytes.{to_le_bytes, from_le_bytes}

-- The errors of the two functions, of `Error`, by what they say.
pub data FrameError : Type 0 where
  topic_too_long frame_too_large malformed not_an_event topic_not_utf8 : FrameError

abbrev pub event_frame_tag : ℕ
event_frame_tag = 0xf1

-- `RESERVED_FRAME_TAGS`
abbrev pub is_reserved_tag : ℕ → Bool
is_reserved_tag tag = leb 0xf0 tag && leb tag 0xff

unfoldable pub is_reserved : List ℕ → Bool
is_reserved [] = false
is_reserved (tag ∷ rest) = is_reserved_tag tag

unfoldable pub is_event : List ℕ → Bool
is_event [] = false
is_event (tag ∷ rest) = tag == event_frame_tag

-- `encode_event`: what it leaves in `out`. A topic is a `&str`, here its bytes.
unfoldable pub encode_event : (topic payload : List ℕ) → Result FrameError (List ℕ)
encode_event topic payload = do
  refuse_if (not (ltb (length topic) u16_mod)) topic_too_long
  refuse_if (not (ltb (length payload) u32_mod)) frame_too_large
  ok (
      event_frame_tag ∷ to_le_bytes 2 (length topic)
      ++ (topic ++ (to_le_bytes 4 (length payload) ++ payload)))

-- `split_first_chunk::<N>`, and `strip_prefix` of one byte.
abbrev pub split_first_chunk : ℕ → List ℕ → Option (List ℕ × List ℕ)
split_first_chunk n bytes = if ltb (length bytes) n then none else some (take n bytes, drop n bytes)

abbrev pub strip_tag : List ℕ → Option (List ℕ)
strip_tag [] = none
strip_tag (tag ∷ rest) = if tag == event_frame_tag then some rest else none

-- From the payload's length on.
abbrev pub take_payload : List ℕ → Option (List ℕ × List ℕ) → Result FrameError (List ℕ × List ℕ)
take_payload topic none = err malformed
take_payload topic (some (len, payload)) =
    if length payload == from_le_bytes len then ok (topic, payload) else err malformed

-- From the topic on. `is_utf8` is `std::str::from_utf8`, a parameter.
abbrev pub take_topic :
    (is_utf8 : List ℕ → Bool) → Option (List ℕ × List ℕ) → Result FrameError (List ℕ × List ℕ)
take_topic is_utf8 none = err malformed
take_topic is_utf8 (some (len, rest)) =
    let topic_len = from_le_bytes len in
    if ltb (length rest) topic_len
    then err malformed
    else if is_utf8 (take topic_len rest)
    then take_payload (take topic_len rest) (split_first_chunk 4 (drop topic_len rest))
    else err topic_not_utf8

abbrev pub after_tag :
    (is_utf8 : List ℕ → Bool) → Option (List ℕ) → Result FrameError (List ℕ × List ℕ)
after_tag is_utf8 none = err not_an_event
after_tag is_utf8 (some rest) = take_topic is_utf8 (split_first_chunk 2 rest)

-- `decode_event`
unfoldable pub decode_event :
    (is_utf8 : List ℕ → Bool) → List ℕ → Result FrameError (List ℕ × List ℕ)
decode_event is_utf8 frame = after_tag is_utf8 (strip_tag frame)
