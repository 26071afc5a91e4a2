-- ===== src/Link/Frame/Roundtrip.antt =====
-- An event that is encoded is decoded again.
use orbitive.Prelude.{
  ℕ, ◌<◌, ◌≡◌, ◌⊎◌, refl, sym, ap, ◌∙◌, not, Bool, true, false, Bool-cases, List, ◌∷◌, ◌++◌, some,
  length, length-append, take-length_append, drop-length_append, ltb, u16_mod, u32_mod, ok,
  refuse_if, ◌>>◌, arith, ltb→lt, ==_iff,
}
use orbitive.Prelude.Bytes.{to_le_bytes, from_le_bytes-to_le_bytes}
use orbitive.Link.Frame.{
  topic_too_long, frame_too_large, event_frame_tag, is_reserved, is_event, encode_event,
  decode_event, split_first_chunk, take_payload, take_topic,
}

abbrev pub written : List ℕ → List ℕ → List ℕ
written topic payload =
    event_frame_tag ∷ to_le_bytes 2 (length topic)
    ++ (topic ++ (to_le_bytes 4 (length payload) ++ payload))

-- An encoder that succeeds has found both lengths in their words.
encode_event-ok :
    (topic payload frame : List ℕ)
    → encode_event topic payload ≡ ok frame
    → (length topic < u16_mod) × (length payload < u32_mod) × (written topic payload ≡ frame)
unfolding encode_event
encode_event-ok topic payload frame h =
    split (Bool-cases (ltb (length topic) u16_mod)) (Bool-cases (ltb (length payload) u32_mod))
  where
    Chain : Bool → Bool → Type 0
    Chain a b =
        (refuse_if (not a) topic_too_long
          >> (refuse_if (not b) frame_too_large >> ok (written topic payload)))
        ≡ ok frame

    both : (a b : Bool) → Chain a b → (a ≡ true) × (b ≡ true) × (written topic payload ≡ frame)
    both true true h = (refl, refl, cc)
    both true false h = cc
    both false b h = cc

    split :
        (ltb (length topic) u16_mod ≡ true) ⊎ (ltb (length topic) u16_mod ≡ false)
        → (ltb (length payload) u32_mod ≡ true) ⊎ (ltb (length payload) u32_mod ≡ false)
        → (length topic < u16_mod) × (length payload < u32_mod) × (written topic payload ≡ frame)
    split a b =
        let parts = both (ltb (length topic) u16_mod) (ltb (length payload) u32_mod) h in
        (ltb→lt _ _ parts.0, ltb→lt _ _ parts.1, parts.2)

module _ (is_utf8 : List ℕ → Bool) (topic payload : List ℕ) (ht : length topic < u16_mod)
    (hp : length payload < u32_mod) (utf8 : is_utf8 topic ≡ true) where
  abbrev tail : List ℕ
  tail = to_le_bytes 4 (length payload) ++ payload

  payload_taken : take_payload topic (split_first_chunk 4 tail) ≡ ok (topic, payload)
  payload_taken =
      rw
        (
          fits,
          from_le_bytes-to_le_bytes 4 (length payload) hp,
          (==_iff (length payload) (length payload)).1 refl,
        )
        refl
    where
      fits : ltb (length tail) 4 ≡ false
      fits = ground arith

  topic_taken :
      take_topic is_utf8 (some (to_le_bytes 2 (length topic), topic ++ tail)) ≡ ok (topic, payload)
  topic_taken =
      rw
        (
          from_le_bytes-to_le_bytes 2 (length topic) ht,
          fits,
          take-length_append topic tail,
          utf8,
          drop-length_append topic tail,
        )
        payload_taken
    where
      fits : ltb (length (topic ++ tail)) (length topic) ≡ false
      fits = let l = length-append topic tail in ground arith

  decode_event-written : decode_event is_utf8 (written topic payload) ≡ ok (topic, payload)
  unfolding decode_event
  decode_event-written = rw (fits) topic_taken
    where
      fits : ltb (length (to_le_bytes 2 (length topic) ++ (topic ++ tail))) 2 ≡ false
      fits = ground arith

-- An event of which the topic is UTF-8 is read back from the frame that encodes it, and the frame is
-- an event's and one of those that the link keeps for itself.
pub decode_event-encode_event :
    (is_utf8 : List ℕ → Bool) (topic payload frame : List ℕ)
    → is_utf8 topic ≡ true
    → encode_event topic payload ≡ ok frame
    → (decode_event is_utf8 frame ≡ ok (topic, payload))
      × (is_event frame ≡ true)
      × (is_reserved frame ≡ true)
unfolding is_event is_reserved
decode_event-encode_event is_utf8 topic payload frame utf8 h =
    let parts = encode_event-ok topic payload frame h in
    (
      ap (decode_event is_utf8) (sym parts.2)
          ∙ decode_event-written is_utf8 topic payload parts.0 parts.1 utf8,
      ap is_event (sym parts.2),
      ap is_reserved (sym parts.2),
    )
