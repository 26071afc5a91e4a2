-- ===== src/Link/Frame/Canonical.antt =====
-- The decoder of events accepts only what the encoder writes.
use orbitive.Prelude.{
  ℕ, ◌≤◌, ◌<◌, ◌^◌, subst, ◌≡◌, ◌⊎◌, inl, inr, refl, sym, ap, ap₂, ◌∙◌, Bool, true, false,
  Bool-cases, List, [], ◌∷◌, ◌++◌, some, none, Option, length, take, drop, length-take, take-drop,
  ltb, ◌==◌, if◌then◌else◌, u16_mod, u32_mod, Result, ok, err, arith, lt→ltb, ==_iff,
}
use orbitive.Prelude.Bytes.{
  to_le_bytes, from_le_bytes, AreBytes, AreBytes-take, AreBytes-drop, from_le_bytes_bound,
  to_le_bytes-from_le_bytes,
}
use orbitive.Link.Frame.{
  FrameError, malformed, topic_not_utf8, not_an_event, event_frame_tag, encode_event, decode_event,
  split_first_chunk, take_payload, take_topic, after_tag,
}
use orbitive.Link.Frame.Roundtrip.{written}

word_exact :
    (n : ℕ) (bytes : List ℕ)
    → AreBytes bytes
    → n ≤ length bytes
    → (to_le_bytes n (from_le_bytes (take n bytes)) ≡ take n bytes)
      × (from_le_bytes (take n bytes) < 256 ^ n)
word_exact n bytes areBytes h =
    let size : length (take n bytes) ≡ n = omega (arith, length-take n bytes) in
    (
      ap (λ k. to_le_bytes k (from_le_bytes (take n bytes))) (sym size)
          ∙ to_le_bytes-from_le_bytes (take n bytes) (AreBytes-take n bytes areBytes),
      subst (λ k. from_le_bytes (take n bytes) < 256 ^ k) size
          (from_le_bytes_bound (take n bytes) (AreBytes-take n bytes areBytes)),
    )

refused : {G : Type 0} (e : FrameError) (answer : List ℕ × List ℕ) → err e ≡ ok answer → G
refused e answer h = cc

guarded :
    (b : Bool) (r : Result FrameError (List ℕ × List ℕ)) (e : FrameError) (topic payload : List ℕ)
    → (if b then r else err e) ≡ ok (topic, payload)
    → (b ≡ true) × (r ≡ ok (topic, payload))
guarded true r e topic payload h = (refl, h)
guarded false r e topic payload h = cc

refused_first :
    (b : Bool) (r : Result FrameError (List ℕ × List ℕ)) (e : FrameError) (topic payload : List ℕ)
    → (if b then err e else r) ≡ ok (topic, payload)
    → (b ≡ false) × (r ≡ ok (topic, payload))
refused_first true r e topic payload h = cc
refused_first false r e topic payload h = (refl, h)

-- Frames that the decoder takes apart are put together again by the encoder.
module _ (is_utf8 : List ℕ → Bool) (topic payload : List ℕ) where
  Rebuilt : List ℕ → List ℕ → Type 0
  Rebuilt name rest =
      (to_le_bytes 4 (length payload) ++ payload ≡ rest)
      × (length payload < u32_mod)
      × (name ≡ topic)

  payload_exact :
      (name rest : List ℕ)
      → AreBytes rest
      → take_payload name (split_first_chunk 4 rest) ≡ ok (topic, payload)
      → Rebuilt name rest
  unfolding Rebuilt
  payload_exact name rest areBytes h = split (Bool-cases (ltb (length rest) 4)) h
    where
      cut : Bool → Result FrameError (List ℕ × List ℕ)
      cut b =
          take_payload name
            (if◌then◌else◌ {A = Option (List ℕ × List ℕ)} b none (some (take 4 rest, drop 4 rest)))

      taken : 4 ≤ length rest → cut false ≡ ok (topic, payload) → Rebuilt name rest
      taken long h =
          let parts =
            guarded (length (drop 4 rest) == from_le_bytes (take 4 rest)) (ok (name, drop 4 rest))
              malformed topic payload h in
          let exact = word_exact 4 rest areBytes long in
          let size = (==_iff (length (drop 4 rest)) (from_le_bytes (take 4 rest))).0 parts.0 in
          let same : drop 4 rest ≡ payload = cc in
          let named : name ≡ topic = cc in
          let measured : length payload ≡ from_le_bytes (take 4 rest) =
            sym (ap length same) ∙ size in
          (
            ap₂ ◌++◌ (ap (to_le_bytes 4) measured ∙ exact.0) (sym same) ∙ take-drop 4 rest,
            omega (arith, exact.1),
            named,
          )

      split :
          (ltb (length rest) 4 ≡ true) ⊎ (ltb (length rest) 4 ≡ false)
          → cut (ltb (length rest) 4) ≡ ok (topic, payload)
          → Rebuilt name rest
      split (inl b) h = refused malformed (topic, payload) (sym (ap cut b) ∙ h)
      split (inr b) h = taken (ground (arith, b)) (sym (ap cut b) ∙ h)

  topic_exact :
      (rest : List ℕ)
      → AreBytes rest
      → take_topic is_utf8 (split_first_chunk 2 rest) ≡ ok (topic, payload)
      → (event_frame_tag ∷ rest ≡ written topic payload)
        × (length topic < u16_mod)
        × (length payload < u32_mod)
        × (is_utf8 topic ≡ true)
  unfolding Rebuilt
  topic_exact rest areBytes h = split (Bool-cases (ltb (length rest) 2)) h
    where
      Goal : Type 0
      Goal =
          (event_frame_tag ∷ rest ≡ written topic payload)
          × (length topic < u16_mod)
          × (length payload < u32_mod)
          × (is_utf8 topic ≡ true)

      cut : Bool → Result FrameError (List ℕ × List ℕ)
      cut b =
          take_topic is_utf8
            (if◌then◌else◌ {A = Option (List ℕ × List ℕ)} b none (some (take 2 rest, drop 2 rest)))

      n : ℕ
      n = from_le_bytes (take 2 rest)

      name : List ℕ
      name = take n (drop 2 rest)

      taken : 2 ≤ length rest → cut false ≡ ok (topic, payload) → Goal
      taken long h =
          let enough =
            refused_first (ltb (length (drop 2 rest)) n)
              (if is_utf8 name
                then take_payload name (split_first_chunk 4 (drop n (drop 2 rest)))
                else err topic_not_utf8)
              malformed topic payload h in
          let valid =
            guarded (is_utf8 name) (take_payload name (split_first_chunk 4 (drop n (drop 2 rest))))
              topic_not_utf8 topic payload enough.1 in
          let body =
            payload_exact name (drop n (drop 2 rest))
              (AreBytes-drop n (drop 2 rest) (AreBytes-drop 2 rest areBytes)) valid.1 in
          let exact = word_exact 2 rest areBytes long in
          let room : n ≤ length (drop 2 rest) = ground (arith, enough.0) in
          let size : length name ≡ n = omega (arith, length-take n (drop 2 rest), room) in
          let measured : length topic ≡ n = sym (ap length body.2) ∙ size in
          (
            ap (◌∷◌ event_frame_tag) (
                sym (
                  ap₂ ◌++◌ (ap (to_le_bytes 2) measured ∙ exact.0)
                    (ap₂ ◌++◌ (sym body.2) body.0 ∙ take-drop n (drop 2 rest))
                  ∙ take-drop 2 rest)),
            omega (arith, exact.1),
            body.1,
            sym (ap is_utf8 body.2) ∙ valid.0,
          )

      split :
          (ltb (length rest) 2 ≡ true) ⊎ (ltb (length rest) 2 ≡ false)
          → cut (ltb (length rest) 2) ≡ ok (topic, payload)
          → Goal
      split (inl b) h = refused malformed (topic, payload) (sym (ap cut b) ∙ h)
      split (inr b) h = taken (ground (arith, b)) (sym (ap cut b) ∙ h)

-- The decoder accepts only what the encoder writes: a frame of bytes that decodes to a topic and a
-- payload is the frame that encodes them, and the topic is UTF-8.
pub encode_event-decode_event :
    (is_utf8 : List ℕ → Bool) (topic payload frame : List ℕ)
    → AreBytes frame
    → decode_event is_utf8 frame ≡ ok (topic, payload)
    → (encode_event topic payload ≡ ok frame) × (is_utf8 topic ≡ true)
unfolding encode_event decode_event
encode_event-decode_event is_utf8 topic payload [] areBytes h = cc
encode_event-decode_event is_utf8 topic payload (tag ∷ rest) (one, areBytes) h =
    split (Bool-cases (tag == event_frame_tag)) h
  where
    Goal : Type 0
    Goal = (encode_event topic payload ≡ ok (tag ∷ rest)) × (is_utf8 topic ≡ true)

    cut : Bool → Result FrameError (List ℕ × List ℕ)
    cut b = after_tag is_utf8 (if◌then◌else◌ {A = Option (List ℕ)} b (some rest) none)

    split :
        (tag == event_frame_tag ≡ true) ⊎ (tag == event_frame_tag ≡ false)
        → cut (tag == event_frame_tag) ≡ ok (topic, payload)
        → Goal
    split (inl b) h =
        let parts = topic_exact is_utf8 topic payload rest areBytes (sym (ap cut b) ∙ h) in
        (
          rw (lt→ltb (length topic) u16_mod parts.1, lt→ltb (length payload) u32_mod parts.2)
              (ap ok (sym (ap (λ t. t ∷ rest) ((==_iff tag event_frame_tag).0 b) ∙ parts.0))),
          parts.3,
        )
    split (inr b) h = refused not_an_event (topic, payload) (sym (ap cut b) ∙ h)
