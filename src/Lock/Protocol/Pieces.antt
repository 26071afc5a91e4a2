-- ===== src/Lock/Protocol/Pieces.antt =====
-- A well formed payload is the encoder's header followed by its three names.
use orbitive.Prelude.{
  ℕ, zero, suc, ◌+◌, ◌%◌, ◌^◌, ◌<◌, ◌≤◌, ◌≡◌, refl, sym, ap, ap₂, ◌∙◌, List, [], ◌∷◌, ◌++◌, length,
  take, drop, get_or, length-take, length-drop, take-drop, u16_mod, arith,
}
use orbitive.Prelude.Bytes.{
  to_le_bytes, AreBytes, to_le_bytes-from_le_bytes, AreBytes-take, AreBytes-drop,
  from_le_bytes_bound,
}
use orbitive.Prelude.Bytes.{slice}
use orbitive.Lock.Protocol.{magic, version, event_header_len, header}
use orbitive.Prelude.Bytes.{word}

drop_nil : (n : ℕ) → drop {A = ℕ} n [] ≡ []
drop_nil zero = refl
drop_nil (suc n) = refl

take_past : (n : ℕ) (xs : List ℕ) → length xs ≤ n → take n xs ≡ xs
take_past zero [] h = refl
take_past zero (x ∷ xs) h = absurd (omega arith)
take_past (suc n) [] h = refl
take_past (suc n) (x ∷ xs) h = ap (◌∷◌ x) (take_past n xs (omega arith))

drop-drop : (m n : ℕ) (xs : List ℕ) → drop n (drop m xs) ≡ drop (m + n) xs
drop-drop zero n xs = ap (λ k. drop k xs) (omega arith)
drop-drop (suc m) n [] = drop_nil n ∙ sym (drop_nil (suc m + n))
drop-drop (suc m) n (x ∷ xs) = drop-drop m n xs ∙ ap (λ k. drop k (x ∷ xs)) shift
  where
    shift : suc (m + n) ≡ suc m + n
    shift = omega arith

module _ (p : List ℕ) (bytes : AreBytes p) where
  pub length-slice : (start size : ℕ) → start + size ≤ length p → length (slice start size p) ≡ size
  length-slice start size h = omega (arith, length-take size (drop start p), length-drop start p)

  slice-AreBytes : (start size : ℕ) → AreBytes (slice start size p)
  slice-AreBytes start size = AreBytes-take size (drop start p) (AreBytes-drop start p bytes)

  -- A piece of the payload, and the rest.
  piece : (start size : ℕ) → drop start p ≡ slice start size p ++ drop (start + size) p
  piece start size =
      sym (take-drop size (drop start p))
      ∙ ap (λ r. slice start size p ++ r) (drop-drop start size p)

  -- The bytes of a word are the bytes of the payload.
  to_le_bytes-word :
      (start size : ℕ)
      → start + size ≤ length p
      → to_le_bytes size (word p start size) ≡ slice start size p
  to_le_bytes-word start size h =
      ap (λ n. to_le_bytes n (word p start size)) (sym (length-slice start size h))
      ∙ to_le_bytes-from_le_bytes (slice start size p) (slice-AreBytes start size)

  pub word_bound : (start : ℕ) → start + 2 ≤ length p → word p start 2 < u16_mod
  word_bound start h =
      let b = from_le_bytes_bound (slice start 2 p) (slice-AreBytes start 2) in
      let e = ap (λ n. 256 ^ n) (length-slice start 2 h) in omega arith

  version-word : (v : ℕ) → 5 ≤ length p → get_or p 4 0 ≡ v → slice 4 1 p ≡ v ∷ []
  version-word v h e = single p h e
    where
      single : (xs : List ℕ) → 5 ≤ length xs → get_or xs 4 0 ≡ v → slice 4 1 xs ≡ v ∷ []
      single (a ∷ b ∷ c ∷ d ∷ x ∷ xs) h e = ap (λ y. y ∷ []) e
      single (a ∷ b ∷ c ∷ d ∷ []) h e = absurd (omega arith)
      single (a ∷ b ∷ c ∷ []) h e = absurd (omega arith)
      single (a ∷ b ∷ []) h e = absurd (omega arith)
      single (a ∷ []) h e = absurd (omega arith)
      single [] h e = absurd (omega arith)

  chunk :
      (start size : ℕ)
      → start + size ≤ length p
      → drop start p ≡ to_le_bytes size (word p start size) ++ drop (start + size) p
  chunk start size h =
      piece start size ∙ ap (λ b. b ++ drop (start + size) p) (sym (to_le_bytes-word start size h))

  abbrev nl : ℕ
  nl = word p 5 2

  abbrev kl : ℕ
  kl = word p 7 2

  abbrev ol : ℕ
  ol = word p 9 2

  module _ (h : event_header_len + nl + kl + ol ≡ length p) where
    names :
        drop event_header_len p
        ≡ slice event_header_len nl p
          ++ (slice (event_header_len + nl) kl p ++ slice (event_header_len + nl + kl) ol p)
    names =
        let past = length-drop (event_header_len + nl + kl) p in
        piece event_header_len nl
        ∙ ap (λ r. slice event_header_len nl p ++ r)
            (piece (event_header_len + nl) kl
              ∙ ap (λ r. slice (event_header_len + nl) kl p ++ r)
                  (sym (take_past ol (drop (event_header_len + nl + kl) p) (omega arith))))

    module _ (signed : word p 0 4 ≡ magic) (versioned : get_or p 4 0 ≡ version) where
      words :
          p
          ≡ to_le_bytes 4 magic
            ++ ((version ∷ [])
                ++ (to_le_bytes 2 nl
                    ++ (to_le_bytes 2 kl
                        ++ (to_le_bytes 2 ol
                            ++ (to_le_bytes 8 (word p 11 8)
                                ++ (to_le_bytes 8 (word p 19 8)
                                    ++ (to_le_bytes 8 (word p 27 8)
                                        ++ drop event_header_len p)))))))
      words =
          chunk 0 4 (omega arith)
          ∙ ap₂ (λ w r. to_le_bytes 4 w ++ r) signed
              (piece 4 1
                ∙ ap₂ (λ a r. a ++ r) (version-word version (omega arith) versioned)
                    (chunk 5 2 (omega arith)
                      ∙ ap (λ r. to_le_bytes 2 nl ++ r)
                          (chunk 7 2 (omega arith)
                            ∙ ap (λ r. to_le_bytes 2 kl ++ r)
                                (chunk 9 2 (omega arith)
                                  ∙ ap (λ r. to_le_bytes 2 ol ++ r)
                                      (chunk 11 8 (omega arith)
                                        ∙ ap (λ r. to_le_bytes 8 (word p 11 8) ++ r)
                                            (chunk 19 8 (omega arith)
                                              ∙ ap (λ r. to_le_bytes 8 (word p 19 8) ++ r)
                                                  (chunk 27 8 (omega arith))))))))

      abbrev ns : List ℕ
      ns = slice event_header_len nl p

      abbrev lb : List ℕ
      lb = slice (event_header_len + nl) kl p

      abbrev ow : List ℕ
      ow = slice (event_header_len + nl + kl) ol p

      abbrev front : ℕ → ℕ → ℕ → List ℕ → List ℕ
      front n l o r =
          to_le_bytes 4 magic
          ++ ((version ∷ [])
              ++ (to_le_bytes 2 n
                  ++ (to_le_bytes 2 l
                      ++ (to_le_bytes 2 o
                          ++ (to_le_bytes 8 (word p 11 8)
                              ++ (to_le_bytes 8 (word p 19 8)
                                  ++ (to_le_bytes 8 (word p 27 8) ++ r)))))))

      same_length :
          (start size : ℕ)
          → start + size ≤ length p
          → size < u16_mod
          → length (slice start size p) % u16_mod ≡ size
      same_length start size le b = let e = length-slice start size le in omega arith

      pub whole :
          header (length ns) (length lb) (length ow) (word p 11 8) (word p 19 8) (word p 27 8)
            ++ (ns ++ (lb ++ ow))
          ≡ p
      whole =
          let n = same_length event_header_len nl (omega arith) (word_bound 5 (omega arith)) in
          let l =
            same_length (event_header_len + nl) kl (omega arith) (word_bound 7 (omega arith)) in
          let o =
            same_length (event_header_len + nl + kl) ol (omega arith)
              (word_bound 9 (omega arith)) in
          ap (λ x. front x (length lb % u16_mod) (length ow % u16_mod) (ns ++ (lb ++ ow))) n
          ∙ ap (λ x. front nl x (length ow % u16_mod) (ns ++ (lb ++ ow))) l
          ∙ ap (λ x. front nl kl x (ns ++ (lb ++ ow))) o
          ∙ ap (front nl kl ol) (sym names)
          ∙ sym words
