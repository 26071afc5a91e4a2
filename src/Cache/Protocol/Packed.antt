-- ===== src/Cache/Protocol/Packed.antt =====
-- The fields of a packed mutation, read back.
use orbitive.Prelude.{
  ℕ, ◌+◌, ◌%◌, ◌<◌, ◌≡◌, refl, ap, ◌∙◌, true, List, [], ◌∷◌, ◌++◌, length, take, length-append,
  take-length_append, drop-append, drop-length_append, u16_mod, u64_mod, u32_mod, arith,
}
use native.Mathlib.Nat.{mod-eq_of_lt}
use orbitive.Prelude.Bytes.{slice, word, from_le_bytes-to_le_bytes}
use orbitive.Cache.Protocol.{
  min_mutation_header_len, packed_mutation, decode_with_slot_limit, decode_mutation,
  mutation_header, well_formed_mutation,
}

take_all : (xs : List ℕ) → take (length xs) xs ≡ xs
take_all [] = refl
take_all (x ∷ xs) = ap (◌∷◌ x) (take_all xs)

module _ (store key : List ℕ) (expires slot generation value_len : ℕ) (hs : length store < u16_mod)
    (hk : length key < u16_mod) (he : expires < u64_mod) (hl : slot < u32_mod)
    (hg : generation < u64_mod) (hv : value_len < u64_mod) where
  abbrev bytes : List ℕ
  bytes = packed_mutation expires slot generation value_len store key

  word-store : word bytes 1 2 ≡ length store
  word-store = from_le_bytes-to_le_bytes 2 (length store % u16_mod) (omega arith) ∙ mod-eq_of_lt hs

  word-key : word bytes 3 2 ≡ length key
  word-key = from_le_bytes-to_le_bytes 2 (length key % u16_mod) (omega arith) ∙ mod-eq_of_lt hk

  word-expires : word bytes 5 8 ≡ expires
  word-expires = from_le_bytes-to_le_bytes 8 expires he

  word-slot : word bytes 13 4 ≡ slot
  word-slot = from_le_bytes-to_le_bytes 4 slot hl

  word-generation : word bytes 17 8 ≡ generation
  word-generation = from_le_bytes-to_le_bytes 8 generation hg

  word-value_len : word bytes 25 8 ≡ value_len
  word-value_len = from_le_bytes-to_le_bytes 8 value_len hv

  slice-store : slice min_mutation_header_len (length store) bytes ≡ store
  slice-store = take-length_append store key

  slice-key : slice (min_mutation_header_len + length store) (length key) bytes ≡ key
  slice-key =
      ap (take (length key)) (
        drop-append (mutation_header (length store) (length key) expires slot generation value_len)
          (store ++ key) (length store)
        ∙ drop-length_append store key)
      ∙ take_all key

  length-bytes : length bytes ≡ min_mutation_header_len + length store + length key
  length-bytes = let inner = length-append store key in omega arith

  well_formed_mutation-packed_mutation :
      (id kind ver : ℕ)
      → well_formed_mutation (record { id = id; kind = kind; ver = ver; payload = bytes }) ≡ true
  unfolding well_formed_mutation
  well_formed_mutation-packed_mutation id kind ver =
      ground (arith, word-store, word-key, length-bytes)

  pub decode-packed_mutation :
      (slots id kind ver : ℕ)
      → decode_with_slot_limit slots (record { id = id; kind = kind; ver = ver; payload = bytes })
        ≡ decode_mutation slots kind
            (record { sequence = ver; mutation_id = id })
            (length store)
            (length key)
            store
            key
            expires
            slot
            generation
            value_len
  unfolding decode_with_slot_limit
  decode-packed_mutation slots id kind ver =
      rw
        (
          well_formed_mutation-packed_mutation id kind ver,
          word-store,
          word-key,
          word-expires,
          word-slot,
          word-generation,
          word-value_len,
          slice-store,
          slice-key,
        )
        refl
