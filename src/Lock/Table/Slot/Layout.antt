-- ===== src/Lock/Table/Slot/Layout.antt =====
-- A lease written to a slot is the lease read from it.
use orbitive.Prelude.{
  ℕ, ◌+◌, ◌%◌, ◌<◌, ◌≡◌, refl, sym, ap, ◌∙◌, true, List, ◌++◌, length, take, drop, replicate,
  length-append, take-length_append, drop-length_append, drop-append, ap₂, bytes_eq_self, u16_mod,
  arith,
}
use mathlib.Core.List.{append_assoc}
use native.Mathlib.Nat.{mod-eq_of_lt}
use orbitive.Lock.Types.{LockLease}
use orbitive.Lock.Table.Slot.{
  LockStateSlot, occupied, copy_at, namespace_bytes, key_bytes, owner_bytes, matches, lease, write,
}
use orbitive.Prelude.Bytes.{slice}

copy_at-append :
    (p src rest : List ℕ)
    → copy_at (length p) src (p ++ rest) ≡ p ++ (src ++ drop (length src) rest)
copy_at-append p src rest = rw (take-length_append p rest, drop-append p rest (length src))

slice-append : (p src rest : List ℕ) → slice (length p) (length src) (p ++ (src ++ rest)) ≡ src
slice-append p src rest = rw (drop-length_append p (src ++ rest)) (take-length_append src rest)

-- The three copies lay the fields side by side; what is left of the zeros follows.
abbrev laid : List ℕ → List ℕ → List ℕ → List ℕ → List ℕ
laid a b c zeros = (a ++ b) ++ (c ++ drop (length c) (drop (length b) (drop (length a) zeros)))

copies :
    (a b c zeros : List ℕ)
    → copy_at (length a + length b) c (copy_at (length a) b (copy_at 0 a zeros)) ≡ laid a b c zeros
copies a b c zeros =
    ap (λ n. copy_at (length a + length b) c (copy_at (length a) b (a ++ drop n zeros)))
      (omega arith)
    ∙ ap (copy_at (length a + length b) c) (copy_at-append a b (drop (length a) zeros))
    ∙ ap₂ (λ n x. copy_at n c x) (sym (length-append a b))
        (sym (append_assoc a b (drop (length b) (drop (length a) zeros))))
    ∙ copy_at-append (a ++ b) c (drop (length b) (drop (length a) zeros))

module _ (a b c zeros : List ℕ) where
  slice-first : slice 0 (length a) (laid a b c zeros) ≡ a
  slice-first = ap (take (length a)) (append_assoc a b _) ∙ take-length_append a _

  slice-second : slice (length a) (length b) (laid a b c zeros) ≡ b
  slice-second = ap (slice (length a) (length b)) (append_assoc a b _) ∙ slice-append a b _

  slice-third : slice (length a + length b) (length c) (laid a b c zeros) ≡ c
  slice-third =
      ap (λ n. slice n (length c) (laid a b c zeros)) (sym (length-append a b))
      ∙ slice-append (a ++ b) c _

-- Lengths that `validate_entry` lets through survive the cast to u16.
abbrev pub Fits : LockLease → Type 0
Fits l =
    (length l.key.namespace < u16_mod) × (length l.key.label < u16_mod) × (length l.owner < u16_mod)

module _ (s : LockStateSlot) (hash : ℕ) (l : LockLease) (f : Fits l) where
  open l.key use {namespace, label}

  abbrev zeros : List ℕ
  zeros = replicate (length s.payload) 0

  namespace_bytes-write : namespace_bytes (write s hash l) ≡ l.key.namespace
  unfolding write namespace_bytes
  namespace_bytes-write =
      ap₂ (slice 0) (mod-eq_of_lt f.0) (copies namespace label l.owner zeros)
      ∙ slice-first namespace label l.owner zeros

  key_bytes-write : key_bytes (write s hash l) ≡ l.key.label
  unfolding write key_bytes
  key_bytes-write =
      ap₂ (λ n x. slice n (length label % u16_mod) x) (mod-eq_of_lt f.0)
        (copies namespace label l.owner zeros)
      ∙ ap (λ n. slice (length namespace) n (laid namespace label l.owner zeros)) (mod-eq_of_lt f.1)
      ∙ slice-second namespace label l.owner zeros

  owner_bytes-write : owner_bytes (write s hash l) ≡ l.owner
  unfolding write owner_bytes
  owner_bytes-write =
      ap₂ (λ n x. slice n (length l.owner % u16_mod) x) lengths
        (copies namespace label l.owner zeros)
      ∙ ap (λ n. slice (length namespace + length label) n (laid namespace label l.owner zeros))
          (mod-eq_of_lt f.2)
      ∙ slice-third namespace label l.owner zeros
    where
      lengths :
          length namespace % u16_mod + length label % u16_mod ≡ length namespace + length label
      lengths = omega (arith, f)

-- The plain fields of a written slot.
pub write-fields :
    (s : LockStateSlot) (hash : ℕ) (l : LockLease)
    → ((write s hash l).state ≡ occupied)
      × ((write s hash l).key_hash ≡ hash)
      × ((write s hash l).lock_id ≡ l.lock_id)
      × ((write s hash l).state_revision ≡ l.state_revision)
      × ((write s hash l).acquired_at_ms ≡ l.acquired_at_ms)
      × ((write s hash l).expires_at_ms ≡ l.expires_at_ms)
unfolding write
write-fields s hash l = (refl, refl, refl, refl, refl, refl)

-- What is written to a slot is read back field by field, whatever the slot held before, and the
-- slot then matches its key.
pub lease-write :
    (s : LockStateSlot) (hash : ℕ) (l : LockLease)
    → Fits l
    → (lease (write s hash l) ≡ l) × (matches (write s hash l) hash l.key ≡ true)
unfolding lease matches
lease-write s hash l f =
    let e = namespace_bytes-write s hash l f in
    let e' = key_bytes-write s hash l f in
    let e'' = owner_bytes-write s hash l f in
    let w = write-fields s hash l in
    (
      ground (arith, e, e', e'', w),
      ground (arith, e, e', w, bytes_eq_self l.key.namespace, bytes_eq_self l.key.label),
    )
