-- ===== src/Cache/Revision.antt =====
-- cache/src/protocol.rs: the revisions of mutations and their order, and the decoded mutations.
use orbitive.Prelude.{
  ℕ, ◌<◌, ◌≤◌, ◌≡◌, Bool, true, false, ◌&&◌, ◌||◌, List, Option, arith, ltb, leb, ◌==◌,
}

-- `mutation_id` is the raw word of the id, which is all that the order looks at.
pub record CacheRevision : Type 0 where
  pub sequence : ℕ
  pub mutation_id : ℕ

-- `self.cmp(other)` is not `Greater`: by the sequence, then by the id.
unfoldable pub older : CacheRevision → CacheRevision → Bool
older a b =
    ltb a.sequence b.sequence || (a.sequence == b.sequence && leb a.mutation_id b.mutation_id)

-- `orbit_arena::Address`, and `PayloadRef`.
pub record Address : Type 0 where
  pub slot : ℕ
  pub generation : ℕ

pub record PayloadRef : Type 0 where
  pub address : Address
  pub value_len : ℕ

-- `CacheMutation`
pub data CacheMutation : Type 0 where
  put :
      (store key : List ℕ) (revision : CacheRevision) (expires_at_ms : Option ℕ)
      (payload : PayloadRef)
      → CacheMutation
  delete : (store key : List ℕ) (revision : CacheRevision) → CacheMutation
  reset : (store : List ℕ) (revision : CacheRevision) → CacheMutation

unfoldable pub revision_of : CacheMutation → CacheRevision
revision_of (put store key revision expires_at_ms payload) = revision
revision_of (delete store key revision) = revision
revision_of (reset store revision) = revision

pub older_self : (a : CacheRevision) → older a a ≡ true
unfolding older
older_self a = ground arith

pub older_trans : (a b c : CacheRevision) → older a b ≡ true → older b c ≡ true → older a c ≡ true
unfolding older
older_trans a b c h k = ground arith

pub older_total : (a b : CacheRevision) → older a b ≡ false → older b a ≡ true
unfolding older
older_total a b h = ground arith

pub older-sequence : (a b : CacheRevision) → older a b ≡ true → a.sequence ≤ b.sequence
unfolding older
older-sequence a b h = ground arith

pub sequence-older : (a b : CacheRevision) → a.sequence < b.sequence → older a b ≡ true
unfolding older
sequence-older a b h = ground arith
