-- ===== src/Lock/Protocol.antt =====
-- lock/src/protocol.rs: a lock transition as the payload of a frame on the event ring.
pub mod Roundtrip
pub mod Pieces
pub mod Canonical
use orbitive.Prelude.Bytes.{word}
use orbitive.Prelude.{
  ℕ, ◌+◌, ◌-◌, ◌%◌, ◌<◌, ◌≡◌, Bool, true, false, not, ◌&&◌, ◌||◌, List, [], ◌∷◌, ◌++◌, Option, none,
  some, length, get_or, min, ltb, ◌==◌, if◌then◌else◌, checked_add, saturating_add, u16_mod,
  u64_mod, Result, ok, err, refuse_if, ◌>>◌,
}
use orbitive.Prelude.Bytes.{to_le_bytes, from_le_bytes}
use orbitive.Ring.Frame.{Frame}
use orbitive.Lock.Types.{
  LockKey, LockOwner, LockLease, LockTransition, renewed, released, Error, entry_too_large,
  transition_key, transition_owner, transition_lock_id,
}
use orbitive.Prelude.Bytes.{slice}

pub record LockEvent : Type 0 where
  pub event_id : ℕ
  pub transition : LockTransition

abbrev pub magic : ℕ
magic = 0x4f4c434b

abbrev pub version : ℕ
version = 2

abbrev pub frame_kind_acquired : ℕ
frame_kind_acquired = 1

abbrev pub frame_kind_renewed : ℕ
frame_kind_renewed = 2

abbrev pub frame_kind_released : ℕ
frame_kind_released = 3

abbrev pub event_header_len : ℕ
event_header_len = 4 + 1 + 2 + 2 + 2 + 8 + 8 + 8

-- The frame's kind, and the two times that it carries.
abbrev pub stamps : LockTransition → ℕ × ℕ × ℕ
stamps (LockTransition.acquired l) = (frame_kind_acquired, l.acquired_at_ms, l.expires_at_ms)
stamps (renewed l) = (frame_kind_renewed, l.acquired_at_ms, l.expires_at_ms)
stamps (released i k o r) = (frame_kind_released, 0, 0)

abbrev pub header :
    (namespace_len key_len owner_len lock_id acquired_at_ms expires_at_ms : ℕ) → List ℕ
header namespace_len key_len owner_len lock_id acquired_at_ms expires_at_ms =
    to_le_bytes 4 magic
    ++ (to_le_bytes 1 version
        ++ (to_le_bytes 2 (namespace_len % u16_mod)
            ++ (to_le_bytes 2 (key_len % u16_mod)
                ++ (to_le_bytes 2 (owner_len % u16_mod)
                    ++ (to_le_bytes 8 lock_id
                        ++ (to_le_bytes 8 acquired_at_ms ++ to_le_bytes 8 expires_at_ms))))))

-- `encode` for a layout's payload capacity and the compile-time size of a table's payload.
unfoldable pub encode :
    (payload_capacity payload_max : ℕ) → LockTransition → Result Error (ℕ × List ℕ)
encode payload_capacity payload_max t = do
  let key = transition_key t
  let owner = transition_owner t
  let max_payload = min (payload_capacity - event_header_len) payload_max
  refuse_if
      (ltb max_payload (
        saturating_add u64_mod (saturating_add u64_mod (length key.namespace) (length key.label))
          (length owner)))
      (entry_too_large (length key.namespace) (length key.label) (length owner) max_payload)
  ok (
    (stamps t).0,
    header (length key.namespace) (length key.label) (length owner) (transition_lock_id t)
          (stamps t).1 (stamps t).2
        ++ (key.namespace ++ (key.label ++ owner)),
  )

-- The last `match` of `decode`.
unfoldable pub decode_transition :
    (kind ver lock_id acquired_at_ms expires_at_ms : ℕ)
    → LockKey
    → LockOwner
    → Option LockTransition
decode_transition kind ver lock_id acquired_at_ms expires_at_ms key owner =
    let l : LockLease = record {
      lock_id = lock_id;
      key = key;
      owner = owner;
      acquired_at_ms = acquired_at_ms;
      expires_at_ms = expires_at_ms;
      state_revision = ver;
    } in
    if (kind == frame_kind_acquired || kind == frame_kind_renewed)
      && (ltb 0 acquired_at_ms && ltb acquired_at_ms expires_at_ms)
    then some (if kind == frame_kind_acquired then LockTransition.acquired l else renewed l)
    else if kind == frame_kind_released && (acquired_at_ms == 0 && expires_at_ms == 0)
    then some (released lock_id key owner ver)
    else none

-- The checks on the header and the lengths.
unfoldable pub well_formed : (payload_max : ℕ) → Frame → Bool
well_formed payload_max f =
    not (ltb (length f.payload) event_header_len)
    && (word f.payload 0 4 == magic
        && (get_or f.payload 4 0 == version
            && (not (word f.payload 5 2 == 0)
                && (not (word f.payload 7 2 == 0)
                    && (not (word f.payload 9 2 == 0)
                        && (event_header_len
                                + word f.payload 5 2
                                + word f.payload 7 2
                                + word f.payload 9 2
                              == length f.payload
                            && (not (
                                  ltb payload_max (
                                    saturating_add u64_mod
                                      (saturating_add u64_mod (word f.payload 5 2)
                                        (word f.payload 7 2))
                                      (word f.payload 9 2)))
                                && not (f.ver == 0))))))))

-- `decode`. The checked sums of the lengths never fail: each is of two bytes.
unfoldable pub decode : (payload_max : ℕ) → Frame → Option LockEvent
unfolding well_formed decode_transition
decode payload_max f =
    let namespace_end : ℕ = event_header_len + word f.payload 5 2 in
    let key_end : ℕ = namespace_end + word f.payload 7 2 in
    if well_formed payload_max f
    then elim (decode_transition f.kind f.ver (word f.payload 11 8) (word f.payload 19 8)
        (word f.payload 27 8)
        (record {
          namespace = slice event_header_len (word f.payload 5 2) f.payload;
          label = slice namespace_end (word f.payload 7 2) f.payload;
        })
        (slice key_end (word f.payload 9 2) f.payload)) [
          | none ↦ none
          | some t ↦ some (record { event_id = f.id; transition = t })
        ]
    else none
