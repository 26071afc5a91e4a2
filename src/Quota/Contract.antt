-- ===== src/Quota/Contract.antt =====
-- quota/src/contract.rs: the immutable declarations of a store, and its errors.
use orbitive.Prelude.{
  ℕ, ◌+◌, ◌*◌, ◌/◌, ◌%◌, not, ◌||◌, List, Option, length, ltb, ◌==◌, if◌then◌else◌, Result, ok, err,
}

-- `Error`, without the payload of `Io`.
pub data Error : Type 0 where
  invalid_geometry invalid_period empty_key key_too_large cost_exceeds_burst busy : Error
  capacity_full incompatible_state corrupt_state arithmetic_overflow : Error
  clock_unavailable random_unavailable clock_went_backwards allocation_failed : Error
  unsupported_atomics io : Error

-- std's `Duration`: `subsec` stays below one second.
pub record Duration : Type 0 where
  pub secs : ℕ
  pub subsec : ℕ

abbrev pub nanos_per_sec : ℕ
nanos_per_sec = 1_000_000_000

abbrev pub as_nanos : Duration → ℕ
as_nanos d = d.secs * nanos_per_sec + d.subsec

pub record Geometry : Type 0 where
  pub slots : ℕ
  pub shards : ℕ
  pub key_bytes : ℕ
  pub probes : ℕ

-- `Geometry::new`. The arguments are `NonZeroUsize`.
unfoldable pub new_geometry : ℕ → ℕ → ℕ → ℕ → Result Error Geometry
new_geometry slots shards key_bytes probes =
    if not (slots % shards == 0) || ltb (slots / shards) probes
    then err invalid_geometry
    else ok (record { slots = slots; shards = shards; key_bytes = key_bytes; probes = probes })

pub record Policy : Type 0 where
  pub units : ℕ
  pub period : Duration
  pub burst : ℕ

-- `Policy::new`. `units` and `burst` are `NonZeroU64`.
unfoldable pub new_policy : ℕ → Duration → ℕ → Result Error Policy
new_policy units period burst =
    if as_nanos period == 0
    then err invalid_period
    else ok (record { units = units; period = period; burst = burst })

pub record Key : Type 0 where
  pub namespace : List ℕ
  pub subject : List ℕ

-- `Key::new`
unfoldable pub new_key : List ℕ → List ℕ → Result Error Key
new_key namespace subject =
    if length namespace == 0 || length subject == 0
    then err empty_key
    else ok (record { namespace = namespace; subject = subject })

pub data Decision : Type 0 where
  allowed : Decision
  limited : Duration → Decision

pub record Snapshot : Type 0 where
  pub limit : ℕ
  pub remaining : ℕ

pub record Admission : Type 0 where
  pub decision : Decision
  pub snapshot : Option Snapshot
