-- ===== src/Lock/Table.antt =====
-- lock/src/state.rs: the fixed table of current leases, an open-addressing hash table in which a
-- lapsed or released entry leaves a tombstone. `Slot` is one entry, `Probe` the walk along a key's
-- probe sequence, `Ops` the operations; the other modules prove what these do.
pub mod Slot
pub mod Probe
pub mod Ops
pub mod Sequence
pub mod Invariant
pub mod Find
pub mod View
pub mod Arms
pub mod Walk
pub mod Scanning
pub mod Sound
pub mod Lookup
pub mod Writing
pub mod Install
pub mod Acquire
pub mod Answers
pub mod Renew
pub mod Release
pub mod Holders
pub mod Start
