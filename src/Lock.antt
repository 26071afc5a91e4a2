-- ===== src/Lock.antt =====
-- lock: named leases with fencing tokens. `Types` is the vocabulary, `Table` the current state of
-- a lock domain, `Fence` the check on the resource's side.
pub mod Types
pub mod Fence
pub mod Table
pub mod Fencing
pub mod Deadline
pub mod Handle
pub mod Protocol
pub mod Tests
