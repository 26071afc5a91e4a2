-- ===== src/Quota.antt =====
-- quota: bounded admission control. `Contract` is the public vocabulary, `Gcra` the algorithm,
-- `Retention` the choice of a slot to reuse, `Gate` the word that guards a slot's identity, and
-- `Memory` the store of one process.
pub mod Contract
pub mod Gcra
pub mod Retention
pub mod Gate
pub mod Memory
pub mod Tests
