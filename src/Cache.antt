-- ===== src/Cache.antt =====
-- cache: a bounded local cache that follows a ring of mutations. `Revision` is the order of the
-- mutations, `Protocol` their codec, `Lru` what the code relies on of the lru crate, `Local` the state of one process.
pub mod Revision
pub mod Lru
pub mod Protocol
pub mod Local
pub mod Tests
