-- ===== src/Lib.antt =====
-- Orbitive: shared state and bounded communication between processes on one machine, through
-- shared memory. The repository is a workspace of crates; this library models the logic of five
-- of them.
--
-- Parts and files:
-- * lock (lock/src): named leases. Lock/Types.antt has the keys, leases, transitions, errors and
--   deadlines of lib.rs and error.rs. Lock/Table.antt is state.rs: a table of 2^k slots with open
--   addressing, where Slot.antt is the layout of one entry, Probe.antt the probe sequence,
--   find_slot and the scan of acquire, and Ops.antt every operation of LockStateStore. An
--   operation takes the table and returns an answer with the table, also when it fails, since a
--   failed one leaves what it has done. Lock/Fence.antt is fence.rs, the check on the resource's
--   side, and Lock/Fencing.antt joins the two. Lock/Protocol.antt is protocol.rs, the payload of a
--   transition on the event ring, and Lock/Handle.antt has the methods of Lock in lib.rs.
-- * quota (quota/src): bounded admission. Quota/Contract.antt is contract.rs, Quota/Gcra.antt is
--   gcra.rs, the cell rate algorithm on times in nanoseconds times units, Quota/Retention.antt is
--   retention.rs, the choice of a slot to reuse, and Quota/Gate.antt is the word that guards a
--   slot in memory.rs. Quota/Gcra/Serve.antt composes the algorithm's steps for a run of requests
--   on one key, the way the store's admit does. Quota/Memory.antt is the rest of memory.rs: a
--   slot and its key, with Build.antt the construction of a store, Words.antt the loops of
--   exchanges and consume, Window.antt the two walks of admit, and Admit.antt install, admit and
--   the requests of the trait QuotaStore. Its other files are proofs.
-- * ring (core/src/ring): Ring/Lane.antt is mod.rs, the bounded ring of frames in one process's
--   memory, and Ring/Cursor.antt is cursor.rs, the walk of a reader over any ring.
-- * cache (cache/src): a bounded local cache that follows a ring of mutations. Cache/Revision.antt
--   and Cache/Protocol.antt are protocol.rs, the order of the revisions and the payload of a
--   mutation, Cache/Local.antt is local.rs, and Cache/Local/Events.antt has what happens to the
--   cache of one store as a sequence of steps.
-- * link (link/src): Link/Frame.antt is frame.rs, the events that a link carries between two fleets.
-- A lock publishes each transition on a ring before it writes its table, and readers follow the
-- ring with a cursor; a resource checks the lease's token against its fence.
--
-- How the code is modelled:
-- * Words are natural numbers with the wrap, the saturation or the check of their width written
--   out. Byte strings are lists of numbers, and those that are compared or decoded as bytes carry
--   that hypothesis where it matters.
-- * A table is changed under its mutex, so each operation on it is one step. Publishing an event
--   is a parameter of the operations, which may refuse any transition.
-- * The gate of a quota slot is changed by several threads: Quota/Gate/Exclusion.antt has a step
--   for each of their atomic actions, in any order. The loop of pin is recursion on its budget,
--   with the ends of its weak exchanges as a parameter.
-- * A quota store is a function of a world: the clock's readings, and how each weak exchange ends
--   by the number of attempts left. One that is refused is refused spuriously or because the other
--   threads have changed the shard, by a function that the world gives. These are the points at
--   which they act; a slot between two exchanges is loaded as it stands. The loops are recursion
--   on the attempts left, and the rounds of consume on one more than those. Panics are not
--   modelled, so a writer is never dropped dirty. Memory.antt keeps a shard's slots as a function
--   of their index.
-- * A ring is to its reader a head and an answer for each counter. A walk asks for the head once
--   and for each counter at most once, so that a function stands for any interleaving with
--   writers. On a shared lane Ring/Lane/Sharing.antt has a step for each claim and each fill of
--   its writers, in any order. The walk's rounds are the counters up to the head, which is where
--   its loop ends.
-- * Capacities of lock tables are powers of two up to 2^64, as the code asserts of them.
--
-- Parameters for code of other crates: NetId.antt has the packed ids of netid64, of which the
-- code uses that the parts of an id can be read back. The buffers of the bytes crate stand for
-- their contents. Cache/Lru.antt has the operations of LruCache in the lru crate with their
-- documented behaviour, over which the local cache is defined. A read of the arena is a function
-- from addresses to bodies.
--
-- Not modelled: the mapping of shared memory, robust mutexes, readiness and clocks, which are
-- system calls; the registry that shares in-memory tables between handles; the fleet and its
-- lanes; the ring in shared memory; the quota store in shared memory; the registry, the transport
-- and the observer of the cache; the slab of the arena; and the crates auth, cell, cli,
-- client-pool, counter, events, invoke, link but for its events, metrics, pool, rustls and
-- stream.
pub mod Prelude
pub mod NetId
pub mod Quota
pub mod Lock
pub mod Ring
pub mod Cache
pub mod Link
