-- ===== src/Ring.antt =====
-- core/src/ring: the bounded ring of frames. `Lane` is the ring in one process's memory. `Cursor` is the walk of a reader over it.
pub mod Frame
pub mod Cursor
pub mod Lane
pub mod Tests
