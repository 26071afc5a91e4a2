-- ===== src/Link.antt =====
-- link: byte links between two fleets. `Frame` is the one frame that the link sends on its own.
pub mod Frame
pub mod Tests
