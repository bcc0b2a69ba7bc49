-- ===== src/Spsc.antt =====
-- dot_config/nvim/skeletons/spsc.c/spsc.c: a ring of bytes between one producer and one consumer.
pub mod Defs
pub mod Invariant
pub mod Order
pub mod Fifo
mod Tests
