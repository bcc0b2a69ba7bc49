-- ===== src/Circ.antt =====
-- dot_config/nvim/skeletons/circ.h/circ.h: a ring of bytes that holds frames, each a length of two
-- bytes and a message.
pub mod Ring
pub mod Frames
pub mod View
pub mod Reads
pub mod Messages
pub mod Lines
pub mod Store
pub mod Fill
pub mod Feed
pub mod Copy
pub mod Chunks
mod Tests
