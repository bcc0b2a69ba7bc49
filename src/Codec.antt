-- ===== src/Codec.antt =====
-- dot_config/nvim/skeletons/codec.c/codec.c: the tables, and hex and base64 both ways.
pub mod Tables
pub mod Hex
pub mod Base64
mod Tests
