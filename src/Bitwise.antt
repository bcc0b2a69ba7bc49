-- ===== src/Bitwise.antt =====
-- dot_config/nvim/skeletons/bitwise.c/bitwise.c: byte order, leading digits,
-- powers of two, and ints.
pub mod Swap
pub mod Digit
pub mod Pow2
pub mod Signed
mod Tests
