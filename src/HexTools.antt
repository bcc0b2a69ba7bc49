-- ===== src/HexTools.antt =====
-- dot_config/tooling/cutils/hex: itoh.c prints a number as hexadecimal bytes, htoi.c reads them.
pub mod Itoh
pub mod Htoi
pub mod Width
pub mod Numbers
pub mod Digits
pub mod RoundTrip
mod Tests
