-- ===== src/Decimal.antt =====
-- dot_config/nvim/skeletons: intfuncs.c, int_conv.c and parse.c, decimal texts of numbers.
pub mod Print
pub mod Text
pub mod Printed
pub mod Turned
pub mod Parse
pub mod RoundTrip
pub mod Permissive
pub mod Endless
mod Tests
