-- ===== src/SfMap.antt =====
-- dot_examples/c/ids/lookup.h: a map from 64-bit keys to 32-bit ids, by open addressing in one
-- table that never grows.
pub mod Defs
pub mod Probe
pub mod Invariant
pub mod Laws
pub mod Results
pub mod Fresh
mod Tests
