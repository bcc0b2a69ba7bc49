-- ===== src/Scenario.antt =====
-- dot_examples/c/toml/toml.c and scenario.h: the reader of scenario files.
pub mod Text
pub mod Types
pub mod Number
pub mod Values
pub mod Handlers
pub mod Header
pub mod Lines
pub mod File
pub mod Frame
pub mod Valid
mod Tests
