-- ===== src/CuteId.antt =====
-- dot_config/tooling/cutils/cuteid/cuteid.h: uuids as sixteen bytes, their text, and the entity
-- fields that a version 8 uuid carries.
pub mod Uuid
pub mod Words
pub mod Text
pub mod Fields
mod Tests
