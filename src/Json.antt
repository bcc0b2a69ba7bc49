-- ===== src/Json.antt =====
-- dot_config/nvim/skeletons/json.c/json.c: escaping the text of a JSON string. A text is the list
-- of its bytes. A `char` above 127 is negative in C, and takes the branch of the other characters.
pub mod Escape
pub mod Size
pub mod Decode
mod Tests
