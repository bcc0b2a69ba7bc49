-- ===== src/Snowflake.antt =====
-- The snowflake ids: dot_examples/c/ids/sf.h, and of dot_config/nvim/skeletons the earlier
-- snowflake.h, the locked snowflake_mtx.h/mutex.h and the lock-free snowflake_atomic.h.
pub mod Core
pub mod Locked
pub mod Atomic
mod Tests
