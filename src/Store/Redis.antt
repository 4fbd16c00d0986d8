-- ===== src/Store/Redis.antt =====
-- internal/store/redis: the store over Redis.
pub mod Wire
pub mod Conn
pub mod Pool
pub mod Fields
pub mod Jobs
