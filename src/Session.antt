-- ===== src/Session.antt =====
-- Signing in, and what a signed-in user may open: the pieces under provena-web/src that decide it.
pub mod Navigation
pub mod Gate
pub mod Sync
pub mod Jar
pub mod Store
