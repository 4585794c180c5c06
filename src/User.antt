-- ===== src/User.antt =====
-- The user programs and their library.
pub mod Grep
pub mod Number
pub mod Cal
