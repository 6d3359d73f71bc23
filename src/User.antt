-- ===== src/User.antt =====
-- The packages user and user/session: accounts, their passwords and the administrators.
pub mod Accounts
pub mod Login
