-- ===== src/Auth.antt =====
-- src/arvel/auth: the authorization gate and the login throttle.
pub mod Gate
pub mod Throttle
