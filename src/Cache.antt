-- ===== src/Cache.antt =====
-- arvel.cache: the lock table of the array driver, the repository over its client, and what the
-- client has to provide.
pub mod Locks
pub mod Value
pub mod Client
pub mod Repository
