-- ===== src/Lock.antt =====
-- tscb/detail/deferred-locks.h and deferred-locks.cc: the deferred reader-writer locks.
pub mod Deferred
