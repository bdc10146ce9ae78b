-- ===== src/Workqueue.antt =====
-- tscb/workqueue.cc: deferred procedures, triggered from threads and from signal handlers.
pub mod List
pub mod Queue
mod Tests
