-- ===== src/Timer.antt =====
-- tscb/timer.h: the timer dispatcher.
pub mod Table
pub mod Queue
pub mod Dispatcher
