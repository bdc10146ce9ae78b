-- ===== src/Handlers.antt =====
-- tscb/detail/fd-handler-table.h and fd-handler-table.cc: the handlers of file descriptors.
pub mod Chain
pub mod Cookie
pub mod Table
mod Tests
