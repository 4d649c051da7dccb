-- ===== src/Worker.antt =====
-- core/ec/worker.h and core/ec/worker.cpp: the worker that owns the connection.
pub mod State
pub mod Commands
pub mod Slots
pub mod Invariant
pub mod Histories
pub mod Failures
pub mod Searching
