-- ===== src/Tests.antt =====
-- Runs at concrete inputs.
pub mod Data
mod Tables
mod Handlers
mod Threads
mod Owners
mod Output
mod Threaded
pub mod Whole
mod Complete
