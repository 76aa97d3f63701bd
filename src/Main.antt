-- ===== src/Main.antt =====
-- src/main.c: new threads, the wait for the next stop of a tracee, and the loop over its calls.
pub mod Threads
pub mod Runs
pub mod Sharing
pub mod Wait
pub mod Loop
pub mod End
pub mod Visits
pub mod Output
pub mod Results
pub mod Together
pub mod Pool
pub mod Command
