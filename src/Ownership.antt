-- ===== src/Ownership.antt =====
-- Who owns the tables of file descriptors, their counts and their mutexes: an invariant of src/main.c,
-- src/thread_temporaries.c and src/syscall_handler.c together, under any order of the threads' actions.
pub mod Owners
pub mod Sound
pub mod Owned
pub mod Freed
pub mod Preserved
pub mod Ended
pub mod Actions
pub mod Continues
pub mod Lives
pub mod Late
pub mod Outcomes
pub mod Reach
