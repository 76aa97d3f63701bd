-- ===== src/SyscallHandler.antt =====
-- src/syscall_handler.c.
pub mod Stop
pub mod Sys
pub mod ReadString
pub mod Files
pub mod Descriptors
pub mod Unconsidered
pub mod Dispatch
pub mod Considered
pub mod Effects
pub mod Returns
pub mod Others
pub mod Saves
pub mod OtherSaves
pub mod Round
