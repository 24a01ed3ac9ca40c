-- ===== src/Ring.antt =====
-- io-uring: the two rings that a process shares with the kernel, and the file they belong to.
pub mod Slots
pub mod Window
pub mod Submission
pub mod Completion
pub mod Setup
