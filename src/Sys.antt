-- ===== src/Sys.antt =====
-- io-uring-sys: the kernel interface's types and the code that fills submission entries.
pub mod Setup
pub mod Calls
pub mod Operation
pub mod Priority
pub mod Entry
pub mod Flags
pub mod Fill
mod Tests
