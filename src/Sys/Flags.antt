-- ===== src/Sys/Flags.antt =====
-- The flag types of io-uring-sys/src/lib.rs that `bitflags!` generates: each is the number of its
-- bits. `all` is the member `_ALL`, which takes in every bit so that truncation keeps them all.
pub mod EnterFlags
pub mod SetupFlags
pub mod SubmissionQueueFlags
pub mod SubmissionEntryFlags
pub mod ReadWriteFlags
pub mod FsyncFlags
