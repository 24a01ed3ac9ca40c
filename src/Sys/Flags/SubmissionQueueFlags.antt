-- ===== src/Sys/Flags/SubmissionQueueFlags.antt =====
-- `SubmissionQueueFlags` of io-uring-sys/src/lib.rs: what the kernel reports in the submission ring.
use rust_io_uring.Prelude.{ℕ, ◌-◌, ◌^◌}

abbrev pub need_wakeup : ℕ
need_wakeup = 1

abbrev pub all : ℕ
all = 2 ^ 32 - 1
