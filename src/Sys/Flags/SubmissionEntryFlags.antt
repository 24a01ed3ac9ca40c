-- ===== src/Sys/Flags/SubmissionEntryFlags.antt =====
-- `SubmissionEntryFlags` of io-uring-sys/src/lib.rs: flags of one submission entry.
use rust_io_uring.Prelude.{ℕ, ◌-◌, ◌^◌}

abbrev pub fixed_file : ℕ
fixed_file = 1

abbrev pub all : ℕ
all = 2 ^ 8 - 1
