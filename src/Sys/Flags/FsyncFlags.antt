-- ===== src/Sys/Flags/FsyncFlags.antt =====
-- `FsyncFlags` of io-uring-sys/src/lib.rs: flags of fsync.
use rust_io_uring.Prelude.{ℕ, ◌-◌, ◌^◌}

abbrev pub datasync : ℕ
datasync = 1

abbrev pub all : ℕ
all = 2 ^ 32 - 1
