-- ===== src/Sys/Flags/EnterFlags.antt =====
-- `EnterFlags` of io-uring-sys/src/lib.rs: flags of `io_uring_enter`.
use rust_io_uring.Prelude.{ℕ, ◌-◌, ◌^◌}

abbrev pub getevents : ℕ
getevents = 1

abbrev pub sq_wakeup : ℕ
sq_wakeup = 2

abbrev pub all : ℕ
all = 2 ^ 32 - 1
