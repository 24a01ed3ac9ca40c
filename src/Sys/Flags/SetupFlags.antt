-- ===== src/Sys/Flags/SetupFlags.antt =====
-- `SetupFlags` of io-uring-sys/src/lib.rs: flags of `io_uring_setup`.
use rust_io_uring.Prelude.{ℕ, ◌-◌, ◌^◌}

abbrev pub iopoll : ℕ
iopoll = 1

abbrev pub sqpoll : ℕ
sqpoll = 2

abbrev pub sq_aff : ℕ
sq_aff = 4

abbrev pub all : ℕ
all = 2 ^ 32 - 1
