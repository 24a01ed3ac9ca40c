-- ===== src/Sys/Setup/RegisterOpCode.antt =====
-- `RegisterOpCode` of io-uring-sys/src/lib.rs: operations of `io_uring_register`.
use rust_io_uring.Prelude.{ℕ}

abbrev pub register_buffers : ℕ
register_buffers = 0

abbrev pub unregister_buffers : ℕ
unregister_buffers = 1

abbrev pub register_files : ℕ
register_files = 2

abbrev pub unregister_files : ℕ
unregister_files = 3
