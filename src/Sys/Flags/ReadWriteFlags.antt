-- ===== src/Sys/Flags/ReadWriteFlags.antt =====
-- `ReadWriteFlags` of io-uring-sys/src/lib.rs: flags of reads and writes.
use rust_io_uring.Prelude.{ℕ, ◌-◌, ◌^◌, bit_or}

abbrev pub hipri : ℕ
hipri = 1

abbrev pub dsync : ℕ
dsync = 2

abbrev pub sync : ℕ
sync = 4

abbrev pub nowait : ℕ
nowait = 8

abbrev pub append : ℕ
append = 16

abbrev pub supported : ℕ
supported = bit_or (bit_or (bit_or (bit_or (bit_or 0 hipri) dsync) sync) nowait) append

abbrev pub all : ℕ
all = 2 ^ 32 - 1
