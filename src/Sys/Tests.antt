-- ===== src/Sys/Tests.antt =====
-- The theorems about io-uring-sys at concrete inputs, and tests.
use rust_io_uring.Prelude.{ℕ, ◌%◌, ◌^◌, ◌≡◌, ◌↔◌, refl, arith, some, negsuc}
use rust_io_uring.Sys.Operation.{readv, decode_operation}
use rust_io_uring.Sys.Priority.{realtime, level0, level3, level_try_from, try_from, encode}
use rust_io_uring.Sys.Priority.Codes.{encode-try_from_iff, data_bits}
use rust_io_uring.Sys.Entry.{SubmissionEntry, zeroed}
use rust_io_uring.Sys.Flags.ReadWriteFlags
use rust_io_uring.Sys.Fill.{fixed, fill_readv}
use rust_io_uring.Sys.Fill.Command.{Command, apply, entry_target}
use rust_io_uring.Sys.Fill.Overwrite.{apply_overwrites}
use rust_io_uring.Sys.Fill.Readback.{apply_reads_back}

-- A stray bit between the level and the class goes unnoticed.
abbrev stray : ℕ
stray = 0x2103

try_from-stray : try_from stray ≡ some (realtime level3)
unfolding try_from level_try_from
try_from-stray = refl

encode-try_from_iff_example :
    (encode (realtime level3) ≡ stray) ↔ (stray % 2 ^ 13 ≡ data_bits (realtime level3))
encode-try_from_iff_example = encode-try_from_iff stray (realtime level3) try_from-stray

supported_bits : ReadWriteFlags.supported ≡ 31
supported_bits = refl

-- A read on the registered file with the largest index.
abbrev last_fixed : Command
last_fixed =
    Command.readv (realtime level0) (fixed 0xffff_ffff) 4096 0 (record { ptr = 0x1000; len = 1 })

abbrev used : SubmissionEntry
used = record zeroed { opcode = 9; flags = 255; user_data = 77 }

apply_overwrites_example :
    (apply last_fixed used ≡ apply last_fixed (record zeroed { user_data = 77 }))
    × ((apply last_fixed used).user_data ≡ used.user_data)
    × ((apply last_fixed used).extra.padding ≡ used.extra.padding)
apply_overwrites_example =
    apply_overwrites last_fixed used (record zeroed { user_data = 77 }) refl refl

apply_reads_back_example :
    (decode_operation (apply last_fixed used).opcode ≡ some readv)
    × (try_from (apply last_fixed used).ioprio ≡ some (realtime level0))
    × (entry_target (apply last_fixed used) ≡ fixed 0xffff_ffff)
apply_reads_back_example = apply_reads_back last_fixed used (omega arith)

stored_as_negative : (apply last_fixed used).fd ≡ negsuc 0
unfolding fill_readv
stored_as_negative = refl
