-- ===== src/Sys/Operation.antt =====
-- `Operation` and `RawOperation` of io-uring-sys/src/lib.rs: opcodes as enum and as byte.
pub mod Codes
use rust_io_uring.Prelude.{ℕ, Option, none, some, ◌==◌, if◌then◌else◌}

pub data Operation : Type 0 where
  nop readv writev fsync read_fixed write_fixed poll_add poll_remove : Operation

-- `From<Operation> for RawOperation`: the discriminant as a byte.
unfoldable pub raw_operation : Operation → ℕ
raw_operation nop = 0
raw_operation readv = 1
raw_operation writev = 2
raw_operation fsync = 3
raw_operation read_fixed = 4
raw_operation write_fixed = 5
raw_operation poll_add = 6
raw_operation poll_remove = 7

-- `RawOperation::decode`
unfoldable pub decode_operation : ℕ → Option Operation
decode_operation raw =
    if raw == 0
    then some nop
    else if raw == 1
    then some readv
    else if raw == 2
    then some writev
    else if raw == 3
    then some fsync
    else if raw == 4
    then some read_fixed
    else if raw == 5
    then some write_fixed
    else if raw == 6
    then some poll_add
    else if raw == 7
    then some poll_remove
    else none
