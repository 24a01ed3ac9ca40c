-- ===== src/Sys/Entry.antt =====
-- `SubmissionEntry` and `CompletionEntry` of io-uring-sys/src/lib.rs, with the types of their
-- fields. `clear` is `SubmissionEntry::clear` of io-uring-sys/src/submission.rs.
use rust_io_uring.Prelude.{ℕ, ℤ, pos}

-- `SubmissionEntryOperationFlags`, a union: the member that was written last, with its value.
pub data OperationFlags : Type 0 where
  raw : ℕ → OperationFlags
  rw_flags : ℕ → OperationFlags
  fsync_flags : ℕ → OperationFlags
  poll_events : ℕ → OperationFlags

-- `SubmissionEntryExtraData`, a union of 24 bytes: the 16 bits of `fixed.buf_index`, and the other
-- 22 bytes as one number.
pub record ExtraData : Type 0 where
  pub buf_index : ℕ
  pub padding : ℕ

pub record SubmissionEntry : Type 0 where
  pub opcode : ℕ
  pub flags : ℕ
  pub ioprio : ℕ
  pub fd : ℤ
  pub off : ℕ
  pub addr : ℕ
  pub len : ℕ
  pub op_flags : OperationFlags
  pub user_data : ℕ
  pub extra : ExtraData

-- `SubmissionEntry::clear` writes zero bytes over the whole entry, whatever was there.
abbrev pub zeroed : SubmissionEntry
zeroed = record {
  opcode = 0;
  flags = 0;
  ioprio = 0;
  fd = pos 0;
  off = 0;
  addr = 0;
  len = 0;
  op_flags = raw 0;
  user_data = 0;
  extra = record { buf_index = 0; padding = 0 };
}

unfoldable pub clear : SubmissionEntry → SubmissionEntry
clear entry = zeroed

pub record CompletionEntry : Type 0 where
  pub user_data : ℕ
  pub res : ℤ
  pub flags : ℕ

abbrev pub default_completion : CompletionEntry
default_completion = record { user_data = 0; res = pos 0; flags = 0 }
