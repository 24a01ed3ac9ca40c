-- ===== src/Sys/Fill/Readback.antt =====
-- What the kernel reads back from a filled entry.
use rust_io_uring.Prelude.{
  ℕ, ℤ, ap, ◌∙◌, ◌<◌, ◌≡◌, arith, some, u32_mod, as_u32, as_i32, as_u32-as_i32,
}
use rust_io_uring.Sys.Operation.{decode_operation, raw_operation}
use rust_io_uring.Sys.Operation.Codes.{decode-raw_operation}
use rust_io_uring.Sys.Priority.{try_from, encode}
use rust_io_uring.Sys.Priority.Codes.{try_from-encode}
use rust_io_uring.Sys.Entry.{SubmissionEntry}
use rust_io_uring.Sys.Fill.{
  FileDescriptor, fd, fixed, fill_readv, fill_writev, fill_read_fixed, fill_write_fixed, fill_fsync,
  fill_fsync_full, fill_poll_add, fill_poll_remove,
}
use rust_io_uring.Sys.Fill.Command.{
  Command, readv, apply, operation, target, priority, entry_target,
}

abbrev IsU32 : FileDescriptor → Type 0
IsU32 (fd _) = Unit
IsU32 (fixed ndx) = ndx < u32_mod

-- How a file is stored: the flags byte and the `fd` field.
abbrev stored_flags : FileDescriptor → ℕ
stored_flags (fd _) = 0
stored_flags (fixed _) = 1

abbrev stored_fd : FileDescriptor → ℤ
stored_fd (fd n) = n
stored_fd (fixed ndx) = as_i32 ndx

-- The fields that `apply` stores, before decoding.
record Stored (c : Command) (e : SubmissionEntry) : Type 0 where
  opcode : e.opcode ≡ raw_operation (operation c)
  ioprio : e.ioprio ≡ encode (priority c)
  flags : e.flags ≡ stored_flags (target c)
  file : e.fd ≡ stored_fd (target c)

apply-Stored : (c : Command) (e : SubmissionEntry) → Stored c (apply c e)
unfolding fill_readv fill_writev fill_read_fixed fill_write_fixed fill_fsync fill_fsync_full
    fill_poll_add fill_poll_remove encode
apply-Stored (readv prio (fd n) offset flags vecs) e = ground arith
apply-Stored _ e = ground arith

Stored-target :
    (f : FileDescriptor) (e : SubmissionEntry)
    → e.flags ≡ stored_flags f
    → e.fd ≡ stored_fd f
    → IsU32 f
    → entry_target e ≡ f
Stored-target (fd n) e p q h = rw p (ap fd q)
Stored-target (fixed n) e p q h = rw p (ap fixed (ap as_u32 q ∙ as_u32-as_i32 n h))

-- A filled entry reads back as it was asked for: its opcode as the operation, its priority as the
-- priority, and its descriptor and flags as the file, also a registered index that does not fit a
-- positive `i32`. A registered index is a `u32`.
pub apply_reads_back :
    (c : Command) (e : SubmissionEntry)
    → IsU32 (target c)
    → (decode_operation (apply c e).opcode ≡ some (operation c))
      × (try_from (apply c e).ioprio ≡ some (priority c))
      × (entry_target (apply c e) ≡ target c)
apply_reads_back c e h = (
  ap decode_operation opcode ∙ decode-raw_operation (operation c),
  ap try_from ioprio ∙ try_from-encode (priority c),
  Stored-target (target c) (apply c e) flags file h,
)
  where
    open (apply-Stored c e) use {opcode, ioprio, flags, file}
