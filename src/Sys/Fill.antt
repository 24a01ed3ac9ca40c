-- ===== src/Sys/Fill.antt =====
-- The methods of `SubmissionEntry` in io-uring-sys/src/submission.rs that fill an entry in place.
-- A method on `&mut self` takes the entry and returns the new one; a raw slice is its address and
-- length.
pub mod Command
pub mod Overwrite
pub mod Readback
use rust_io_uring.Prelude.{ℕ, ℤ, pos, ◌%◌, ◌^◌, bit_or, as_i32}
use rust_io_uring.Sys.Operation.{
  Operation, raw_operation, readv, writev, fsync, read_fixed, write_fixed, poll_add, poll_remove,
}
use rust_io_uring.Sys.Priority.{IoPriority, encode}
use rust_io_uring.Sys.Flags.SubmissionEntryFlags
use rust_io_uring.Sys.Entry.{SubmissionEntry, OperationFlags, ExtraData}

-- `*const [T]`
pub record Slice : Type 0 where
  pub ptr : ℕ
  pub len : ℕ

pub data FileDescriptor : Type 0 where
  fd : ℤ → FileDescriptor
  fixed : ℕ → FileDescriptor

-- The `match fd` that each method repeats.
pub set_fd : FileDescriptor → SubmissionEntry → SubmissionEntry
set_fd (fd n) e = record e { fd = n }
set_fd (fixed ndx) e = record e {
  flags = bit_or e.flags SubmissionEntryFlags.fixed_file;
  fd = as_i32 ndx;
}

-- `self.extra.fixed.buf_index = n`
abbrev pub set_buf_index : ℕ → ExtraData → ExtraData
set_buf_index n x = record x { buf_index = n }

pub iov :
    Operation → IoPriority → FileDescriptor → ℕ → ℕ → Slice → SubmissionEntry → SubmissionEntry
unfolding set_fd
iov op prio file offset flags vecs e =
    let e1 : SubmissionEntry =
      set_fd file (record e { opcode = raw_operation op; flags = 0; ioprio = encode prio }) in
    record e1 {
      off = offset;
      addr = vecs.ptr;
      len = vecs.len % 2 ^ 32;
      op_flags = OperationFlags.rw_flags flags;
      extra = set_buf_index 0 e1.extra;
    }

-- `readv` and `writev` of the source
unfoldable pub fill_readv :
    IoPriority → FileDescriptor → ℕ → ℕ → Slice → SubmissionEntry → SubmissionEntry
unfolding iov
fill_readv prio file offset flags vecs e = iov readv prio file offset flags vecs e

unfoldable pub fill_writev :
    IoPriority → FileDescriptor → ℕ → ℕ → Slice → SubmissionEntry → SubmissionEntry
unfolding iov
fill_writev prio file offset flags vecs e = iov writev prio file offset flags vecs e

pub io_fixed :
    Operation → IoPriority → FileDescriptor → ℕ → ℕ → ℕ → Slice → SubmissionEntry → SubmissionEntry
unfolding set_fd
io_fixed op prio file offset flags buf_index buf e =
    let e1 : SubmissionEntry =
      set_fd file (record e { opcode = raw_operation op; flags = 0; ioprio = encode prio }) in
    record e1 {
      off = offset;
      addr = buf.ptr;
      len = buf.len % 2 ^ 32;
      op_flags = OperationFlags.rw_flags flags;
      extra = set_buf_index buf_index e1.extra;
    }

unfoldable pub fill_read_fixed :
    IoPriority → FileDescriptor → ℕ → ℕ → ℕ → Slice → SubmissionEntry → SubmissionEntry
unfolding io_fixed
fill_read_fixed prio file offset flags buf_index buf e =
    io_fixed read_fixed prio file offset flags buf_index buf e

unfoldable pub fill_write_fixed :
    IoPriority → FileDescriptor → ℕ → ℕ → ℕ → Slice → SubmissionEntry → SubmissionEntry
unfolding io_fixed
fill_write_fixed prio file offset flags buf_index buf e =
    io_fixed write_fixed prio file offset flags buf_index buf e

unfoldable pub fill_fsync : FileDescriptor → ℕ → ℕ → ℕ → SubmissionEntry → SubmissionEntry
unfolding set_fd
fill_fsync file flags offset len e =
    let e1 : SubmissionEntry =
      set_fd file (record e { opcode = raw_operation fsync; flags = 0; ioprio = 0 }) in
    record e1 {
      off = offset;
      addr = 0;
      len = len;
      op_flags = OperationFlags.fsync_flags flags;
      extra = set_buf_index 0 e1.extra;
    }

unfoldable pub fill_fsync_full : FileDescriptor → ℕ → SubmissionEntry → SubmissionEntry
unfolding fill_fsync
fill_fsync_full file flags e = fill_fsync file flags 0 0 e

unfoldable pub fill_poll_add : FileDescriptor → ℕ → SubmissionEntry → SubmissionEntry
unfolding set_fd
fill_poll_add file flags e =
    let e1 : SubmissionEntry =
      set_fd file (record e { opcode = raw_operation poll_add; flags = 0; ioprio = 0 }) in
    record e1 {
      off = 0;
      addr = 0;
      len = 0;
      op_flags = OperationFlags.poll_events flags;
      extra = set_buf_index 0 e1.extra;
    }

unfoldable pub fill_poll_remove : ℕ → SubmissionEntry → SubmissionEntry
fill_poll_remove match_user_data e = record e {
  opcode = raw_operation poll_remove;
  flags = 0;
  ioprio = 0;
  fd = pos 0;
  off = 0;
  addr = match_user_data;
  len = 0;
  op_flags = OperationFlags.raw 0;
  extra = set_buf_index 0 e.extra;
}
