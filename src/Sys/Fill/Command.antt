-- ===== src/Sys/Fill/Command.antt =====
-- One value for each call of a filling method: which method, with which arguments.
use rust_io_uring.Prelude.{ℕ, pos, as_u32, if◌then◌else◌, ◌==◌, bit_and}
use rust_io_uring.Sys.Operation.{Operation}
use rust_io_uring.Sys.Priority.{IoPriority, unset}
use rust_io_uring.Sys.Flags.SubmissionEntryFlags
use rust_io_uring.Sys.Entry.{SubmissionEntry}
use rust_io_uring.Sys.Fill.{
  Slice, FileDescriptor, fd, fixed, fill_readv, fill_writev, fill_read_fixed, fill_write_fixed,
  fill_fsync, fill_fsync_full, fill_poll_add, fill_poll_remove,
}

pub data Command : Type 0 where
  readv : IoPriority → FileDescriptor → ℕ → ℕ → Slice → Command
  writev : IoPriority → FileDescriptor → ℕ → ℕ → Slice → Command
  read_fixed : IoPriority → FileDescriptor → ℕ → ℕ → ℕ → Slice → Command
  write_fixed : IoPriority → FileDescriptor → ℕ → ℕ → ℕ → Slice → Command
  fsync : FileDescriptor → ℕ → ℕ → ℕ → Command
  fsync_full : FileDescriptor → ℕ → Command
  poll_add : FileDescriptor → ℕ → Command
  poll_remove : ℕ → Command

-- The call itself.
abbrev pub apply : Command → SubmissionEntry → SubmissionEntry
apply (readv prio file offset flags vecs) = fill_readv prio file offset flags vecs
apply (writev prio file offset flags vecs) = fill_writev prio file offset flags vecs
apply (read_fixed prio file offset flags i buf) = fill_read_fixed prio file offset flags i buf
apply (write_fixed prio file offset flags i buf) = fill_write_fixed prio file offset flags i buf
apply (fsync file flags offset len) = fill_fsync file flags offset len
apply (fsync_full file flags) = fill_fsync_full file flags
apply (poll_add file flags) = fill_poll_add file flags
apply (poll_remove target) = fill_poll_remove target

-- What the caller asked for.
abbrev pub operation : Command → Operation
operation (readv _ _ _ _ _) = Operation.readv
operation (writev _ _ _ _ _) = Operation.writev
operation (read_fixed _ _ _ _ _ _) = Operation.read_fixed
operation (write_fixed _ _ _ _ _ _) = Operation.write_fixed
operation (fsync _ _ _ _) = Operation.fsync
operation (fsync_full _ _) = Operation.fsync
operation (poll_add _ _) = Operation.poll_add
operation (poll_remove _) = Operation.poll_remove

-- `poll_remove` acts on no file, and leaves descriptor 0 in the entry.
abbrev pub target : Command → FileDescriptor
target (readv _ file _ _ _) = file
target (writev _ file _ _ _) = file
target (read_fixed _ file _ _ _ _) = file
target (write_fixed _ file _ _ _ _) = file
target (fsync file _ _ _) = file
target (fsync_full file _) = file
target (poll_add file _) = file
target (poll_remove _) = fd (pos 0)

abbrev pub priority : Command → IoPriority
priority (readv prio _ _ _ _) = prio
priority (writev prio _ _ _ _) = prio
priority (read_fixed prio _ _ _ _ _) = prio
priority (write_fixed prio _ _ _ _ _) = prio
priority (fsync _ _ _ _) = unset
priority (fsync_full _ _) = unset
priority (poll_add _ _) = unset
priority (poll_remove _) = unset

-- How the documentation of `IOSQE_FIXED_FILE` says that an entry names its file.
abbrev pub entry_target : SubmissionEntry → FileDescriptor
entry_target e =
    if bit_and e.flags SubmissionEntryFlags.fixed_file == 0 then fd e.fd else fixed (as_u32 e.fd)
