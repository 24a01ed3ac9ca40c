-- ===== src/Sys/Fill/Overwrite.antt =====
-- What a filling method leaves of the entry's old contents.
use rust_io_uring.Prelude.{◌≡◌, arith}
use rust_io_uring.Sys.Entry.{SubmissionEntry}
use rust_io_uring.Sys.Fill.{
  fill_readv, fill_writev, fill_read_fixed, fill_write_fixed, fill_fsync, fill_fsync_full,
  fill_poll_add, fill_poll_remove,
}
use rust_io_uring.Sys.Fill.Command.{Command, readv, apply}

-- Filling overwrites every field of an entry but `user_data` and the 22 unused bytes, which it
-- keeps: entries that agree in those two become equal.
pub apply_overwrites :
    (c : Command) (e e' : SubmissionEntry)
    → e.user_data ≡ e'.user_data
    → e.extra.padding ≡ e'.extra.padding
    → (apply c e ≡ apply c e')
      × ((apply c e).user_data ≡ e.user_data)
      × ((apply c e).extra.padding ≡ e.extra.padding)
unfolding fill_readv fill_writev fill_read_fixed fill_write_fixed fill_fsync fill_fsync_full
    fill_poll_add fill_poll_remove
apply_overwrites (readv prio file offset flags vecs) e e' u p = ground arith
apply_overwrites _ e e' u p = ground arith
