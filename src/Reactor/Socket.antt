-- ===== src/Reactor/Socket.antt =====
-- tokio-uring-reactor/src/io.rs, net.rs and lib.rs: reads and writes of sockets, their two halves, and
-- listeners that do not block. A socket is what it is to libc, a descriptor.
use rust_io_uring.Prelude.{ℕ, ℤ, Option, none, some, Outcome, bit_and, bit_or, ◌==◌, if◌then◌else◌}
use rust_io_uring.Sys.Fill.{Slice}
use rust_io_uring.Reactor.Transfer.{Context, State}
use rust_io_uring.Reactor.Handle.{Handle, Memory, async_read, async_write}

-- `SplitRead` and `SplitWrite`: two owners of one socket.
pub record SplitRead (S : Type 0) : Type 0 where
  pub socket : S

pub record SplitWrite (S : Type 0) : Type 0 where
  pub socket : S

unfoldable pub split : {S : Type 0} → S → SplitRead S × SplitWrite S
split rw = (record { socket = rw }, record { socket = rw })

abbrev pub read_fd : {S : Type 0} → (S → ℤ) → SplitRead S → ℤ
read_fd as_raw_fd half = as_raw_fd half.socket

abbrev pub write_fd : {S : Type 0} → (S → ℤ) → SplitWrite S → ℤ
write_fd as_raw_fd half = as_raw_fd half.socket

module _ {T S : Type 0} (as_raw_fd : S → ℤ) (bytes : T → Slice) where
  -- `SocketRead::read` and `SocketWrite::write`: at offset 0.
  unfoldable pub read :
      S → Handle → ℕ → ℕ → T → Memory (Context T S) → Outcome (Memory (Context T S) × State T S)
  read socket h address vec buf m = async_read as_raw_fd bytes h address vec socket 0 buf m

  unfoldable pub write :
      S → Handle → ℕ → ℕ → T → Memory (Context T S) → Outcome (Memory (Context T S) × State T S)
  write socket h address vec buf m = async_write as_raw_fd bytes h address vec socket 0 buf m

-- `set_non_block`: what it sets the file's flags to, if it does. `flags` are the 32 bits that fcntl(2)
-- gives, which are all 1 for an error, and `nonblock` is libc's `O_NONBLOCK`.
unfoldable pub set_non_block : ℕ → ℕ → Option ℕ
set_non_block nonblock flags =
    if bit_and flags nonblock == 0 then some (bit_or flags nonblock) else none
