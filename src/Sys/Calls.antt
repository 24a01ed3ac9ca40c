-- ===== src/Sys/Calls.antt =====
-- io-uring-sys/src/lib.rs: the wrappers of the system calls. `syscall` is libc's, on arguments of the
-- C type long, and `size_of_sigset` the size of its `sigset_t`. A pointer is an address.
use rust_io_uring.Prelude.{ℕ, ◌-◌, ◌%◌, ◌^◌, ℤ, pos, negsuc, List, [], ◌∷◌, ltb, if◌then◌else◌}

abbrev pub sys_io_uring_setup : ℕ
sys_io_uring_setup = 425

abbrev pub sys_io_uring_enter : ℕ
sys_io_uring_enter = 426

abbrev pub sys_io_uring_register : ℕ
sys_io_uring_register = 427

-- The bits of a number in two's complement, and the number of `w` bits.
abbrev pub bits_of : ℕ → ℤ → ℕ
bits_of w (pos n) = n % 2 ^ w
bits_of w (negsuc n) = 2 ^ w - 1 - n % 2 ^ w

abbrev pub signed : ℕ → ℕ → ℤ
signed w n = if ltb n (2 ^ (w - 1)) then pos n else negsuc (2 ^ w - 1 - n)

-- `as c_int` of a `c_long`, and `as c_long` of an address.
unfoldable pub as_c_int : ℤ → ℤ
as_c_int n = signed 32 (bits_of 32 n)

unfoldable pub as_c_long : ℕ → ℤ
as_c_long n = signed 64 (n % 2 ^ 64)

module _ (syscall : ℕ → List ℤ → ℤ) where
  unfoldable pub io_uring_setup : ℕ → ℕ → ℤ
  unfolding as_c_int as_c_long
  io_uring_setup entries params =
      as_c_int (syscall sys_io_uring_setup (pos entries ∷ as_c_long params ∷ []))

  unfoldable pub io_uring_enter : ℕ → ℤ → ℕ → ℕ → ℕ → ℕ → ℤ
  unfolding as_c_int as_c_long
  io_uring_enter size_of_sigset fd to_submit min_complete flags sig = as_c_int (
      syscall sys_io_uring_enter (
        fd
        ∷ pos to_submit
        ∷ pos min_complete
        ∷ pos flags
        ∷ as_c_long sig
        ∷ as_c_long size_of_sigset
        ∷ []))

  unfoldable pub io_uring_register : ℤ → ℕ → ℕ → ℕ → ℤ
  unfolding as_c_int as_c_long
  io_uring_register fd opcode arg nr_args =
      as_c_int (syscall sys_io_uring_register (fd ∷ pos opcode ∷ as_c_long arg ∷ pos nr_args ∷ []))
