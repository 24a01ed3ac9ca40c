-- ===== src/Uring/File.antt =====
-- `UringFile` of io-uring/src/lib.rs: the calls on an open ring. The kernel's answers and the error
-- number that it leaves are parameters; a pointer is an address.
use rust_io_uring.Prelude.{
  ℕ, ◌-◌, ◌^◌, ◌%◌, ℤ, pos, negsuc, Option, none, some, Result, ok, err, Outcome, returned,
  panicked, leb, ◌==◌, if◌then◌else◌,
}
use rust_io_uring.Sys.Fill.{Slice}
use rust_io_uring.Sys.Setup.RegisterOpCode

module _ (io_uring_enter : ℕ → ℕ → ℕ → ℕ → ℕ → ℤ) (errno : ℕ) where
  -- `UringFile::enter`
  unfoldable pub enter : ℕ → ℕ → ℕ → ℕ → Option ℕ → Result ℕ (Unit {0})
  enter fd to_submit min_complete flags sig =
      let address : ℕ = elim sig [ some a ↦ a | none ↦ 0 ] in
      elim (io_uring_enter fd to_submit min_complete flags address) [
        | pos n ↦ ok tt
        | negsuc n ↦ err errno
      ]

module _ (io_uring_register : ℕ → ℕ → ℕ → ℕ → ℤ) (errno : ℕ) where
  -- `UringFile::register`: anything but 0 is an error.
  unfoldable pub register : ℕ → ℕ → ℕ → ℕ → Result ℕ (Unit {0})
  register fd opcode arg nr_args = elim (io_uring_register fd opcode arg nr_args) [
    | pos n ↦ if n == 0 then ok tt else err errno
    | negsuc n ↦ err errno
  ]

  unfoldable pub register_buffers : ℕ → Slice → Result ℕ (Unit {0})
  register_buffers fd buffers =
      register fd RegisterOpCode.register_buffers buffers.ptr (buffers.len % 2 ^ 32)

  unfoldable pub unregister_buffers : ℕ → Result ℕ (Unit {0})
  unregister_buffers fd = register fd RegisterOpCode.unregister_buffers 0 0

  unfoldable pub register_files : ℕ → Slice → Outcome (Result ℕ (Unit {0}))
  register_files fd fds =
      if leb fds.len (2 ^ 32 - 1)
      then returned (register fd RegisterOpCode.register_files fds.ptr (fds.len % 2 ^ 32))
      else panicked

  unfoldable pub unregister_files : ℕ → Result ℕ (Unit {0})
  unregister_files fd = register fd RegisterOpCode.unregister_files 0 0
