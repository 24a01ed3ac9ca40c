-- ===== src/Sys/Setup.antt =====
-- io-uring-sys/src/lib.rs: what `io_uring_setup` and `io_uring_register` take and give, and the sizes
-- that `static_assert!` fixes. Reserved fields stay 0 and are left out.
pub mod RegisterOpCode
use rust_io_uring.Prelude.{ℕ}

-- `SubmissionQueueRingOffsets` and `CompletionQueueRingOffsets`: where in the mapping of a ring the
-- fields stand, in bytes.
pub record SubmissionQueueRingOffsets : Type 0 where
  pub head : ℕ
  pub tail : ℕ
  pub ring_mask : ℕ
  pub ring_entries : ℕ
  pub flags : ℕ
  pub dropped : ℕ
  pub array : ℕ

pub record CompletionQueueRingOffsets : Type 0 where
  pub head : ℕ
  pub tail : ℕ
  pub ring_mask : ℕ
  pub ring_entries : ℕ
  pub overflow : ℕ
  pub cqes : ℕ

pub record SetupParameters : Type 0 where
  pub sq_entries : ℕ
  pub cq_entries : ℕ
  pub flags : ℕ
  pub sq_thread_cpu : ℕ
  pub sq_thread_idle : ℕ
  pub sq_off : SubmissionQueueRingOffsets
  pub cq_off : CompletionQueueRingOffsets

-- The places of the three mappings of a ring's file.
abbrev pub submission_queue_ring_offset : ℕ
submission_queue_ring_offset = 0

abbrev pub completion_queue_ring_offset : ℕ
completion_queue_ring_offset = 0x8000000

abbrev pub submission_queue_entries_offset : ℕ
submission_queue_entries_offset = 0x10000000

-- `SetupParameters::new`: all but the flags are 0.
unfoldable pub new_parameters : ℕ → SetupParameters
new_parameters flags = record {
  sq_entries = 0;
  cq_entries = 0;
  flags = flags;
  sq_thread_cpu = 0;
  sq_thread_idle = 0;
  sq_off = record {
    head = 0;
    tail = 0;
    ring_mask = 0;
    ring_entries = 0;
    flags = 0;
    dropped = 0;
    array = 0;
  };
  cq_off = record { head = 0; tail = 0; ring_mask = 0; ring_entries = 0; overflow = 0; cqes = 0 };
}

-- `size_of` of the entries and of an index.
abbrev pub size_of_submission_entry : ℕ
size_of_submission_entry = 64

abbrev pub size_of_completion_entry : ℕ
size_of_completion_entry = 16

abbrev pub size_of_u32 : ℕ
size_of_u32 = 4
