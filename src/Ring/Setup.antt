-- ===== src/Ring/Setup.antt =====
-- The constructors of io-uring/src/lib.rs, `SubmissionQueue::new` and `CompletionQueue::new`, once the
-- kernel's memory is mapped: what stands there, read through the offsets, is an argument.
pub mod Fresh
pub mod Sizes
pub mod Submissions
pub mod Completions
mod Tests
use rust_io_uring.Prelude.{
  ℕ, zero, suc, ◌-◌, Bool, not, ◌&&◌, List, Outcome, returned, panicked, ◌==◌, if◌then◌else◌,
  bit_and, set,
}
use rust_io_uring.Sys.Entry.{SubmissionEntry, CompletionEntry}
use rust_io_uring.Ring.Submission.{SubmissionQueue}
use rust_io_uring.Ring.Completion.{CompletionQueue}

-- The mapped memory of either ring; a submission ring has flags and its counter of dropped entries,
-- a completion ring its counter of overflows.
pub record Mapped (E : Type 0) : Type 0 where
  pub head : ℕ
  pub tail : ℕ
  pub ring_mask : ℕ
  pub ring_entries : ℕ
  pub flags : ℕ
  pub lost : ℕ
  pub entries : List E

-- `u32::is_power_of_two`
abbrev pub is_power_of_two : ℕ → Bool
is_power_of_two n = not (n == 0) && (bit_and n (n - 1) == 0)

-- The assertions on the sizes.
unfoldable pub sizes_agree : {E : Type 0} → ℕ → Mapped E → Bool
sizes_agree entries m =
    (entries == m.ring_entries)
    && is_power_of_two m.ring_entries
    && (m.ring_mask == m.ring_entries - 1)

-- `for i in 0..n { *k_array.add(i) = i }`: the rounds below `n`.
unfoldable pub init_array : ℕ → List ℕ → List ℕ
init_array zero array = array
init_array (suc i) array = set (init_array i array) i i

unfoldable pub new_submission : ℕ → Mapped SubmissionEntry → List ℕ → Outcome SubmissionQueue
new_submission sq_entries m array =
    if sizes_agree sq_entries m
    then returned (record {
      k_head = m.head;
      cached_head = m.head;
      k_tail = m.tail;
      local_tail = m.tail;
      ring_mask = m.ring_mask;
      k_flags = m.flags;
      k_dropped = m.lost;
      k_array = init_array m.ring_entries array;
      sces = m.entries;
    })
    else panicked

unfoldable pub new_completion : ℕ → Mapped CompletionEntry → Outcome CompletionQueue
new_completion cq_entries m =
    if sizes_agree cq_entries m
    then returned (record {
      k_head = m.head;
      local_head = m.head;
      k_tail = m.tail;
      cached_tail = m.tail;
      ring_mask = m.ring_mask;
      k_overflow = m.lost;
      k_cqes = m.entries;
    })
    else panicked
