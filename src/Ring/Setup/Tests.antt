-- ===== src/Ring/Setup/Tests.antt =====
-- The theorems about the constructors at fresh rings of two slots.
use rust_io_uring.Prelude.{◌≡◌, refl, arith, [], ◌∷◌, returned, panicked}
use rust_io_uring.Sys.Entry.{SubmissionEntry, zeroed}
use rust_io_uring.Ring.Submission.{SubmissionQueue, pending}
use rust_io_uring.Ring.Submission
use rust_io_uring.Ring.Setup.{Mapped, new_submission}
use rust_io_uring.Ring.Setup.Fresh.{IsFresh}
use rust_io_uring.Ring.Setup.Submissions.{new_submission_lem}

abbrev submission_memory : Mapped SubmissionEntry
submission_memory = record {
  head = 0;
  tail = 0;
  ring_mask = 1;
  ring_entries = 2;
  flags = 0;
  lost = 0;
  entries = zeroed ∷ zeroed ∷ [];
}

submission_memory-IsFresh : IsFresh 1 submission_memory
submission_memory-IsFresh = record {
  small = omega arith;
  size = refl;
  mask = refl;
  slots = refl;
  head_word = omega arith;
  empty = refl;
}

new_submission_lem_example :
    ((q : SubmissionQueue) × (new_submission 2 submission_memory (7 ∷ 7 ∷ []) ≡ returned q)
      × Submission.Valid.IsValid 1 q
      × (pending q ≡ []))
    × (new_submission 3 submission_memory (7 ∷ 7 ∷ []) ≡ panicked)
new_submission_lem_example =
    new_submission_lem submission_memory (7 ∷ 7 ∷ []) 3 submission_memory-IsFresh refl
      (λ e. omega arith)
