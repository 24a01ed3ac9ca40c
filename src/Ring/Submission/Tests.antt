-- ===== src/Ring/Submission/Tests.antt =====
-- The theorems about the submission ring at concrete rings whose positions go round at 2 ^ 32.
use rust_io_uring.Prelude.{
  ℕ, zero, suc, ◌^◌, ◌<◌, ◌≡◌, ◌≢◌, refl, arith, true, false, [], ◌∷◌, ◌++◌, some, none, ok, err,
  pos, get_or,
}
use rust_io_uring.Sys.Entry.{zeroed}
use rust_io_uring.Sys.Fill.{fd, fill_poll_add}
use rust_io_uring.Ring.Slots.{same_entry}
use rust_io_uring.Ring.Window.{window}
use rust_io_uring.Ring.Submission.{
  SubmissionQueue, queue_full, Filler, is_full, flush_tail, submit_with, bulk_submit_with,
  pending_submissions, pending, visible, fill_slot, entry_at,
}
use rust_io_uring.Ring.Submission.Valid.{IsValid}
use rust_io_uring.Ring.Submission.Submit.{submit_bounded, submit_with_refines}
use rust_io_uring.Ring.Submission.Pending.{bulk_submit_with_publishes, pending_submissions_lem}
use rust_io_uring.Ring.Submission.Bulk.{bulk_submit_all, submit_each, bulk_submit_all-submit_each}
use rust_io_uring.Ring.Submission.Kernel.{
  System, submit, flush, take, taken, gained, Reach, start, later, submission_fifo,
}

abbrev last : ℕ
last = 0xffff_ffff

-- An empty ring of two slots, about to go round.
abbrev pub idle_ring : SubmissionQueue
idle_ring = record {
  k_head = last;
  cached_head = last;
  k_tail = last;
  local_tail = last;
  ring_mask = 1;
  k_flags = 0;
  k_dropped = 0;
  k_array = 0 ∷ 1 ∷ [];
  sces = zeroed ∷ zeroed ∷ [];
}

two_identity : (i : ℕ) → i < 2 → get_or (0 ∷ 1 ∷ []) i 0 ≡ i
two_identity zero h = refl
two_identity (suc zero) h = refl
two_identity (suc (suc i)) h = absurd (omega arith)

pub idle_ring-IsValid : IsValid 1 idle_ring
idle_ring-IsValid = record {
  small = omega arith;
  mask = refl;
  slots = refl;
  identity = two_identity;
  k_head_word = omega arith;
  cached_head_word = omega arith;
  k_tail_word = omega arith;
  local_tail_word = omega arith;
  bounded = omega arith;
  stale = omega arith;
  published = omega arith;
}

-- Two entries wait, and the tail has gone round.
abbrev round_ring : SubmissionQueue
round_ring = record idle_ring { local_tail = 1 }

round_ring-IsValid : IsValid 1 round_ring
round_ring-IsValid = record {
  small = omega arith;
  mask = refl;
  slots = refl;
  identity = two_identity;
  k_head_word = omega arith;
  cached_head_word = omega arith;
  k_tail_word = omega arith;
  local_tail_word = omega arith;
  bounded = omega arith;
  stale = omega arith;
  published = omega arith;
}

abbrev poll_five : Filler (Unit {0})
poll_five e = (record (fill_poll_add (fd (pos 5)) 1 e) { user_data = 1 }, ok tt)

abbrev count_one : Filler ℕ
count_one e = (record e { user_data = 1 }, ok tt)

abbrev refuse : Filler ℕ
refuse e = (record e { len = 3 }, err 7)

full_refused : (submit_with poll_five round_ring).1 ≡ err queue_full
unfolding submit_with is_full same_entry
full_refused = refl

submit_with_refines_example :
    ((pending (submit_with refuse idle_ring).0, (submit_with refuse idle_ring).1)
      ≡ submit_bounded (2 ^ 1) refuse (pending idle_ring))
    × IsValid 1 (submit_with refuse idle_ring).0
    × (visible (submit_with refuse idle_ring).0 ≡ visible idle_ring)
submit_with_refines_example = submit_with_refines refuse idle_ring idle_ring-IsValid

bulk_submit_with_publishes_example :
    ((pending (bulk_submit_with poll_five idle_ring).0, (bulk_submit_with poll_five idle_ring).1)
      ≡ submit_bounded (2 ^ 1) poll_five (pending idle_ring))
    × IsValid 1 (bulk_submit_with poll_five idle_ring).0
    × (visible (bulk_submit_with poll_five idle_ring).0
        ≡ pending (bulk_submit_with poll_five idle_ring).0)
bulk_submit_with_publishes_example =
    bulk_submit_with_publishes poll_five idle_ring idle_ring-IsValid

pending_submissions_lem_example :
    ((pending_submissions true round_ring).1 ≡ none)
    × IsValid 1 (pending_submissions true round_ring).0
    × (pending (pending_submissions true round_ring).0 ≡ pending round_ring)
    × (visible (pending_submissions true round_ring).0 ≡ visible round_ring)
pending_submissions_lem_example = pending_submissions_lem round_ring round_ring-IsValid true

wraps_unchecked : (pending_submissions false round_ring).1 ≡ some 2
unfolding pending_submissions
wraps_unchecked = refl

-- One entry submitted, published and taken.
abbrev submitted : System
submitted = record {
  queue = (submit_with poll_five idle_ring).0;
  accepted = [] ++ gained (poll_five zeroed).0 (submit_with poll_five idle_ring).1;
  consumed = [];
}

abbrev published : System
published = record submitted { queue = flush_tail submitted.queue }

published-moved : published.queue.k_head ≢ published.queue.k_tail
unfolding flush_tail submit_with is_full fill_slot same_entry
published-moved = omega arith

abbrev finished : System
finished = record {
  queue = taken published.queue;
  accepted = published.accepted;
  consumed = published.consumed ++ entry_at published.queue published.queue.k_head ∷ [];
}

finished-Reach : Reach (Unit {0}) idle_ring finished
finished-Reach = later (later (later start (submit poll_five)) flush) (take published-moved)

idle_ring-empty : pending idle_ring ≡ []
unfolding pending window
idle_ring-empty = refl

submission_fifo_example :
    (finished.consumed ++ pending finished.queue ≡ finished.accepted) × IsValid 1 finished.queue
submission_fifo_example = submission_fifo idle_ring-IsValid idle_ring-empty finished-Reach

-- A full ring and a closure that fails among the calls.
bulk_submit_all-submit_each_example :
    bulk_submit_all (count_one ∷ refuse ∷ count_one ∷ count_one ∷ []) idle_ring
    ≡ submit_each (count_one ∷ refuse ∷ count_one ∷ count_one ∷ []) idle_ring
bulk_submit_all-submit_each_example =
    bulk_submit_all-submit_each (count_one ∷ refuse ∷ count_one ∷ count_one ∷ []) idle_ring refl
