-- ===== src/Ring/Setup/Submissions.antt =====
-- `SubmissionQueue::new` on a fresh ring.
use rust_io_uring.Prelude.{
  ℕ, ◌^◌, ◌<◌, ◌≡◌, ◌≢◌, refl, ap, arith, List, [], length, u32_mod, returned, panicked,
  wrapping_sub,
}
use rust_io_uring.Sys.Entry.{SubmissionEntry}
use rust_io_uring.Ring.Submission.{SubmissionQueue, entry_at, pending}
use rust_io_uring.Ring.Submission.Valid.{IsValid}
use rust_io_uring.Ring.Window.{window}
use rust_io_uring.Ring.Setup.{Mapped, init_array, new_submission}
use rust_io_uring.Ring.Setup.Fresh.{
  IsFresh, sizes_agree-IsFresh, sizes_agree-other, get_or-init_array,
}

nothing : (q : SubmissionQueue) → q.local_tail ≡ q.k_head → q.k_head < u32_mod → pending q ≡ []
unfolding pending window
nothing q e lt =
    ap (window (entry_at q) q.k_head) {x = wrapping_sub q.local_tail q.k_head} {y = 0}
      (omega (arith, e, lt))

-- `SubmissionQueue::new` on a fresh ring of the size that was asked for returns a queue that is
-- valid, whatever the index array held before, and in which nothing waits. With another size than
-- the kernel's it panics.
pub new_submission_lem :
    {k : ℕ} (m : Mapped SubmissionEntry) (array : List ℕ) (n : ℕ)
    → IsFresh k m
    → length array ≡ 2 ^ k
    → n ≢ 2 ^ k
    → ((q : SubmissionQueue) × (new_submission (2 ^ k) m array ≡ returned q)
        × IsValid k q
        × (pending q ≡ []))
      × (new_submission n m array ≡ panicked)
unfolding new_submission
new_submission_lem {k = k} m array n f len other =
    let q : SubmissionQueue = record {
      k_head = m.head;
      cached_head = m.head;
      k_tail = m.tail;
      local_tail = m.tail;
      ring_mask = m.ring_mask;
      k_flags = m.flags;
      k_dropped = m.lost;
      k_array = init_array m.ring_entries array;
      sces = m.entries;
    } in
    (
      (
        q,
        rw (sizes_agree-IsFresh m f) refl,
        record {
          small = f.small;
          mask = f.mask;
          slots = f.slots;
          identity = λ i lt.
              get_or-init_array m.ring_entries array i (omega (arith, f.size))
                (omega (arith, f.size));
          k_head_word = f.head_word;
          cached_head_word = f.head_word;
          k_tail_word = omega (arith, f.head_word, f.empty);
          local_tail_word = omega (arith, f.head_word, f.empty);
          bounded = omega (arith, f.head_word, f.empty);
          stale = omega arith;
          published = omega (arith, f.head_word, f.empty);
        },
        nothing q f.empty f.head_word,
      ),
      rw (sizes_agree-other m n f other) refl,
    )
