-- ===== src/Ring/Setup/Completions.antt =====
-- `CompletionQueue::new` on a fresh ring.
use rust_io_uring.Prelude.{
  ℕ, ◌^◌, ◌<◌, ◌≡◌, ◌≢◌, refl, ap, arith, [], u32_mod, returned, panicked, wrapping_sub,
}
use rust_io_uring.Sys.Entry.{CompletionEntry}
use rust_io_uring.Ring.Completion.Valid.{IsValid}
use rust_io_uring.Ring.Completion.{CompletionQueue, cqe_at, available}
use rust_io_uring.Ring.Window.{window}
use rust_io_uring.Ring.Setup.{Mapped, new_completion}
use rust_io_uring.Ring.Setup.Fresh.{IsFresh, sizes_agree-IsFresh, sizes_agree-other}

nothing :
    (q : CompletionQueue) → q.k_tail ≡ q.local_head → q.local_head < u32_mod → available q ≡ []
unfolding available window
nothing q e lt =
    ap (window (cqe_at q) q.local_head) {x = wrapping_sub q.k_tail q.local_head} {y = 0}
      (omega (arith, e, lt))

-- `CompletionQueue::new` on a fresh ring of the size that was asked for returns a queue that is
-- valid and has nothing to read. With another size than the kernel's it panics.
pub new_completion_lem :
    {k : ℕ} (m : Mapped CompletionEntry) (n : ℕ)
    → IsFresh k m
    → n ≢ 2 ^ k
    → ((q : CompletionQueue) × (new_completion (2 ^ k) m ≡ returned q)
        × IsValid k q
        × (available q ≡ []))
      × (new_completion n m ≡ panicked)
unfolding new_completion
new_completion_lem {k = k} m n f other =
    let q : CompletionQueue = record {
      k_head = m.head;
      local_head = m.head;
      k_tail = m.tail;
      cached_tail = m.tail;
      ring_mask = m.ring_mask;
      k_overflow = m.lost;
      k_cqes = m.entries;
    } in
    (
      (
        q,
        rw (sizes_agree-IsFresh m f) refl,
        record {
          small = f.small;
          mask = f.mask;
          slots = f.slots;
          k_head_word = f.head_word;
          local_head_word = f.head_word;
          k_tail_word = omega (arith, f.head_word, f.empty);
          cached_tail_word = omega (arith, f.head_word, f.empty);
          bounded = omega (arith, f.head_word, f.empty);
          unread = omega arith;
          stale = omega (arith, f.head_word, f.empty);
        },
        nothing q f.empty f.head_word,
      ),
      rw (sizes_agree-other m n f other) refl,
    )
