-- ===== src/Ring/Completion/Tests.antt =====
-- The theorems about the completion ring at concrete rings whose positions go round at 2 ^ 32.
use rust_io_uring.Prelude.{ℕ, ◌+◌, ◌*◌, ◌≡◌, refl, arith, [], ◌∷◌, ◌++◌, some, pos}
use rust_io_uring.Sys.Entry.{CompletionEntry, default_completion}
use rust_io_uring.Ring.Window.{window}
use rust_io_uring.Ring.Completion.{
  CompletionQueue, next, is_empty, read_head, flush_head, for_each, available,
}
use rust_io_uring.Ring.Completion.Valid.{IsValid}
use rust_io_uring.Ring.Completion.Drain.{Drained, for_each_drains}
use rust_io_uring.Ring.Completion.Kernel.{
  System, post, read, flush, posted, read_by, Reach, start, later, completion_fifo,
}

abbrev last : ℕ
last = 0xffff_ffff

abbrev cqe : ℕ → CompletionEntry
cqe n = record { user_data = n; res = pos n; flags = 0 }

-- Two unread completions, the second behind the turn; the copy of the tail is old.
abbrev ring : CompletionQueue
ring = record {
  k_head = last;
  local_head = last;
  k_tail = 1;
  cached_tail = last;
  ring_mask = 1;
  k_overflow = 0;
  k_cqes = cqe 8 ∷ cqe 7 ∷ [];
}

ring-IsValid : IsValid 1 ring
ring-IsValid = record {
  small = omega arith;
  mask = refl;
  slots = refl;
  k_head_word = omega arith;
  local_head_word = omega arith;
  k_tail_word = omega arith;
  cached_tail_word = omega arith;
  bounded = omega arith;
  unread = omega arith;
  stale = omega arith;
}

available-ring : available ring ≡ cqe 7 ∷ cqe 8 ∷ []
unfolding available window
available-ring = refl

add_data : CompletionEntry → ℕ → ℕ
add_data c n = 10 * n + c.user_data

for_each_drains_example : Drained add_data 1 (available ring) 0 (for_each 3 add_data ring 0)
unfolding available window
for_each_drains_example = for_each_drains add_data 3 ring 0 ring-IsValid (omega arith)

in_order : (q : CompletionQueue) × (for_each 3 add_data ring 0 ≡ some (q, 78))
unfolding for_each next is_empty read_head flush_head add_data
in_order = (_, refl)

abbrev idle_ring : CompletionQueue
idle_ring = record ring { k_tail = last; k_cqes = default_completion ∷ default_completion ∷ [] }

idle_ring-IsValid : IsValid 1 idle_ring
idle_ring-IsValid = record {
  small = omega arith;
  mask = refl;
  slots = refl;
  k_head_word = omega arith;
  local_head_word = omega arith;
  k_tail_word = omega arith;
  cached_tail_word = omega arith;
  bounded = omega arith;
  unread = omega arith;
  stale = omega arith;
}

idle_ring-empty : available idle_ring ≡ []
unfolding available window
idle_ring-empty = refl

-- Two posts, a read and a flush.
abbrev filled : System
filled = record {
  queue = posted (cqe 4) (posted (cqe 3) idle_ring);
  sent = cqe 3 ∷ cqe 4 ∷ [];
  received = [];
}

abbrev finished : System
finished = record filled {
  queue = flush_head (next filled.queue).0;
  received = [] ++ read_by (next filled.queue).1;
}

finished-Reach : Reach idle_ring finished
finished-Reach =
    later
      (later (later (later start (post (cqe 3) (omega arith))) (post (cqe 4) (omega arith))) read)
      flush

completion_fifo_example :
    (finished.received ++ available finished.queue ≡ finished.sent) × IsValid 1 finished.queue
completion_fifo_example = completion_fifo idle_ring-IsValid idle_ring-empty finished-Reach
