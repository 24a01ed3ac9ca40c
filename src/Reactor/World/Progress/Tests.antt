-- ===== src/Reactor/World/Progress/Tests.antt =====
-- A read that is started, taken by the kernel, answered and finished, in rings that have turned round.
use rust_io_uring.Prelude.{
  ℕ, ◌+◌, ◌≤◌, count, length, ◌≡◌, refl, arith, ℤ, pos, true, false, [], ◌∷◌, ◌++◌, List, some,
  none, Option, ok, ℕ_discrete, ◌<◌, returned,
}
use mathlib.Core.List.{Memᴰ}
use rust_io_uring.Sys.Entry.{CompletionEntry, zeroed}
use rust_io_uring.Sys.Fill.{fill_readv}
use rust_io_uring.Ring.Window.{window}
use rust_io_uring.Ring.Submission.{
  bulk_submit_with, submit_with, fill_slot, is_full, flush_tail, head, refresh_head, entry_at,
}
use rust_io_uring.Ring.Completion.{
  available, cqe_at, for_each, next, is_empty, read_head, refresh_tail, flush_head,
}
use rust_io_uring.Ring.Completion.Kernel.{posted}
use rust_io_uring.Reactor.Registration.{
  CompatWaker, empty, old, track, Shared, share, to_raw, new, into_user_data, ready, notify, wake,
  drop_raw,
}
use rust_io_uring.Reactor.State.{
  new_state, store, handle_completion, decrement, notify_at, release, special_event,
}
use rust_io_uring.Reactor.State.InFlight.{here}
use rust_io_uring.Reactor.Queue.{Inner, queue_async_read, queue_async, enqueue}
use rust_io_uring.Reactor.Turn.{check_completions, handle_entry}
use rust_io_uring.Reactor.Turn.Honest.{keys}
use rust_io_uring.Reactor.Transfer.{Context, pending_at, start_read, start, put, poll, closed}
use rust_io_uring.Reactor.Transfer.{settle, outcome}
use rust_io_uring.Reactor.Transfer.Finish.{transferred}
use rust_io_uring.Reactor.Registration.Once.{sleepers}
use rust_io_uring.Reactor.World
use rust_io_uring.Reactor.World.{
  World, Reach, later, begin, take, answer, check, finish, take_entry, with_heap,
}
use rust_io_uring.Reactor.World.Tests.{
  as_raw_fd, bytes, new_world, new_world-IsFresh, no_cell, entry,
}
use rust_io_uring.Reactor.Registration
use rust_io_uring.Reactor.World.Safety.{no_leak}
use rust_io_uring.Reactor.World.Progress.{completion_delivered}

-- What the kernel answers: eight bytes read.
abbrev answer_entry : CompletionEntry
answer_entry = record { user_data = 16; res = pos 8; flags = 0 }

abbrev cell : Shared (Context ℕ ℤ)
cell = record {
  inner = record {
    result = record { result = pos 0; flags = 0 };
    finished = false;
    waker = empty;
    payload = some (record { iovec = bytes 72; buffer = 72; file = pos 6 });
  };
  strong = 2;
}

abbrev begun_reactor : Inner (Context ℕ ℤ)
begun_reactor = record new_world.reactor {
  sq = record new_world.reactor.sq { k_tail = 0; local_tail = 0; sces = zeroed ∷ entry ∷ [] };
  completion_state = record new_world.reactor.completion_state {
    active_wait = 1;
    heap = store new_world.reactor.completion_state.heap 16 (some cell);
  };
}

started :
    start_read as_raw_fd bytes (some new_world.reactor) 16 128 (pos 6) 0 72
    ≡ returned (some begun_reactor, pending_at 16)
unfolding start_read start put queue_async_read queue_async enqueue bulk_submit_with submit_with
    fill_slot is_full flush_tail head refresh_head share to_raw new into_user_data new_state
started = refl

abbrev answered : World ℕ ℤ
answered = record new_world {
  reactor = record (take_entry begun_reactor) { cq = posted answer_entry begun_reactor.cq };
  futures = 16 ∷ [];
}

answered-Reach : Reach as_raw_fd bytes new_world answered
unfolding entry_at fill_readv
answered-Reach =
    later
      (later
        (later World.here
          (begin false 16 128 (pos 6) 0 72 begun_reactor (λ e. omega arith) refl no_cell started))
        (take (λ e. omega (arith, e))))
      (answer answer_entry [] here (omega arith))

one_there : 1 ≤ count 16 (keys (available answered.reactor.cq))
unfolding available window cqe_at
one_there = omega arith

completion_delivered_example :
    (c : Shared (Context ℕ ℤ)) × (d : Context ℕ ℤ) × (e : CompletionEntry) × (i : Inner
      (Context ℕ ℤ))
    × (before after : List CompatWaker) × (answered.reactor.completion_state.heap 16 ≡ some c)
    × (c.inner.payload ≡ some d)
    × Memᴰ e (available answered.reactor.cq)
    × (e.user_data ≡ 16)
    × (check_completions false (length (available answered.reactor.cq) + 1) answered.reactor
        ≡ returned (i, true))
    × (i.completion_state.woken ≡ before ++ sleepers c.inner.waker ++ after)
    × ((x : CompatWaker)
        → poll x (pending_at 16) i.completion_state.heap
          ≡ returned (closed, store i.completion_state.heap 16 none, ready (transferred e.res d)))
completion_delivered_example =
    completion_delivered as_raw_fd bytes {k = 1} {l = 1} new_world-IsFresh answered-Reach 16 []
      (length (available answered.reactor.cq) + 1) refl here one_there (omega arith)

abbrev finished_cell : Shared (Context ℕ ℤ)
finished_cell = record cell {
  inner = record cell.inner { result = record { result = pos 8; flags = 0 }; finished = true };
  strong = 1;
}

-- The state after the completion is taken in, and after the future has given its result.
abbrev checked_reactor : Inner (Context ℕ ℤ)
checked_reactor = record answered.reactor {
  cq = record answered.reactor.cq { k_head = 0; local_head = 0; cached_tail = 0 };
  completion_state = record answered.reactor.completion_state {
    active_wait = 0;
    heap = store answered.reactor.completion_state.heap 16 (some finished_cell);
  };
}

checked : check_completions false 2 answered.reactor ≡ returned (checked_reactor, true)
unfolding check_completions handle_entry for_each next is_empty read_head refresh_tail cqe_at
    flush_head handle_completion decrement notify_at notify wake release drop_raw special_event
    new_state ℕ_discrete
checked = refl

one_answer : length (available answered.reactor.cq) < 2
unfolding available window cqe_at
one_answer = omega arith

abbrev finished_heap : ℕ → Option (Shared (Context ℕ ℤ))
finished_heap = store checked_reactor.completion_state.heap 16 none

finishes :
    poll (old 1) (pending_at 16) checked_reactor.completion_state.heap
    ≡ returned (closed, finished_heap, ready (ok (8, 72, pos 6)))
unfolding poll settle Registration.poll track outcome release drop_raw ℕ_discrete
finishes = refl

abbrev finished : World ℕ ℤ
finished = record answered { reactor = with_heap finished_heap checked_reactor; futures = [] }

finished-Reach : Reach as_raw_fd bytes new_world finished
finished-Reach =
    later (later answered-Reach (check 2 checked_reactor true one_answer checked))
      (finish (old 1) 16 [] finished_heap (ok (8, 72, pos 6)) here finishes)

no_leak_example : finished_heap 16 ≡ none
no_leak_example =
    no_leak as_raw_fd bytes {k = 1} {l = 1} new_world-IsFresh finished-Reach refl refl 16
