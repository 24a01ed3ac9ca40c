-- ===== src/Reactor/Tests.antt =====
-- The theorems about the reactor at a concrete reactor: the polls of the timer and of the park event
-- are in flight, and a read whose registration lies at address 8.
use rust_io_uring.Prelude.{
  ℕ, ◌<◌, ◌≡◌, ◌⊎◌, refl, sym, subst, arith, ℤ, pos, true, false, [], ◌∷◌, Option, some, none, ok,
  err, length, returned,
}
use rust_io_uring.Sys.Entry.{CompletionEntry, zeroed}
use rust_io_uring.Sys.Fill.{Slice}
use rust_io_uring.Ring.Window.{window}
use rust_io_uring.Ring.Submission.Tests.{idle_ring, idle_ring-IsValid}
use rust_io_uring.Ring.Completion.{CompletionQueue, available}
use rust_io_uring.Ring.Completion.Valid
use rust_io_uring.Reactor.Registration.{empty, old, UringResult, Shared, not_ready, ready}
use rust_io_uring.Reactor.Park
use rust_io_uring.Reactor.State.{
  CompletionState, store, handle_completion, read_filler, write_filler, poll_filler,
}
use rust_io_uring.Reactor.State.InFlight.{
  InFlight, Inv, op, timer, here, store_same, InProgress, NotIn, Live-store,
}
use rust_io_uring.Reactor.State.Complete.{completion_safe}
use rust_io_uring.Reactor.Queue.{Inner, disarmed, queue_async, submission_queue_full}
use rust_io_uring.Reactor.Queue.Operations.{Started, Returned, queue_async_lem}
use rust_io_uring.Reactor.Turn.{check_completions, prepare}
use rust_io_uring.Reactor.Turn.Drain.{
  CompletesAll, first, done, nonempty, Checked, check_completions_lem,
}
use rust_io_uring.Reactor.Turn.Wait.{Prepared, prepare_lem}
use rust_io_uring.Reactor.Transfer.{Context, pending_at, closed, start_read, start_write}
use rust_io_uring.Reactor.Transfer.Start.{Starts, start_lem}
use rust_io_uring.Reactor.Transfer.Finish.{waiting, transfer, transfer_lem}

-- A buffer is a number, for eight bytes that lie there, and a file is its descriptor.
abbrev as_raw_fd : ℤ → ℤ
as_raw_fd file = file

abbrev bytes : ℕ → Slice
bytes buffer = record { ptr = buffer; len = 8 }

abbrev context : Context ℕ ℤ
context = record { iovec = bytes 64; buffer = 64; file = pos 5 }

abbrev no_result : UringResult
no_result = record { result = pos 0; flags = 0 }

abbrev eight_bytes : UringResult
eight_bytes = record { result = pos 8; flags = 0 }

abbrev cell : Shared (Context ℕ ℤ)
cell = waiting no_result empty context

abbrev state : CompletionState (Context ℕ ℤ)
state = record {
  requeue_timer = false;
  timer_pending = false;
  requeue_park = false;
  active_wait = 3;
  park = Park.new;
  heap = store (λ _. none) 8 (some cell);
  woken = [];
}

abbrev flying : InFlight
flying = record { timer_out = true; park_out = true; ops = 8 ∷ [] }

cell-InProgress : InProgress state.heap 8
cell-InProgress = record {
  cell = cell;
  nonzero = λ e. omega arith;
  even = refl;
  at = store_same (λ _. none) 8 (some cell);
  unfinished = refl;
  owned = omega arith;
}

state-Inv : Inv state flying
state-Inv = record {
  counted = refl;
  timer_known = refl;
  park_known = refl;
  live = (cell-InProgress, tt, tt);
}

completion_safe_example :
    (t : CompletionState (Context ℕ ℤ)) × (handle_completion true 8 eight_bytes state ≡ returned t)
    × Inv t (record flying { ops = [] })
completion_safe_example =
    completion_safe true eight_bytes state flying state-Inv 8 (record flying { ops = [] }) (op here)

abbrev cqe : ℕ → CompletionEntry
cqe u = record { user_data = u; res = pos 8; flags = 0 }

-- The completions of the timer and of the read, the second behind the turn.
abbrev ring : CompletionQueue
ring = record {
  k_head = 0xffff_ffff;
  local_head = 0xffff_ffff;
  k_tail = 1;
  cached_tail = 0xffff_ffff;
  ring_mask = 1;
  k_overflow = 0;
  k_cqes = cqe 8 ∷ cqe 1 ∷ [];
}

ring-IsValid : Valid.IsValid 1 ring
ring-IsValid = record {
  small = omega arith;
  mask = refl;
  slots = refl;
  k_head_word = omega arith;
  local_head_word = omega arith;
  k_tail_word = omega arith;
  cached_tail_word = omega arith;
  bounded = omega arith;
  unread = omega arith;
  stale = omega arith;
}

available-ring : available ring ≡ cqe 1 ∷ cqe 8 ∷ []
unfolding available window
available-ring = refl

abbrev landed : InFlight
landed = record { timer_out = false; park_out = true; ops = [] }

ring-CompletesAll : CompletesAll flying (available ring) landed
ring-CompletesAll =
    subst (λ cs. CompletesAll flying cs landed) (sym available-ring)
      (first (timer refl) (first (op here) done))

ring-short : length (available ring) < 3
ring-short = subst (λ cs. length cs < 3) (sym available-ring) (omega arith)

abbrev reactor : Inner (Context ℕ ℤ)
reactor = record {
  sq = idle_ring;
  cq = ring;
  completion_state = state;
  timer_fd = pos 3;
  park_fd = pos 4;
  timer = disarmed;
}

check_completions_lem_example :
    (j : Inner (Context ℕ ℤ)) × (check_completions true 3 reactor
      ≡ returned (j, nonempty (available ring)))
    × Checked true 1 reactor j landed
check_completions_lem_example =
    check_completions_lem true {g = landed} 3 reactor ring-IsValid state-Inv ring-CompletesAll
      ring-short

prepare_lem_example :
    (i1 : Inner (Context ℕ ℤ)) × (check_completions false 3 reactor
      ≡ returned (i1, nonempty (available ring)))
    × Checked false 1 reactor i1 landed
    × Prepared 1 true reactor i1 landed (prepare false 3 true (some 1000) reactor)
prepare_lem_example =
    prepare_lem {k = 1} {l = 1} {g = landed} 3 true (some 1000) reactor
      (record { ring = idle_ring-IsValid; inv = state-Inv }) ring-IsValid ring-CompletesAll
      ring-short

away : NotIn 16 (8 ∷ [])
away = (λ e. omega arith, tt)

start_lem_example :
    Starts as_raw_fd bytes 16 128
      (pos 6)
      0
      72
      1
      (read_filler (pos 6) 0 (record { ptr = 128; len = 1 }) 16 zeroed).0
      flying
      reactor
      (start_read as_raw_fd bytes (some reactor) 16 128 (pos 6) 0 72)
    × Starts as_raw_fd bytes 16 128
        (pos 6)
        0
        72
        1
        (write_filler (pos 6) 0 (record { ptr = 128; len = 1 }) 16 zeroed).0
        flying
        reactor
        (start_write as_raw_fd bytes (some reactor) 16 128 (pos 6) 0 72)
start_lem_example =
    start_lem as_raw_fd bytes 16 128 (pos 6) 0 72 reactor flying idle_ring-IsValid state-Inv
      (λ e. omega arith) refl away

transfer_lem_example :
    (h h' : ℕ → Option (Shared (Context ℕ ℤ))) × (transfer true (old 1) (old 2) eight_bytes 8 state
      ≡ returned (
        (pending_at 8, h, not_ready),
        (closed, h', ready (ok (8, context.buffer, context.file))),
        old 1 ∷ [],
      ))
    × (h' 8 ≡ none)
transfer_lem_example =
    transfer_lem true (old 1) (old 2) empty eight_bytes no_result 8 context state flying []
      (store_same (λ _. none) 8 (some cell)) state-Inv here (λ e. omega arith) refl

-- The reactor once more, with a registration at 16 that is not yet in flight.
abbrev loaded : Inner (Context ℕ ℤ)
loaded = record reactor {
  completion_state = record state { heap = store state.heap 16 (some cell) };
}

loaded-Inv : Inv loaded.completion_state flying
loaded-Inv = record {
  counted = refl;
  timer_known = refl;
  park_known = refl;
  live = Live-store state.heap 16 (some cell) (8 ∷ []) away state-Inv.live;
}

loaded-InProgress : InProgress loaded.completion_state.heap 16
loaded-InProgress = record {
  cell = cell;
  nonzero = λ e. omega arith;
  even = refl;
  at = store_same state.heap 16 (some cell);
  unfinished = refl;
  owned = omega arith;
}

queue_async_lem_example :
    (j : Inner (Context ℕ ℤ)) × (((queue_async (poll_filler (pos 6) 1) 16 loaded
          ≡ returned (j, ok tt))
        × Started 1 (poll_filler (pos 6) 1 16 zeroed).0 16 flying loaded j)
      ⊎ ((queue_async (poll_filler (pos 6) 1) 16 loaded ≡ returned (j, err submission_queue_full))
          × Returned 1 16 loaded-InProgress.cell flying loaded j))
queue_async_lem_example =
    queue_async_lem (poll_filler (pos 6) 1) 16 (poll_filler (pos 6) 1 16 zeroed).0 loaded flying
      refl idle_ring-IsValid loaded-Inv loaded-InProgress away
