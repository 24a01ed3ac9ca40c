-- ===== src/Reactor/World/Tests.antt =====
-- The theorems about the reactor in its world at a concrete one: a new reactor whose rings are about to
-- turn round, and a read at address 16 that it starts.
use rust_io_uring.Prelude.{
  ℕ, ◌≤◌, ◌≡◌, ◌⊎◌, inl, inr, refl, ap, arith, ℤ, pos, false, [], ◌∷◌, ◌++◌, Option, some, none,
  length, count, returned, Result,
}
use rust_io_uring.Sys.Entry.{SubmissionEntry, default_completion, zeroed}
use rust_io_uring.Sys.Fill.{Slice}
use rust_io_uring.Ring.Window.{window}
use rust_io_uring.Ring.Submission.{pending}
use rust_io_uring.Ring.Submission.Tests.{idle_ring, idle_ring-IsValid}
use rust_io_uring.Ring.Completion.{CompletionQueue, available}
use rust_io_uring.Ring.Completion.Valid
use rust_io_uring.Reactor.Registration.{old, Shared, ready, not_ready}
use rust_io_uring.Reactor.State.{new_state, read_filler}
use rust_io_uring.Reactor.State.InFlight.{InFlight, Inv, here}
use rust_io_uring.Reactor.Queue.{Inner, disarmed}
use rust_io_uring.Reactor.Turn.Extends.{entry_keys, count-entry_keys_snoc}
use rust_io_uring.Reactor.Transfer.{Context, TransferError, pending_at, closed, poll, start_read}
use rust_io_uring.Reactor.Transfer.Start.{Starts, start_lem}
use rust_io_uring.Reactor.World.{World, Reach, later, begin, others}
use rust_io_uring.Reactor.World
use rust_io_uring.Reactor.World.Good.{outstanding}
use rust_io_uring.Reactor.World.Safety.{IsFresh, poll_safe, buffer_safe}

abbrev pub as_raw_fd : ℤ → ℤ
as_raw_fd file = file

abbrev pub bytes : ℕ → Slice
bytes buffer = record { ptr = buffer; len = 8 }

abbrev pub empty_ring : CompletionQueue
empty_ring = record {
  k_head = 0xffff_ffff;
  local_head = 0xffff_ffff;
  k_tail = 0xffff_ffff;
  cached_tail = 0xffff_ffff;
  ring_mask = 1;
  k_overflow = 0;
  k_cqes = default_completion ∷ default_completion ∷ [];
}

empty_ring-IsValid : Valid.IsValid 1 empty_ring
empty_ring-IsValid = record {
  small = omega arith;
  mask = refl;
  slots = refl;
  k_head_word = omega arith;
  local_head_word = omega arith;
  k_tail_word = omega arith;
  cached_tail_word = omega arith;
  bounded = omega arith;
  unread = omega arith;
  stale = omega arith;
}

abbrev pub new_world : World ℕ ℤ
new_world = record {
  reactor = record {
    sq = idle_ring;
    cq = empty_ring;
    completion_state = new_state;
    timer_fd = pos 3;
    park_fd = pos 4;
    timer = disarmed;
  };
  held = [];
  futures = [];
}

pub new_world-IsFresh : IsFresh 1 1 new_world
unfolding new_state pending available window
new_world-IsFresh = record {
  ring = idle_ring-IsValid;
  cring = empty_ring-IsValid;
  no_pending = refl;
  no_available = refl;
  none_held = refl;
  no_futures = refl;
  no_cells = λ a. refl;
  no_wait = refl;
  timer_unarmed = refl;
  park_unarmed = refl;
}

pub no_cell : new_world.reactor.completion_state.heap 16 ≡ none
unfolding new_state
no_cell = refl

nothing-Inv :
    Inv new_world.reactor.completion_state
      (record { timer_out = false; park_out = false; ops = [] })
unfolding new_state
nothing-Inv = record { counted = refl; timer_known = refl; park_known = refl; live = tt }

no_pending : length (pending idle_ring) ≡ 0
unfolding pending window
no_pending = refl

abbrev pub entry : SubmissionEntry
entry = (read_filler (pos 6) 0 (record { ptr = 128; len = 1 }) 16 zeroed).0

pub first_read :
    (j : Inner (Context ℕ ℤ)) × (start_read as_raw_fd bytes
        (some new_world.reactor)
        16
        128
        (pos 6)
        0
        72
      ≡ returned (some j, pending_at 16))
    × (pending j.sq ≡ pending idle_ring ++ entry ∷ [])
unfolding Starts
first_read =
    let (j, outcome) =
      (start_lem as_raw_fd bytes 16 128 (pos 6) 0 72 {k = 1} new_world.reactor
        (record { timer_out = false; park_out = false; ops = [] }) idle_ring-IsValid nothing-Inv
        (λ e. omega arith) refl tt).0 in
    elim outcome [
      | inl b ↦ (j, b.0, b.1.last)
      | inr b ↦ absurd (omega (arith, b.1.full, no_pending))
    ]

abbrev pub reading : World ℕ ℤ
reading = record new_world { reactor = first_read.0; futures = 16 ∷ [] }

pub reading-Reach : Reach as_raw_fd bytes new_world reading
reading-Reach =
    later World.here
      (begin false 16 128 (pos 6) 0 72 first_read.0 (λ e. omega arith) refl no_cell first_read.1)

reading-outstanding : 1 ≤ outstanding 16 reading
reading-outstanding = omega (
  arith,
  ap (λ es. count 16 (entry_keys es)) first_read.2,
  count-entry_keys_snoc 16 (pending idle_ring) entry,
)

poll_safe_example :
    (h : ℕ → Option (Shared (Context ℕ ℤ))) × ((poll
          (old 1)
          (pending_at 16)
          reading.reactor.completion_state.heap
        ≡ returned (pending_at 16, h, not_ready))
      ⊎ ((o : Result (TransferError ℕ ℤ) (ℕ × ℕ × ℤ)) × (poll
              (old 1)
              (pending_at 16)
              reading.reactor.completion_state.heap
            ≡ returned (closed, h, ready o))))
poll_safe_example =
    poll_safe as_raw_fd bytes {k = 1} {l = 1} new_world-IsFresh reading-Reach (old 1) 16 [] here

buffer_safe_example :
    (c : Shared (Context ℕ ℤ)) × (d : Context ℕ ℤ) × (reading.reactor.completion_state.heap 16
      ≡ some c)
    × (c.inner.finished ≡ false)
    × (c.inner.payload ≡ some d)
    × (1 ≤ c.strong)
buffer_safe_example =
    buffer_safe as_raw_fd bytes {k = 1} {l = 1} new_world-IsFresh reading-Reach 16 refl
      reading-outstanding
