-- ===== src/Reactor/Wakers/Tests.antt =====
-- The polls by a waker and by a task at a concrete waker.
use rust_io_uring.Prelude.{ℕ, ◌≡◌, ℤ, Bool, Option, returned, ◌>>=◌}
use rust_io_uring.Reactor.Registration.{new_waker, Shared}
use rust_io_uring.Reactor.Queue.{Inner}
use rust_io_uring.Reactor.Transfer
use rust_io_uring.Reactor.Transfer.{Context, State}
use rust_io_uring.Reactor.Transfer.Wakers as Transfers
use rust_io_uring.Reactor.Readiness
use rust_io_uring.Reactor.Readiness.{AsyncPoll}
use rust_io_uring.Reactor.Readiness.Wakers as Streams
use rust_io_uring.Reactor.Net.{poll_incoming}
use rust_io_uring.Reactor.Net.Wakers.{Listening, streamed, from_poll, from_next, poll_next}
use rust_io_uring.Reactor.Wakers.{wakers_agree}

wakers_agree_example :
    ((state : State ℕ ℤ) (heap : ℕ → Option (Shared (Context ℕ ℤ)))
      → Transfers.poll_async 5 state heap
        ≡ (Transfer.poll (new_waker 5) state heap >>= λ p. returned (Transfers.to_async p)))
    × ((alive : Bool) (p : AsyncPoll) (i : Inner (Unit {0}))
        → Streams.poll_async alive 5 p i
          ≡ (Readiness.poll alive (new_waker 5) p i >>= λ q. returned (Streams.to_async q)))
    × ((fuel : ℕ) (i : Listening ℕ ℕ)
        → from_poll (poll_incoming fuel (streamed i)) ≡ from_next (poll_next fuel i))
wakers_agree_example = wakers_agree ℕ ℤ ℕ ℕ 5
