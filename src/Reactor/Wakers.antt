-- ===== src/Reactor/Wakers.antt =====
-- tokio-uring-reactor: the futures' methods of std (feature nightly-async), which take a `Waker`,
-- against those of the crate futures, which take the current task.
mod Tests
use rust_io_uring.Prelude.{ℕ, ◌≡◌, Bool, Option, returned, ◌>>=◌}
use rust_io_uring.Reactor.Registration.{new_waker, Shared}
use rust_io_uring.Reactor.Queue.{Inner}
use rust_io_uring.Reactor.Transfer
use rust_io_uring.Reactor.Transfer.{Context, State}
use rust_io_uring.Reactor.Transfer.Wakers as Transfers
use rust_io_uring.Reactor.Readiness
use rust_io_uring.Reactor.Readiness.{AsyncPoll}
use rust_io_uring.Reactor.Readiness.Wakers as Streams
use rust_io_uring.Reactor.Net.{poll_incoming}
use rust_io_uring.Reactor.Net.Wakers.{
  Listening, streamed, from_poll, from_next, poll_next, poll_next_lem,
}

-- In every state, on every heap, the poll of a read or a write by a waker does what the poll by a task
-- does with that waker in the task's place, and answers the same, be it a result, a panic or an
-- access to a freed cell; and so does the poll of a stream of readiness, with a reactor that is
-- alive or dead, where an item of the stream is the result of the future.
-- With any fuel, on the same answers of `accept` and of the readiness of a listener, the poll of its
-- connections by a waker comes to what the poll by a task comes to.
pub wakers_agree :
    (T F A E : Type 0) (waker : ℕ)
    → ((state : State T F) (heap : ℕ → Option (Shared (Context T F)))
        → Transfers.poll_async waker state heap
          ≡ (Transfer.poll (new_waker waker) state heap >>= λ p. returned (Transfers.to_async p)))
      × ((alive : Bool) (p : AsyncPoll) (i : Inner (Unit {0}))
          → Streams.poll_async alive waker p i
            ≡ (Readiness.poll alive (new_waker waker) p i >>= λ q. returned (Streams.to_async q)))
      × ((fuel : ℕ) (i : Listening A E)
          → from_poll (poll_incoming fuel (streamed i)) ≡ from_next (poll_next fuel i))
wakers_agree T F A E waker = (
  λ state heap. Transfers.poll_async_lem waker state heap,
  λ alive p i. Streams.poll_async_lem alive waker p i,
  λ fuel i. poll_next_lem fuel i,
)
