-- ===== src/Reactor/Readiness.antt =====
-- tokio-uring-reactor/src/reactor/async_poll.rs: `AsyncPoll`, a stream of the readiness of a file,
-- each item a poll operation of its own. Its registration, which holds no data, lies at `address`.
-- Wakers has the future's `poll`.
pub mod Arm
pub mod Item
pub mod Wakers
mod Tests
use rust_io_uring.Prelude.{
  ℕ, ◌%◌, ◌^◌, ℤ, pos, negsuc, suc, Bool, true, false, not, Option, none, some, Result, ok, err,
  Outcome, returned, undefined, ◌>>=◌, if◌then◌else◌, as_u32,
}
use rust_io_uring.Reactor.Registration.{
  CompatWaker, UringResult, Async, ready, not_ready, Shared, to_raw, track, poll_stream_and_reset,
}
use rust_io_uring.Reactor.State.{CompletionState, store}
use rust_io_uring.Reactor.Queue.{
  Inner, IoError, reactor_dead, raw_os_error, wrapping_neg, queue_async_poll,
}

pub record AsyncPoll : Type 0 where
  pub fd : ℤ
  pub active : Bool
  pub flags : ℕ
  pub address : ℕ

-- `AsyncPoll::new`, with a registration at `address`.
unfoldable pub new : ℤ → ℕ → ℕ → AsyncPoll
new fd flags address = record { fd = fd; active = false; flags = flags; address = address }

-- The cell at an address of the reactor's heap is replaced.
unfoldable pub set_cell : ℕ → Shared (Unit {0}) → Inner (Unit {0}) → Inner (Unit {0})
set_cell address c i =
    let s : CompletionState (Unit {0}) = i.completion_state in
    record i { completion_state = record s { heap = store s.heap address (some c) } }

-- `r.result as u16`, of an `i32` that is not negative. `PollFlags::_ALL` has every bit, so
-- `from_bits_truncate` keeps them all. The negation is `wrapping_neg`, as in `Transfer.outcome`.
unfoldable pub events : ℤ → Result IoError ℕ
events (pos n) = ok (n % 2 ^ 16)
events (negsuc n) = err (raw_os_error (wrapping_neg (negsuc n)))

-- The end of `poll` after an operation was queued.
unfoldable pub register :
    CompatWaker
    → AsyncPoll
    → Inner (Unit {0})
    → Outcome (AsyncPoll × Inner (Unit {0}) × Result IoError (Async ℕ))
unfolding set_cell track
register w p i = elim (i.completion_state.heap p.address) [
  | none ↦ undefined
  | some c ↦ returned (
    record p { active = true },
    set_cell p.address (record c { inner = track w c.inner }) i,
    ok not_ready,
  )
]

-- `poll` while no operation is in flight: one is queued, and the task is registered. `alive` says
-- whether the handle upgrades.
unfoldable pub arm :
    Bool
    → CompatWaker
    → AsyncPoll
    → Inner (Unit {0})
    → Outcome (AsyncPoll × Inner (Unit {0}) × Result IoError (Async ℕ))
unfolding set_cell to_raw
arm false w p i = returned (p, i, err reactor_dead)
arm true w p i = elim (i.completion_state.heap p.address) [
  | none ↦ undefined
  | some c ↦ (do
    q ← queue_async_poll p.fd p.flags p.address (set_cell p.address (to_raw c) i)
    elim q.1 [ err e ↦ returned (p, q.0, err e) | ok _ ↦ register w p q.0 ])
]

-- `poll` while an operation is in flight.
unfoldable pub take :
    CompatWaker
    → AsyncPoll
    → Inner (Unit {0})
    → Outcome (AsyncPoll × Inner (Unit {0}) × Result IoError (Async ℕ))
unfolding set_cell events
take w p i = elim (i.completion_state.heap p.address) [
  | none ↦ undefined
  | some c ↦
      (let (inner', r) = poll_stream_and_reset w c.inner in
        let i' : Inner (Unit {0}) = set_cell p.address (record c { inner = inner' }) i in
        elim r [
          | not_ready ↦ returned (p, i', ok not_ready)
          | ready x ↦ (elim (events x.result) [
            | err e ↦ returned (record p { active = false }, i', err e)
            | ok flags ↦ returned (record p { active = false }, i', ok (ready flags))
          ])
        ])
]

-- `Stream::poll`
unfoldable pub poll :
    Bool
    → CompatWaker
    → AsyncPoll
    → Inner (Unit {0})
    → Outcome (AsyncPoll × Inner (Unit {0}) × Result IoError (Async ℕ))
poll alive w p i = if not p.active then arm alive w p i else take w p i
