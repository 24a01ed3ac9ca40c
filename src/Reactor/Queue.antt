-- ===== src/Reactor/Queue.antt =====
-- tokio-uring-reactor/src/reactor.rs: `Inner`, and its calls that put entries into the submission
-- ring. The timer is the last state that the process gave the timer's file. `active_wait` counts
-- objects in memory and does not reach 2 ^ 64.
pub mod Accept
pub mod Operations
use rust_io_uring.Prelude.{
  ℕ, zero, suc, ◌+◌, ◌^◌, ◌==◌, if◌then◌else◌, ℤ, pos, negsuc, List, Option, none, some, Result, ok,
  err, Outcome, returned, panicked, undefined, ◌>>=◌,
}
use rust_io_uring.Ring.Submission.{SubmissionQueue, SubmissionError, Filler, bulk_submit_with}
use rust_io_uring.Ring.Completion.{CompletionQueue}
use rust_io_uring.Sys.Fill.{Slice}
use rust_io_uring.Reactor.Registration.{Shared, into_user_data}
use rust_io_uring.Reactor.State.{
  CompletionState, store, release, timer_event, park_event, poll_filler, read_filler, write_filler,
}

-- `io::Error`, by the places that make one.
pub data IoError : Type 0 where
  submission_queue_full reactor_dead : IoError
  raw_os_error : ℤ → IoError

-- `-r` of an `i32`: that of `i32::MIN` is itself.
unfoldable pub wrapping_neg : ℤ → ℤ
wrapping_neg (pos zero) = pos 0
wrapping_neg (pos (suc n)) = negsuc n
wrapping_neg (negsuc n) = if suc n == 2 ^ 31 then negsuc n else pos (suc n)

-- The states of `timerfd` that the reactor sets.
pub data TimerState : Type 0 where
  disarmed : TimerState
  oneshot : ℕ → TimerState

-- The event `POLLIN` of poll(2).
abbrev pub poll_in : ℕ
poll_in = 1

pub record Inner (D : Type 0) : Type 0 where
  pub sq : SubmissionQueue
  pub cq : CompletionQueue
  pub completion_state : CompletionState D
  pub timer_fd : ℤ
  pub park_fd : ℤ
  pub timer : TimerState

module _ {D : Type 0} where
  -- A submission that counts one more completion to wait for, if the ring takes it.
  unfoldable pub enqueue : Filler ⊥ → Inner D → Inner D × Result (SubmissionError ⊥) (Unit {0})
  enqueue f i =
      let (sq', result) = bulk_submit_with f i.sq in
      let s : CompletionState D = i.completion_state in
      elim result [
        | ok _ ↦ (
          record i { sq = sq'; completion_state = record s { active_wait = s.active_wait + 1 } },
          ok tt,
        )
        | err e ↦ (record i { sq = sq' }, err e)
      ]

  unfoldable pub queue_timer_poll : Inner D → Inner D × Result (SubmissionError ⊥) (Unit {0})
  queue_timer_poll i = enqueue (poll_filler i.timer_fd poll_in timer_event) i

  unfoldable pub queue_park_read : Inner D → Inner D × Result (SubmissionError ⊥) (Unit {0})
  queue_park_read i = enqueue (poll_filler i.park_fd poll_in park_event) i

  -- The common part of `queue_async_read`, `queue_async_write` and `queue_async_poll`: the raw
  -- registration goes into the entry, or is dropped with the closure that the ring did not call.
  unfoldable pub queue_async :
      (ℕ → Filler ⊥) → ℕ → Inner D → Outcome (Inner D × Result IoError (Unit {0}))
  queue_async f reg i =
      let (i', result) = enqueue (f reg) i in
      elim result [
        | ok _ ↦ (do user_data ← into_user_data reg; returned (i', ok tt))
        | err _ ↦
            (let s : CompletionState D = i'.completion_state in
              elim (s.heap reg) [
                | none ↦ undefined
                | some c ↦ returned (
                  record i' { completion_state = record s { heap = store s.heap reg (release c) } },
                  err submission_queue_full,
                )
              ])
      ]

  unfoldable pub queue_async_read :
      ℤ → ℕ → Slice → ℕ → Inner D → Outcome (Inner D × Result IoError (Unit {0}))
  queue_async_read file offset iovec reg i = queue_async (read_filler file offset iovec) reg i

  unfoldable pub queue_async_write :
      ℤ → ℕ → Slice → ℕ → Inner D → Outcome (Inner D × Result IoError (Unit {0}))
  queue_async_write file offset iovec reg i = queue_async (write_filler file offset iovec) reg i

  unfoldable pub queue_async_poll :
      ℤ → ℕ → ℕ → Inner D → Outcome (Inner D × Result IoError (Unit {0}))
  queue_async_poll file flags reg i = queue_async (poll_filler file flags) reg i
