-- ===== src/Reactor/Turn.antt =====
-- tokio-uring-reactor/src/reactor.rs: one turn of the reactor, `park`, `park_timeout` and
-- `park_inner`. `io_uring_enter` is a parameter: it stands for what the kernel and the other threads
-- do to the rings and to the park state during the call. `checks` says that the build has overflow
-- checks and debug assertions; a `Duration` is a number of nanoseconds.
pub mod Extends
pub mod Drain
pub mod Honest
pub mod Sound
pub mod ArmTimer
pub mod ArmPark
pub mod Arm
pub mod Decide
pub mod Wait
use rust_io_uring.Prelude.{
  ℕ, Bool, true, false, not, ◌&&◌, Option, none, some, Result, ok, err, Outcome, returned, panicked,
  out_of_fuel, ◌>>=◌, ◌==◌, if◌then◌else◌,
}
use rust_io_uring.Sys.Entry.{CompletionEntry}
use rust_io_uring.Sys.Flags.EnterFlags
use rust_io_uring.Ring.Submission.{pending_submissions}
use rust_io_uring.Ring.Completion.{for_each}
use rust_io_uring.Reactor.Park.{store_entered, allow_wait, store_left, clear_unpark}
use rust_io_uring.Reactor.State.{CompletionState, handle_completion}
use rust_io_uring.Reactor.Queue.{
  Inner, IoError, TimerState, oneshot, disarmed, queue_timer_poll, queue_park_read,
}

module _ {D : Type 0} where
  -- The body of the loop of `check_completions`.
  unfoldable pub handle_entry :
      Bool
      → CompletionEntry
      → Bool × Outcome (CompletionState D)
      → Bool × Outcome (CompletionState D)
  handle_entry checks c (received, s) = (
    true,
    s >>= handle_completion checks c.user_data (record { result = c.res; flags = c.flags }),
  )

  -- `check_completions`, with fuel for the rounds of its loop.
  unfoldable pub check_completions : Bool → ℕ → Inner D → Outcome (Inner D × Bool)
  check_completions checks fuel i =
      elim (for_each fuel (handle_entry checks) i.cq (false, returned i.completion_state)) [
        | none ↦ out_of_fuel
        | some p ↦ (do s ← p.1.1; returned (record i { cq = p.0; completion_state = s }, p.1.0))
      ]

  -- The timer is set, or disarmed after it has triggered.
  unfoldable pub set_timer : Bool → Option ℕ → Inner D → Outcome (Inner D)
  set_timer checks none i =
      let s : CompletionState D = i.completion_state in
      if s.timer_pending
      then returned
          (record i { timer = disarmed; completion_state = record s { timer_pending = false } })
      else returned i
  set_timer checks (some t) i =
      let s : CompletionState D = i.completion_state in
      if checks && (t == 0)
      then panicked
      else returned
          (record i { timer = oneshot t; completion_state = record s { timer_pending = false } })

  -- The poll of the timer is queued unless it is; `false`: the ring had no room.
  unfoldable pub arm_timer : Inner D → Inner D × Bool
  arm_timer i =
      if i.completion_state.requeue_timer
      then (let (j, result) = queue_timer_poll i in
          elim result [
            | ok _ ↦ (
              record j { completion_state = record j.completion_state { requeue_timer = false } },
              true,
            )
            | err _ ↦ (j, false)
          ])
      else (i, true)

  unfoldable pub arm_park : Inner D → Inner D × Bool
  arm_park i =
      if i.completion_state.requeue_park
      then (let (j, result) = queue_park_read i in
          elim result [
            | ok _ ↦ (
              record j { completion_state = record j.completion_state { requeue_park = false } },
              true,
            )
            | err _ ↦ (j, false)
          ])
      else (i, true)

  -- `Park::enter` and the drop of its guard, on the reactor's own thread.
  unfoldable pub enter_park : Inner D → Inner D
  unfolding store_entered
  enter_park i =
      let s : CompletionState D = i.completion_state in
      record i { completion_state = record s { park = store_entered s.park } }

  unfoldable pub leave_park : Inner D → Inner D
  unfolding store_left clear_unpark
  leave_park i =
      let s : CompletionState D = i.completion_state in
      record i { completion_state = record s { park = clear_unpark (store_left s.park) } }

  -- `park_inner` from the two `if`s that arm the timer and the park event up to the call of
  -- `io_uring_enter`: how many entries to submit, and whether to wait.
  unfoldable pub arm_all : Inner D → Inner D × Bool
  arm_all i = let (j, armed) = arm_timer i in if armed then arm_park j else (j, false)

  unfoldable pub decide : Bool → Bool → Inner D → Outcome (Inner D × ℕ × Bool)
  unfolding allow_wait
  decide checks wait i =
      let (sq', pending) = pending_submissions checks i.sq in
      let j : Inner D = enter_park (record i { sq = sq' }) in
      elim pending [
        | none ↦ panicked
        | some n ↦ returned (j, n, wait && allow_wait j.completion_state.park)
      ]

  -- `park_inner` up to the call of `io_uring_enter`.
  unfoldable pub prepare : Bool → ℕ → Bool → Option ℕ → Inner D → Outcome (Inner D × ℕ × Bool)
  prepare checks fuel wait timeout i = do
    (i1, received) ← check_completions checks fuel i
    let wait1 : Bool = wait && not received && not i1.completion_state.park.pending
    if wait1
        then (do
          i2 ← set_timer checks timeout i1
          let (i3, wait3) = arm_all i2
          decide checks wait3 i3)
        else decide checks false i1

  module _ (enter : ℕ → ℕ → ℕ → Inner D → Inner D × Result IoError ℕ) where
    unfoldable pub park_inner :
        Bool → ℕ → Bool → Option ℕ → Inner D → Outcome (Inner D × Result IoError (Unit {0}))
    park_inner checks fuel wait timeout i = do
      (i1, n, wait1) ← prepare checks fuel wait timeout i
      if (n == 0) && not wait1
          then returned (leave_park i1, ok tt)
          else (let (i2, result) =
                if wait1 then enter n 1 EnterFlags.getevents i1 else enter n 0 0 i1 in
              elim result [
                | err e ↦ returned (leave_park i2, err e)
                | ok _ ↦ (do
                  (i3, received) ← check_completions checks fuel (leave_park i2)
                  returned (i3, ok tt))
              ])

    unfoldable pub park : Bool → ℕ → Inner D → Outcome (Inner D × Result IoError (Unit {0}))
    park checks fuel i = park_inner checks fuel true none i

    unfoldable pub park_timeout :
        Bool → ℕ → ℕ → Inner D → Outcome (Inner D × Result IoError (Unit {0}))
    park_timeout checks fuel duration i =
        if duration == 0
        then park_inner checks fuel false none i
        else park_inner checks fuel true (some duration) i
