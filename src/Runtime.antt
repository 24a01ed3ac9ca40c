-- ===== src/Runtime.antt =====
-- tokio-uring/src/lib.rs: `Runtime` and `Entered`. What they call of the crates tokio-current-thread,
-- tokio-timer and tokio-executor is a parameter, `Tokio`. A call acts on its thread and can unwind; what
-- it has changed by then stays changed.
pub mod Entered
pub mod Calls
mod Tests
use rust_io_uring.Prelude.{ℕ, Bool, Option, none, some, Result, ok, err}
use rust_io_uring.Reactor.Queue.{IoError}
use rust_io_uring.Reactor.Handle
use rust_io_uring.Reactor.Handle.{Reactor, Handle, handle, with_default}

-- How a call ends: with a value, or unwinding from a panic.
pub data Exit {ℓ} (A : Type ℓ) : Type ℓ where
  left_with : A → Exit A
  unwound : Exit A

abbrev pub Call : Type 0 → Type 0 → Type 0
Call S A = S → S × Exit A

-- The thread that a runtime runs on: `CURRENT_REACTOR`, the executor of the runtime, and the rest.
pub record Thread (X R : Type 0) : Type 0 where
  pub current_reactor : Option Handle
  pub executor : X
  pub rest : R

-- `Executor` is `CurrentThread<Timer<Reactor>>`, `Timer` is `Timer<Reactor>`, `Future` what can be
-- spawned and `Block` what can be waited for. `with_timer` is `tokio_timer::with_default`; `enter` is
-- `tokio_executor::enter`, `none` its error, and `leave` the drop of an `Enter`. The last four are the
-- methods of `tokio_current_thread::Entered`.
pub record Tokio : Type 1 where
  pub Executor : Type 0
  pub Timer : Type 0
  pub TimerHandle : Type 0
  pub Rest : Type 0
  pub Future : Type 0
  pub Block : Type 0
  pub Item : Type 0
  pub BlockError : Type 0
  pub RunError : Type 0
  pub RunTimeoutError : Type 0
  pub Turn : Type 0
  pub TurnError : Type 0
  pub new_timer : Reactor → Timer
  pub reactor_of : Timer → Reactor
  pub handle_of : Timer → TimerHandle
  pub new_with_park : Timer → Executor
  pub get_park : Executor → Timer
  pub push : Future → Executor → Executor
  pub idle : Executor → Bool
  pub enter : Rest → Option Rest
  pub leave : Rest → Rest
  pub with_timer :
      {A : Type 0} → TimerHandle → Call (Thread Executor Rest) A → Call (Thread Executor Rest) A
  pub run : Call (Thread Executor Rest) (Result RunError (Unit {0}))
  pub run_timeout : ℕ → Call (Thread Executor Rest) (Result RunTimeoutError (Unit {0}))
  pub block_on : Block → Call (Thread Executor Rest) (Result BlockError Item)
  pub turn : Option ℕ → Call (Thread Executor Rest) (Result TurnError Turn)

module _ {X R : Type 0} where
  -- The drop of `Reset`.
  unfoldable pub reset : Thread X R → Thread X R
  reset t = record t { current_reactor = none }

  -- `with_reactor_handle`: the guard is dropped when `f` returns and when it unwinds.
  unfoldable pub with_reactor_handle :
      {A : Type 0} → Handle → Call (Thread X R) A → Call (Thread X R) A
  unfolding reset with_default
  with_reactor_handle h f t =
      let (u, e) = with_default h f (record t { current_reactor = some h }) in (reset u, e)

  unfoldable pub current_reactor_handle : Call (Thread X R) (Option Handle)
  current_reactor_handle t = (t, left_with t.current_reactor)

module _ (k : Tokio) where
  abbrev pub Here : Type 0
  Here = Thread k.Executor k.Rest

  -- `Runtime::new`, by the answer of `Reactor::new`.
  unfoldable pub new : Result IoError Reactor → Result IoError k.Executor
  new (err e) = err e
  new (ok r) = ok (k.new_with_park (k.new_timer r))

  unfoldable pub reactor_handle : Here → Handle
  reactor_handle t = handle (k.reactor_of (k.get_park t.executor))

  unfoldable pub timer_handle : Here → k.TimerHandle
  timer_handle t = k.handle_of (k.get_park t.executor)

  -- `Runtime::spawn` and `Runtime::is_idle`, which `Entered` has too.
  unfoldable pub spawn : k.Future → Here → Here
  spawn future t = record t { executor = k.push future t.executor }

  unfoldable pub is_idle : Here → Bool
  is_idle t = k.idle t.executor
