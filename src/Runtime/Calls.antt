-- ===== src/Runtime/Calls.antt =====
-- tokio-uring/src/lib.rs: the calls of `Runtime` that run its executor.
pub mod Reset
pub mod Blocking
use rust_io_uring.Prelude.{ℕ, Option, none, some, Result}
use rust_io_uring.Runtime.{Exit, unwound, Call, Tokio, Here}
use rust_io_uring.Runtime.Entered

module _ (k : Tokio) where
  -- `let mut enter = tokio_executor::enter().unwrap(); self.enter(&mut enter).f()`, with the drop of
  -- `enter` at the end, on unwinding too.
  unfoldable pub entered : {A : Type 0} → Call (Here k) A → Call (Here k) A
  entered f t = elim (k.enter t.rest) [
    | none ↦ (t, unwound)
    | some r ↦ (let (u, e) = f (record t { rest = r }) in (record u { rest = k.leave u.rest }, e))
  ]

  unfoldable pub run : Call (Here k) (Result k.RunError (Unit {0}))
  unfolding entered
  run t = entered (Entered.run k) t

  unfoldable pub run_timeout : ℕ → Call (Here k) (Result k.RunTimeoutError (Unit {0}))
  unfolding entered
  run_timeout duration t = entered (Entered.run_timeout k duration) t

  unfoldable pub block_on_all : k.Block → Call (Here k) (Result k.BlockError k.Item)
  unfolding entered
  block_on_all future t = entered (Entered.block_on_all k future) t

  unfoldable pub turn : Option ℕ → Call (Here k) (Result k.TurnError k.Turn)
  unfolding entered
  turn duration t = entered (Entered.turn k duration) t
