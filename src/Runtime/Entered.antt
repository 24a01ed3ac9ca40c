-- ===== src/Runtime/Entered.antt =====
-- tokio-uring/src/lib.rs: `Entered`, a runtime together with the proof that its thread runs no other
-- executor.
use rust_io_uring.Prelude.{ℕ, Option, Result, ok, err}
use rust_io_uring.Runtime.{
  Exit, left_with, unwound, Call, Tokio, Here, with_reactor_handle, reactor_handle, timer_handle,
}

module _ (k : Tokio) where
  -- `with`: `f` runs with both handles as the current ones.
  unfoldable pub scope : {A : Type 0} → Call (Here k) A → Call (Here k) A
  unfolding reactor_handle timer_handle with_reactor_handle
  scope f t = with_reactor_handle (reactor_handle k t) (k.with_timer (timer_handle k t) f) t

  unfoldable pub run : Call (Here k) (Result k.RunError (Unit {0}))
  run t = scope k.run t

  unfoldable pub run_timeout : ℕ → Call (Here k) (Result k.RunTimeoutError (Unit {0}))
  run_timeout duration t = scope (k.run_timeout duration) t

  -- The closure of `block_on_all`: `block_on`, and `run` with `unwrap` on its answer.
  unfoldable pub unwrap_run :
      {A : Type 0} → A → Here k × Exit (Result k.RunError (Unit {0})) → Here k × Exit A
  unwrap_run answer (u, unwound) = (u, unwound)
  unwrap_run answer (u, left_with (ok _)) = (u, left_with answer)
  unwrap_run answer (u, left_with (err _)) = (u, unwound)

  unfoldable pub run_rest : {A : Type 0} → Here k × Exit A → Here k × Exit A
  run_rest (u, unwound) = (u, unwound)
  run_rest (u, left_with answer) = unwrap_run answer (k.run u)

  unfoldable pub block_then_run : k.Block → Call (Here k) (Result k.BlockError k.Item)
  block_then_run future t = run_rest (k.block_on future t)

  unfoldable pub block_on_all : k.Block → Call (Here k) (Result k.BlockError k.Item)
  block_on_all future t = scope (block_then_run future) t

  unfoldable pub turn : Option ℕ → Call (Here k) (Result k.TurnError k.Turn)
  turn duration t = scope (k.turn duration) t
