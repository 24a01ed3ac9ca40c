-- ===== src/Runtime/Calls/Reset.antt =====
-- `CURRENT_REACTOR` around the calls of a runtime.
use rust_io_uring.Prelude.{ℕ, ◌≡◌, refl, ap, List, [], ◌∷◌, Option, none, Option-cases, inl, inr}
use rust_io_uring.Runtime.{
  left_with, current_reactor_handle, Call, Tokio, Here, reset, with_reactor_handle, spawn,
}
use rust_io_uring.Runtime.Entered
use rust_io_uring.Runtime.Entered.{scope}
use rust_io_uring.Runtime.Calls.{entered, run, run_timeout, block_on_all, turn}

-- A call on a runtime that changes its thread.
pub data Use (k : Tokio) : Type 0 where
  spawning : k.Future → Use k
  running : Use k
  running_for : ℕ → Use k
  blocking_on : k.Block → Use k
  turning : Option ℕ → Use k

-- The thread after calls one after the other, of which those that panic are caught.
pub after : (k : Tokio) → List (Use k) → Here k → Here k
after k [] t = t
after k (spawning future ∷ us) t = after k us (spawn k future t)
after k (running ∷ us) t = after k us (run k t).0
after k (running_for duration ∷ us) t = after k us (run_timeout k duration t).0
after k (blocking_on future ∷ us) t = after k us (block_on_all k future t).0
after k (turning duration ∷ us) t = after k us (turn k duration t).0

module _ (k : Tokio) where
  scope-reset :
      {A : Type 0} (f : Call (Here k) A) (t : Here k) → (scope k f t).0.current_reactor ≡ none
  unfolding scope with_reactor_handle reset
  scope-reset f t = refl

  -- Outside of the call the handle is `none`, and so it is behind it.
  entered-reset :
      {A : Type 0} (f : Call (Here k) A)
      → ((t : Here k) → (f t).0.current_reactor ≡ none)
      → (t : Here k) → t.current_reactor ≡ none
      → (entered k f t).0.current_reactor ≡ none
  unfolding entered
  entered-reset f clean t e = elim (Option-cases (k.enter t.rest)) [
    | inl x ↦ rw (x, entered) e
    | inr (r, x) ↦ rw (x, entered) (clean (record t { rest = r }))
  ]

-- A thread that does not run a runtime has no current reactor handle, and has none after any calls of a
-- runtime one after the other, whether they return or panic, and whatever they run.
pub after-reset :
    (k : Tokio) (us : List (Use k)) (t : Here k)
    → t.current_reactor ≡ none
    → (current_reactor_handle (after k us t)).1 ≡ left_with none
unfolding current_reactor_handle spawn run run_timeout block_on_all turn Entered.run
    Entered.run_timeout Entered.block_on_all Entered.turn after
after-reset k [] t e = ap left_with e
after-reset k (spawning future ∷ us) t e = after-reset k us (spawn k future t) e
after-reset k (running ∷ us) t e =
    after-reset k us (run k t).0 (entered-reset k (Entered.run k) (scope-reset k k.run) t e)
after-reset k (running_for duration ∷ us) t e =
    after-reset k us (run_timeout k duration t).0 (
      entered-reset k (Entered.run_timeout k duration) (scope-reset k (k.run_timeout duration)) t e)
after-reset k (blocking_on future ∷ us) t e = after-reset k us (block_on_all k future t).0 (
    entered-reset k (Entered.block_on_all k future)
      (scope-reset k (Entered.block_then_run k future)) t e)
after-reset k (turning duration ∷ us) t e =
    after-reset k us (turn k duration t).0
      (entered-reset k (Entered.turn k duration) (scope-reset k (k.turn duration)) t e)
