-- ===== src/Runtime/Tests.antt =====
-- The theorems about a runtime at a concrete one: its executor is the list of the tasks that it has
-- not run, each a number, and runs them all at once. Task 7 panics.
use rust_io_uring.Prelude.{
  ℕ, ◌≡◌, ◌↔◌, refl, Bool, true, false, List, [], ◌∷◌, none, some, Result, ok, ◌==◌, if◌then◌else◌,
}
use rust_io_uring.Reactor.Handle.{Reactor}
use rust_io_uring.Runtime.{left_with, unwound, Thread, Call, Tokio, Here, current_reactor_handle}
use rust_io_uring.Runtime.Calls.{block_on_all}
use rust_io_uring.Runtime.Calls.Reset.{running, blocking_on, spawning, after, after-reset}
use rust_io_uring.Runtime.Calls.Blocking.{inside, block_on_all_iff}

abbrev has : List ℕ → ℕ → Bool
has [] n = false
has (m ∷ ms) n = if m == n then true else has ms n

abbrev tasks_run : Call (Thread (Reactor × List ℕ) Bool) (Result ℕ (Unit {0}))
tasks_run t =
    if has t.executor.1 7
    then (t, unwound)
    else (record t { executor = (t.executor.0, []) }, left_with (ok tt))

abbrev toy : Tokio
toy = record {
  Executor = Reactor × List ℕ;
  Timer = Reactor;
  TimerHandle = ℕ;
  Rest = Bool;
  Future = ℕ;
  Block = ℕ;
  Item = ℕ;
  BlockError = ℕ;
  RunError = ℕ;
  RunTimeoutError = ℕ;
  Turn = ℕ;
  TurnError = ℕ;
  new_timer = λ r. r;
  reactor_of = λ r. r;
  handle_of = λ r. r.inner;
  new_with_park = λ r. (r, []);
  get_park = λ x. x.0;
  push = λ future x. (x.0, future ∷ x.1);
  idle = λ x. has x.1 7;
  enter = λ b. if b then none else some true;
  leave = λ b. false;
  with_timer = λ h f t. f t;
  run = tasks_run;
  run_timeout = λ duration. tasks_run;
  block_on = λ n t. (t, left_with (ok n));
  turn = λ duration t. (t, left_with (ok 0));
}

abbrev before_all : Here toy
before_all = record {
  current_reactor = none;
  executor = (record { inner = 64 }, 3 ∷ []);
  rest = false;
}

after-reset_example :
    (current_reactor_handle
      (after toy (running ∷ spawning 7 ∷ blocking_on 5 ∷ running ∷ []) before_all)).1
    ≡ left_with none
after-reset_example =
    after-reset toy (running ∷ spawning 7 ∷ blocking_on 5 ∷ running ∷ []) before_all refl

block_on_all_iff_example : ((block_on_all toy 5 before_all).1 ≡ left_with (ok 5)) ↔ (
    (u v : Here toy) × (toy.block_on 5 (inside toy true before_all) ≡ (u, left_with (ok 5)))
    × (toy.run u ≡ (v, left_with (ok tt))))
block_on_all_iff_example =
    block_on_all_iff toy before_all true true (λ r. r) refl (λ A f. refl) 5 (ok 5)
