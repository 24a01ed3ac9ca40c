-- ===== src/Echo/Timeout.antt =====
-- echo-async/src/timeout.rs: a future with a time limit. The inner future and tokio's `Delay` are
-- parameters: how each is polled, in a context `C` that has the clock. A time is a number of
-- nanoseconds.
pub mod Limit
mod Tests
use rust_io_uring.Prelude.{ℕ, ◌+◌, List, [], ◌∷◌, Option, none, some, Result, ok, err}

-- `std::task::Poll`
pub data Poll (A : Type 0) : Type 0 where
  pending : Poll A
  ready : A → Poll A

pub data TimeoutError (E X : Type 0) : Type 0 where
  timed_out : TimeoutError E X
  inner_error : E → TimeoutError E X
  timer_error : X → TimeoutError E X

pub record Timeout (T D : Type 0) : Type 0 where
  pub timeout : ℕ
  pub delay : Option D
  pub inner : T

-- `r.map_err(TimeoutError::Inner)`
unfoldable pub map_inner : {E X I : Type 0} → Result E I → Result (TimeoutError E X) I
map_inner (ok a) = ok a
map_inner (err e) = err (inner_error e)

-- `Timeout::new` and `TryFutureExt::timeout`
unfoldable pub new_timeout : {T D : Type 0} → T → ℕ → Timeout T D
new_timeout inner timeout = record { timeout = timeout; delay = none; inner = inner }

module _ {T D C E X I : Type 0} (poll_inner : C → T → T × Poll (Result E I)) (now : C → ℕ)
    (new_delay : ℕ → D) (poll_delay : C → D → D × Poll (Result X (Unit {0}))) where
  -- The delay that there is, or a new one.
  unfoldable pub armed : C → Timeout T D → D
  armed c t = elim t.delay [ some d ↦ d | none ↦ new_delay (now c + t.timeout) ]

  -- `poll` after the inner future was not ready.
  unfoldable pub poll_limit : C → Timeout T D → Timeout T D × Poll (Result (TimeoutError E X) I)
  poll_limit c t =
      let (d, limit) = poll_delay c (armed c t) in
      let t' : Timeout T D = record t { delay = some d } in
      elim limit [
        | pending ↦ (t', pending)
        | ready (ok _) ↦ (t', ready (err timed_out))
        | ready (err x) ↦ (t', ready (err (timer_error x)))
      ]

  -- `Timeout::poll`
  unfoldable pub poll_timeout : C → Timeout T D → Timeout T D × Poll (Result (TimeoutError E X) I)
  poll_timeout c t =
      let (inner', result) = poll_inner c t.inner in
      elim result [
        | pending ↦ poll_limit c (record t { inner = inner' })
        | ready r ↦ (record t { inner = inner'; delay = none }, ready (map_inner r))
      ]

  -- The polls of an executor, in one context after another, up to the first that is ready.
  unfoldable pub run : List C → Timeout T D → Option (Result (TimeoutError E X) I)
  run [] t = none
  run (c ∷ cs) t =
      (let (t', result) = poll_timeout c t in
        let rest = run cs t' in elim result [ ready r ↦ some r | pending ↦ rest ])
