-- ===== src/Echo/Timeout/Limit.antt =====
-- A future with a time limit against the future and the clock.
use rust_io_uring.Prelude.{
  ℕ, ◌≡◌, List, [], ◌∷◌, Option, none, some, Result, ok, err, leb, if◌then◌else◌,
}
use rust_io_uring.Echo.Timeout.{
  Poll, pending, ready, TimeoutError, timed_out, Timeout, map_inner, run,
}

module _ {T C E X I : Type 0} (poll_inner : C → T → T × Poll (Result E I)) (now : C → ℕ) where
  -- What comes first: the result of the inner future, or a poll at or after the deadline at which it is
  -- not ready.
  unfoldable pub first_of : ℕ → List C → T → Option (Result (TimeoutError E X) I)
  first_of deadline [] inner = none
  first_of deadline (c ∷ cs) inner =
      (let (inner', result) = poll_inner c inner in
        let rest = first_of deadline cs inner' in
        elim result [
          | ready r ↦ some (map_inner r)
          | pending ↦ if leb deadline (now c) then some (err timed_out) else rest
        ])

  module _ {D : Type 0} (new_delay : ℕ → D) (poll_delay : C → D → D × Poll (Result X (Unit {0})))
      (Until : ℕ → D → Type 0) (new_until : (deadline : ℕ) → Until deadline (new_delay deadline))
      (still_until : (c : C) (deadline : ℕ) (d : D)
        → Until deadline d
        → Until deadline (poll_delay c d).0)
      (fires : (c : C) (deadline : ℕ) (d : D)
        → Until deadline d
        → (poll_delay c d).1 ≡ (if leb deadline (now c) then ready (ok tt) else pending)) where
    abbrev run_with : List C → Timeout T D → Option (Result (TimeoutError E X) I)
    run_with = run poll_inner now new_delay poll_delay
