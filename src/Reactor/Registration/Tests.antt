-- ===== src/Reactor/Registration/Tests.antt =====
-- The theorems about registrations at a future that two tasks poll.
use rust_io_uring.Prelude.{ℕ, ◌≡◌, pos, List, [], ◌∷◌, returned, panicked}
use rust_io_uring.Reactor.Registration.{
  CompatWaker, old, new_waker, UringResult, Inner, ready, new, notify, poll,
}
use rust_io_uring.Reactor.Registration.Once.{poll_all, none_ready, registration_once}

abbrev three : UringResult
three = record { result = pos 3; flags = 0 }

abbrev tasks : List CompatWaker
tasks = old 1 ∷ new_waker 2 ∷ []

registration_once_example :
    ((poll_all {T = ℕ} tasks (new 7)).1 ≡ none_ready {T = ℕ} tasks)
    × ((i : Inner ℕ) × (notify three (poll_all {T = ℕ} tasks (new 7)).0
          ≡ returned (i, new_waker 2 ∷ []))
        × ((poll (old 4) i).1 ≡ ready (three, 7))
        × ((poll_all tasks (poll (old 4) i).0).1 ≡ none_ready {T = ℕ} tasks)
        × ((r' : UringResult) → notify r' (poll_all tasks (poll (old 4) i).0).0 ≡ panicked))
registration_once_example = registration_once tasks 7 three (old 4) tasks
