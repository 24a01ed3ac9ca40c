-- ===== src/Echo/Timeout/Tests.antt =====
-- The theorem about the time limit at an inner future that is ready at its third poll.
use rust_io_uring.Prelude.{ℕ, zero, suc, Result, ok, leb, if◌then◌else◌}
use rust_io_uring.Echo.Timeout.{Poll, pending, ready}

-- A future counts its polls down; a context is the time; a delay is its deadline.
abbrev count_down : ℕ → ℕ → ℕ × Poll (Result ℕ ℕ)
count_down now zero = (zero, ready (ok now))
count_down now (suc n) = (n, pending)

abbrev clock : ℕ → ℕ
clock now = now

abbrev new_delay : ℕ → ℕ
new_delay deadline = deadline

abbrev poll_delay : ℕ → ℕ → ℕ × Poll (Result ℕ (Unit {0}))
poll_delay now deadline = (deadline, if leb deadline now then ready (ok tt) else pending)
