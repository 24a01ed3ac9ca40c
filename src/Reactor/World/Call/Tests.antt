-- ===== src/Reactor/World/Call/Tests.antt =====
-- A whole turn of a reactor with a read that it has not yet given to the kernel, which takes at most
-- one entry during a call.
use rust_io_uring.Prelude.{
  ℕ, sym, ◌∙◌, inl, inr, Bool-cases, arith, ℤ, false, List, [], Result, ok, ◌==◌, ==_iff,
  if◌then◌else◌,
}
use mathlib.Core.Bool.{false≢true}
use rust_io_uring.Reactor.Queue.{Inner, IoError}
use rust_io_uring.Reactor.Turn.{park, park_timeout}
use rust_io_uring.Reactor.Transfer.{Context}
use rust_io_uring.Reactor.World.{Reach, take_entry}
use rust_io_uring.Reactor.World.Tests.{as_raw_fd, bytes, new_world-IsFresh, reading, reading-Reach}
use rust_io_uring.Reactor.World.Call.{Acts, idle, also, takes, Safely}
use rust_io_uring.Reactor.World.Safety.{park_safe}

abbrev take_one : ℕ → ℕ → ℕ → Inner (Context ℕ ℤ) → Inner (Context ℕ ℤ) × Result IoError ℕ
take_one n m flags j = if j.sq.k_head == j.sq.k_tail then (j, ok 0) else (take_entry j, ok 1)

takes_one :
    (n m flags : ℕ) (j : Inner (Context ℕ ℤ))
    → Reach as_raw_fd bytes reading (record reading { reactor = j })
    → (held : List ℕ) × Acts
        (record reading { reactor = j })
        (record reading { reactor = (take_one n m flags j).0; held = held })
takes_one n m flags j _ = elim (Bool-cases (j.sq.k_head == j.sq.k_tail)) [
  | inl e ↦ rw e ([], idle)
  | inr e ↦
      rw e (
        _,
        also idle (takes (λ same. false≢true (sym e ∙ (==_iff j.sq.k_head j.sq.k_tail).1 same))),
      )
]

park_safe_example :
    Safely take_one as_raw_fd bytes reading (park take_one false 3 reading.reactor)
    × ((duration : ℕ)
        → Safely take_one as_raw_fd bytes reading
            (park_timeout take_one false 3 duration reading.reactor))
park_safe_example =
    park_safe as_raw_fd bytes {k = 1} {l = 1} new_world-IsFresh reading-Reach take_one takes_one 3
      (omega arith)
