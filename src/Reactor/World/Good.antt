-- ===== src/Reactor/World/Good.antt =====
-- The invariant of the reactor among its futures and the kernel, and that the kernel's steps keep it.
use rust_io_uring.Prelude.{
  ℕ, ◌+◌, ◌≤◌, ◌<◌, ◌≢◌, ap, List, ◌∷◌, Option, length, arith, count, wrapping_sub,
}
use rust_io_uring.Sys.Entry.{CompletionEntry}
use rust_io_uring.Ring.Submission.{pending, entry_at}
use rust_io_uring.Ring.Submission.Kernel.{taken-IsValid, pending-taken}
use rust_io_uring.Ring.Completion.{available}
use rust_io_uring.Ring.Completion.Valid
use rust_io_uring.Ring.Completion.Kernel.{
  posted, overflowed, posted-IsValid, available-posted, overflowed-IsValid, available-overflowed,
}
use rust_io_uring.Reactor.Registration.{Shared}
use rust_io_uring.Reactor.Park
use rust_io_uring.Reactor.State.{CompletionState}
use rust_io_uring.Reactor.State.InFlight.{InFlight, Inv, Live, Remove}
use rust_io_uring.Reactor.State.Tokens.{tokens, count-Remove}
use rust_io_uring.Reactor.Turn.Extends.{entry_keys}
use rust_io_uring.Reactor.Turn.Honest.{keys, count-keys_snoc}
use rust_io_uring.Reactor.Turn.Sound.{Sound}
use rust_io_uring.Reactor.Transfer.{Context}
use rust_io_uring.Reactor.World.{World, take_entry}
use rust_io_uring.Reactor.World.Owners.{Owners}

module _ {T F : Type 0} where
  -- How often `u` waits in the submission ring, is with the kernel, or waits in the completion ring.
  abbrev pub outstanding : ℕ → World T F → ℕ
  outstanding u w =
      count u (entry_keys (pending w.reactor.sq))
      + count u w.held
      + count u (keys (available w.reactor.cq))

  -- The rings and counters are sound, each cell has its owners, and nothing is on its way that is not
  -- in flight.
  pub record Good (k l : ℕ) (w : World T F) (g : InFlight) : Type 0 where
    pub sound : Sound k w.reactor g
    pub cring : Valid.IsValid l w.reactor.cq
    pub owners : Owners w.reactor.completion_state.heap w.futures g.ops
    pub balance : (u : ℕ) → outstanding u w ≤ count u (tokens g)
    pub single : (a : ℕ) → count a w.futures ≤ 1

  pub Inv-park :
      {s : CompletionState (Context T F)} {g : InFlight} (p : Park.Shared)
      → Inv s g
      → Inv (record s { park = p }) g
  Inv-park p v = record {
    counted = v.counted;
    timer_known = v.timer_known;
    park_known = v.park_known;
    live = v.live;
  }

  pub Inv-heap :
      {s : CompletionState (Context T F)} {g : InFlight} (h : ℕ → Option (Shared (Context T F)))
      → Inv s g
      → Live h g.ops
      → Inv (record s { heap = h }) g
  Inv-heap h v live = record {
    counted = v.counted;
    timer_known = v.timer_known;
    park_known = v.park_known;
    live = live;
  }

  module _ {k l : ℕ} (w : World T F) {g : InFlight} (good : Good k l w g) where
    pub take-Good :
        w.reactor.sq.k_head ≢ w.reactor.sq.k_tail
        → Good k l
            (record w {
              reactor = take_entry w.reactor;
              held = (entry_at w.reactor.sq w.reactor.sq.k_head).user_data ∷ w.held;
            })
            g
    take-Good ne = record {
      sound = record { ring = taken-IsValid ne good.sound.ring; inv = good.sound.inv };
      cring = good.cring;
      owners = good.owners;
      balance = λ u. omega (
        arith,
        good.balance u,
        ap (λ es. count u (entry_keys es)) (pending-taken ne good.sound.ring),
      );
      single = good.single;
    }

    pub answer-Good :
        (c : CompletionEntry) (held : List ℕ)
        → Remove c.user_data w.held held
        → wrapping_sub w.reactor.cq.k_tail w.reactor.cq.k_head < length w.reactor.cq.k_cqes
        → Good k l
            (record w { reactor = record w.reactor { cq = posted c w.reactor.cq }; held = held })
            g
    answer-Good c held r room = record {
      sound = record { ring = good.sound.ring; inv = good.sound.inv };
      cring = posted-IsValid good.cring c room;
      owners = good.owners;
      balance = λ u. omega (
        arith,
        good.balance u,
        count-Remove r u,
        ap (λ cs. count u (keys cs)) (available-posted good.cring c room),
        count-keys_snoc u (available w.reactor.cq) c,
      );
      single = good.single;
    }

    pub lose-Good :
        (v : ℕ) (held : List ℕ)
        → Remove v w.held held
        → Good k l
            (record w { reactor = record w.reactor { cq = overflowed w.reactor.cq }; held = held })
            g
    lose-Good v held r = record {
      sound = record { ring = good.sound.ring; inv = good.sound.inv };
      cring = overflowed-IsValid good.cring;
      owners = good.owners;
      balance = λ u. omega (
        arith,
        good.balance u,
        count-Remove r u,
        ap (λ cs. count u (keys cs)) (available-overflowed w.reactor.cq),
      );
      single = good.single;
    }
