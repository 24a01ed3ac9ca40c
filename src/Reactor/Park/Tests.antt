-- ===== src/Reactor/Park/Tests.antt =====
-- The theorems about parking at a state where an unpark comes in during the wait.
use rust_io_uring.Prelude.{refl, true}
use rust_io_uring.Reactor.Park.{
  swap_pending, store_entered, allow_wait, inside, System, swap, announce, decide, unparks, parks,
  init, Reach, start, later, resting, swapped, update,
}
use rust_io_uring.Reactor.Park.Wakeup.{WakesSoon, no_lost_wakeup}

abbrev blocked : System
blocked = record init { shared = store_entered init.shared; park = inside true }

blocked-Reach : Reach blocked
unfolding allow_wait store_entered
blocked-Reach = later (later start (parks (announce true refl))) (parks (decide true refl))

-- Thread 3 has set `pending` and not yet looked at `entered`.
abbrev called : System
called = record init {
  shared = record { pending = true; entered = true; pipe = 0 };
  park = inside true;
  unpark = update (λ _. resting) 3 swapped;
}

called-Reach : Reach called
unfolding swap_pending store_entered
called-Reach = later blocked-Reach (unparks 3 (swap refl))

no_lost_wakeup_example : WakesSoon called
no_lost_wakeup_example = no_lost_wakeup called-Reach refl refl refl
