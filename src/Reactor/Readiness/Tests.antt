-- ===== src/Reactor/Readiness/Tests.antt =====
-- The theorems about the stream at a listener whose registration lies at address 8.
use rust_io_uring.Prelude.{
  ℕ, ◌≡◌, ◌⊎◌, refl, arith, pos, true, false, [], ◌∷◌, some, none, ok, err, returned,
}
use rust_io_uring.Ring.Submission.Tests.{idle_ring, idle_ring-IsValid}
use rust_io_uring.Ring.Completion.{CompletionQueue}
use rust_io_uring.Reactor.Registration.{empty, old, UringResult, Shared, not_ready}
use rust_io_uring.Reactor.Park
use rust_io_uring.Reactor.State.{CompletionState, store}
use rust_io_uring.Reactor.State.InFlight.{InFlight, Inv, here, store_same}
use rust_io_uring.Reactor.Queue.{Inner, disarmed, submission_queue_full}
use rust_io_uring.Reactor.Registration.{ready}
use rust_io_uring.Reactor.Readiness.{AsyncPoll, arm}
use rust_io_uring.Reactor.Readiness.Arm.{idle, busy, Armed, Declined, arm_lem}
use rust_io_uring.Reactor.Readiness.Item.{item, item_lem}

abbrev readable : UringResult
readable = record { result = pos 1; flags = 0 }

abbrev resting : UringResult
resting = record { result = pos 0; flags = 0 }

abbrev listener : AsyncPoll
listener = record { fd = pos 5; active = false; flags = 1; address = 8 }

abbrev no_completions : CompletionQueue
no_completions = record {
  k_head = 0;
  local_head = 0;
  k_tail = 0;
  cached_tail = 0;
  ring_mask = 1;
  k_overflow = 0;
  k_cqes = [];
}

abbrev state_with : ℕ → Shared (Unit {0}) → CompletionState (Unit {0})
state_with n c = record {
  requeue_timer = false;
  timer_pending = false;
  requeue_park = true;
  active_wait = n;
  park = Park.new;
  heap = store (λ _. none) 8 (some c);
  woken = [];
}

abbrev reactor_with : ℕ → Shared (Unit {0}) → Inner (Unit {0})
reactor_with n c = record {
  sq = idle_ring;
  cq = no_completions;
  completion_state = state_with n c;
  timer_fd = pos 3;
  park_fd = pos 4;
  timer = disarmed;
}

abbrev only_timer : InFlight
only_timer = record { timer_out = true; park_out = false; ops = [] }

only_timer-Inv : Inv (state_with 1 (idle resting empty)) only_timer
only_timer-Inv = record { counted = refl; timer_known = refl; park_known = refl; live = tt }

arm_lem_example :
    (j : Inner (Unit {0})) × (((arm true (old 1) listener (reactor_with 1 (idle resting empty))
          ≡ returned (record listener { active = true }, j, ok not_ready))
        × Armed 1 (old 1) resting listener only_timer (reactor_with 1 (idle resting empty)) j)
      ⊎ ((arm true (old 1) listener (reactor_with 1 (idle resting empty))
            ≡ returned (listener, j, err submission_queue_full))
          × Declined 1
              (idle resting empty)
              listener
              only_timer
              (reactor_with 1 (idle resting empty))
              j))
arm_lem_example =
    arm_lem (old 1) empty resting listener (reactor_with 1 (idle resting empty)) only_timer
      idle_ring-IsValid only_timer-Inv (store_same (λ _. none) 8 (some (idle resting empty)))
      (λ e. omega arith) refl tt

abbrev timer_and_listener : InFlight
timer_and_listener = record only_timer { ops = 8 ∷ [] }

timer_and_listener-Inv : Inv (state_with 2 (busy resting (old 1))) timer_and_listener
timer_and_listener-Inv = record {
  counted = refl;
  timer_known = refl;
  park_known = refl;
  live = (
    record {
      cell = busy resting (old 1);
      nonzero = λ e. omega arith;
      even = refl;
      at = store_same (λ _. none) 8 (some (busy resting (old 1)));
      unfinished = refl;
      owned = omega arith;
    },
    tt,
    tt,
  );
}

item_lem_example :
    (j : Inner (Unit {0})) × (item true
        (old 2)
        readable
        (record listener { active = true })
        (reactor_with 2 (busy resting (old 1)))
      ≡ returned (listener, j, ok (ready 1)))
    × (j.completion_state.heap 8 ≡ some (idle readable empty))
    × (j.completion_state.woken ≡ old 1 ∷ [])
item_lem_example =
    item_lem true (old 2) (old 1) readable resting (record listener { active = true })
      (reactor_with 2 (busy resting (old 1))) timer_and_listener [] refl timer_and_listener-Inv here
      (store_same (λ _. none) 8 (some (busy resting (old 1)))) (λ e. omega arith) refl
