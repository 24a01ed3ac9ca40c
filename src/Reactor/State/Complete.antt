-- ===== src/Reactor/State/Complete.antt =====
-- `handle_completion` on the completions that may come.
use rust_io_uring.Prelude.{
  ℕ, ◌+◌, ◌≡◌, ◌≢◌, refl, ap, Bool, true, false, List, ◌++◌, length, arith, ◌==◌, returned,
}
use rust_io_uring.Reactor.Registration.{UringResult, Inner, Shared, notify, wake}
use rust_io_uring.Reactor.Park.{clear_event}
use rust_io_uring.Reactor.State.{
  CompletionState, store, release, decrement, notify_at, special_event, handle_completion,
}
use rust_io_uring.Reactor.State.InFlight.{
  InFlight, Inv, InProgress, Remove, Completes, detached, timer, park, op, one_if, length-Remove,
  Live-Remove, Live-store,
}

decrement_suc : (checks : Bool) (n m : ℕ) → n ≡ m + 1 → decrement checks n ≡ returned m
unfolding decrement
decrement_suc checks n m e = ground arith

eq_zero-false : (u : ℕ) → u ≢ 0 → (u == 0) ≡ false
eq_zero-false u h = ground arith

notify_unfinished :
    {D : Type 0} (r : UringResult) (i : Inner D)
    → i.finished ≡ false
    → notify r i
      ≡ returned
          (record i { finished = true; result = r; waker = (wake i.waker).0 }, (wake i.waker).1)
unfolding notify
notify_unfinished r i e = rw e refl

module _ {D : Type 0} (checks : Bool) (r : UringResult) where
  -- The cell after its completion, before the raw registration goes.
  abbrev pub finish : Shared D → Shared D
  finish c = record c {
    inner = record c.inner { finished = true; result = r; waker = (wake c.inner.waker).0 };
  }

  abbrev pub delivered : ℕ → ℕ → Shared D → CompletionState D → CompletionState D
  delivered u m c s = record s {
    active_wait = m;
    heap = store s.heap u (release (finish c));
    woken = s.woken ++ (wake c.inner.waker).1;
  }

  -- A completion of an operation in flight finishes its cell, wakes the task that waits there and
  -- drops the kernel's copy.
  pub handle_op :
      (u m : ℕ) (s : CompletionState D) (p : InProgress s.heap u)
      → s.active_wait ≡ m + 1
      → handle_completion checks u r s ≡ returned (delivered u m p.cell s)
  unfolding handle_completion notify_at
  handle_op u m s p e =
      rw
        (
          decrement_suc checks s.active_wait m e,
          p.at,
          p.even,
          eq_zero-false u p.nonzero,
          notify_unfinished r p.cell.inner p.unfinished,
        )
        refl

  pub handle_timer :
      (m : ℕ) (s : CompletionState D)
      → s.active_wait ≡ m + 1
      → handle_completion checks 1 r s
        ≡ returned (record s { active_wait = m; requeue_timer = true; timer_pending = true })
  unfolding handle_completion special_event
  handle_timer m s e = rw (decrement_suc checks s.active_wait m e) refl

  pub handle_park :
      (m : ℕ) (s : CompletionState D)
      → s.active_wait ≡ m + 1
      → handle_completion checks 3 r s
        ≡ returned (record s { active_wait = m; requeue_park = true; park = clear_event s.park })
  unfolding handle_completion special_event
  handle_park m s e = rw (decrement_suc checks s.active_wait m e) refl

  module _ (s : CompletionState D) (f : InFlight) (v : Inv s f) where
    abbrev Settled : ℕ → InFlight → Type 0
    Settled u g = (t : CompletionState D) × (handle_completion checks u r s ≡ returned t) × Inv t g

    Settled-detached : Settled 0 f
    unfolding handle_completion
    Settled-detached = (s, refl, v)

    Settled-timer : f.timer_out ≡ true → Settled 1 (record f { timer_out = false })
    Settled-timer e = (
      _,
      handle_timer (length f.ops + one_if f.park_out) s count,
      record {
        counted = omega arith;
        timer_known = refl;
        park_known = v.park_known;
        live = v.live;
      },
    )
      where
        count : s.active_wait ≡ length f.ops + one_if f.park_out + 1
        count = omega (arith, v.counted, ap one_if e)

    Settled-park : f.park_out ≡ true → Settled 3 (record f { park_out = false })
    Settled-park e = (
      _,
      handle_park (length f.ops + one_if f.timer_out) s count,
      record {
        counted = omega arith;
        timer_known = v.timer_known;
        park_known = refl;
        live = v.live;
      },
    )
      where
        count : s.active_wait ≡ length f.ops + one_if f.timer_out + 1
        count = omega (arith, v.counted, ap one_if e)

    Settled-op : (u : ℕ) (vs : List ℕ) → Remove u f.ops vs → Settled u (record f { ops = vs })
    Settled-op u vs x =
        let (p, gone, rest) = Live-Remove x v.live in
        let m : ℕ = length vs + one_if f.timer_out + one_if f.park_out in
        let count : s.active_wait ≡ m + 1 = omega (arith, v.counted, length-Remove x) in
        (
          _,
          handle_op u m s p count,
          record {
            counted = refl;
            timer_known = v.timer_known;
            park_known = v.park_known;
            live = Live-store s.heap u (release (finish p.cell)) vs gone rest;
          },
        )

    -- Every completion that may come is handled: the call returns, in a build with overflow checks
    -- or without them, and afterwards `active_wait`, the two requeue flags and the cells on the heap
    -- agree with what is still in flight. It neither panics nor touches a cell that is gone.
    pub completion_safe :
        (user_data : ℕ) (g : InFlight)
        → Completes f user_data g
        → (t : CompletionState D) × (handle_completion checks user_data r s ≡ returned t) × Inv t g
    completion_safe _ _ detached = Settled-detached
    completion_safe _ _ (timer e) = Settled-timer e
    completion_safe _ _ (park e) = Settled-park e
    completion_safe _ _ (op {u = u} {vs = vs} x) = Settled-op u vs x
