-- ===== src/Reactor/World/Deliver.antt =====
-- The way of a completion from the ring to the future that waits for it.
use rust_io_uring.Prelude.{
  ℕ, ◌≤◌, ◌<◌, ◌≡◌, inl, inr, ◌∙◌, ap, false, List, Option, none, some, arith, count, count_self,
  returned, length, bit_and, false,
}
use rust_io_uring.Sys.Entry.{CompletionEntry}
use rust_io_uring.Ring.Completion.{available}
use rust_io_uring.Reactor.Registration.{CompatWaker, UringResult, Shared, wake, ready}
use rust_io_uring.Reactor.Registration
use rust_io_uring.Reactor.State.{store, release}
use rust_io_uring.Reactor.State.InFlight.{InFlight, Remove}
use rust_io_uring.Reactor.State.Tokens.{count-Remove, count-tokens_even, op_there, Live-AllEven}
use rust_io_uring.Reactor.State.Complete.{finish}
use rust_io_uring.Reactor.Turn.Drain.{nonempty, drain_among}
use rust_io_uring.Reactor.Turn.Honest.{keys, keys-CompletesAll}
use rust_io_uring.Reactor.Queue.{Inner}
use rust_io_uring.Reactor.Turn.{check_completions}
use rust_io_uring.Reactor.Transfer.{Context, poll, pending_at, closed, outcome, settle}
use rust_io_uring.Reactor.World.{World}
use rust_io_uring.Reactor.World.Good.{Good}
use rust_io_uring.Reactor.World.Futures.{waiting_cell, release-some, release-none}
use rust_io_uring.Reactor.World.Way.{Among, Each-own, Live-count, Way, Delivered, Keeps-Way}

module _ {T F : Type 0} {k l : ℕ} (w : World T F) {g : InFlight} (good : Good k l w g) (a : ℕ)
    (even : bit_and a 1 ≡ 0) (futures : List ℕ) (waits : Remove a w.futures futures)
    (answered : 1 ≤ count a (keys (available w.reactor.cq))) where
  in_flight_once : count a g.ops ≡ 1
  in_flight_once = omega (
    arith,
    op_there a g even (omega (arith, answered, good.balance a)),
    Live-count w.reactor.completion_state.heap a g.ops good.sound.inv.live,
  )

  -- The cell of a future whose completion is in the ring.
  pub waiting_lem :
      (c : Shared (Context T F)) × (d : Context T F) × (w.reactor.completion_state.heap a ≡ some c)
      × (c.inner.payload ≡ some d)
      × (c.strong ≡ 2)
  waiting_lem =
      let (c, at, strong, (d, payload)) = waiting_cell w good a futures waits in
      (
        c,
        d,
        at,
        payload,
        omega (arith, strong, in_flight_once, good.single a, count-Remove waits a, count_self a),
      )

  -- All completions of the ring are handled, and among them the one of this future.
  pub delivered_lem :
      (c : Shared (Context T F))
      → w.reactor.completion_state.heap a ≡ some c
      → (fuel : ℕ) → length (available w.reactor.cq) < fuel
      → (i : Inner (Context T F)) × (h : InFlight) × (check_completions false fuel w.reactor
          ≡ returned (i, nonempty (available w.reactor.cq)))
        × Delivered false (available w.reactor.cq) a c i.completion_state h
  delivered_lem c at fuel lt =
      let cs : List CompletionEntry = available w.reactor.cq in
      let (h, x, less) =
        keys-CompletesAll cs g
          (Live-AllEven w.reactor.completion_state.heap g.ops good.sound.inv.live)
          (λ u. omega (arith, good.balance u)) in
      let (q, t, e, _, _, (inv, on)) =
        drain_among false (Among cs) (Way false cs a c) (Keeps-Way false cs a c) {k = l} fuel
          w.reactor good.cring (good.sound.inv, inl (in_flight_once, at)) (Each-own cs) x lt in
      (
        record w.reactor { cq = q; completion_state = t },
        h,
        e,
        elim on [
          | inr done ↦ done
          | inl waiting ↦ absurd (
              omega (
                arith,
                answered,
                in_flight_once,
                waiting.0,
                less a,
                count-tokens_even a g even,
                count-tokens_even a h even,
              ))
        ],
      )

  -- A poll of a future whose operation has finished.
  pub poll_finished :
      (x : CompatWaker) (h : ℕ → Option (Shared (Context T F))) (c : Shared (Context T F))
      (d : Context T F) (r : UringResult)
      → c.strong ≡ 2
      → c.inner.payload ≡ some d
      → h a ≡ release (finish false r c)
      → poll x (pending_at a) h ≡ returned (closed, store h a none, ready (outcome r.result d))
  unfolding poll Registration.poll settle
  poll_finished x h c d r two payload at =
      rw (at ∙ release-some (finish false r c) (omega (arith, two)), payload, poll)
        (ap (λ o. returned (closed, store h a o, ready (outcome r.result d)))
          (release-none _ (omega (arith, two))))
