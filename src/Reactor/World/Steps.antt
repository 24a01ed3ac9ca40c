-- ===== src/Reactor/World/Steps.antt =====
-- Every step keeps the invariant.
use rust_io_uring.Prelude.{ℕ, ◌≡◌, ap, subst, inl, inr, ℤ, List, Option, returned, Result}
use mathlib.Core.Bool.{false≢true}
use rust_io_uring.Sys.Fill.{Slice}
use rust_io_uring.Reactor.Registration.{CompatWaker, Shared, ready, not_ready}
use rust_io_uring.Reactor.State.InFlight.{InFlight, Remove}
use rust_io_uring.Reactor.Transfer.{Context, TransferError, pending_at, closed, poll}
use rust_io_uring.Reactor.World.{
  World, Step, begin, refuse, take, answer, lose, check, enter, leave, others, poll_again, finish,
  drop, with_heap, Reach, here, later,
}
use rust_io_uring.Reactor.World.Good.{Good, take-Good, answer-Good, lose-Good}
use rust_io_uring.Reactor.World.Turns.{
  returned_injective, check-Good, enter-Good, leave-Good, others-Good,
}
use rust_io_uring.Reactor.World.Futures.{is_ready, polled-Good, drop-Good}
use rust_io_uring.Reactor.World.Begin.{begin-Good, refuse-Good}

module _ {T F : Type 0} {k l : ℕ} (w : World T F) {g : InFlight} (good : Good k l w g) where
  poll_again-Good :
      (x : CompatWaker) (a : ℕ) (futures : List ℕ) (h : ℕ → Option (Shared (Context T F)))
      → Remove a w.futures futures
      → poll x (pending_at a) w.reactor.completion_state.heap
        ≡ returned (pending_at a, h, not_ready)
      → Good k l (record w { reactor = with_heap h w.reactor }) g
  poll_again-Good x a futures h r e = elim (polled-Good w good x a futures r) [
    | inl (h', e', better) ↦
        subst
          (λ (h : ℕ → Option (Shared (Context T F))).
            Good k l (record w { reactor = with_heap h w.reactor }) g)
          (ap (λ p. p.1) (returned_injective _ _ e' e)) better
    | inr (h', o, e', better) ↦
        absurd (false≢true (ap (λ p. is_ready p.2) (returned_injective _ _ e e')))
  ]

  finish-Good :
      (x : CompatWaker) (a : ℕ) (futures : List ℕ) (h : ℕ → Option (Shared (Context T F)))
      (o : Result (TransferError T F) (ℕ × T × F))
      → Remove a w.futures futures
      → poll x (pending_at a) w.reactor.completion_state.heap ≡ returned (closed, h, ready o)
      → Good k l (record w { reactor = with_heap h w.reactor; futures = futures }) g
  finish-Good x a futures h o r e = elim (polled-Good w good x a futures r) [
    | inl (h', e', better) ↦
        absurd (false≢true (ap (λ p. is_ready p.2) (returned_injective _ _ e' e)))
    | inr (h', o', e', better) ↦
        subst
          (λ (h : ℕ → Option (Shared (Context T F))).
            Good k l (record w { reactor = with_heap h w.reactor; futures = futures }) g)
          (ap (λ p. p.1) (returned_injective _ _ e' e)) better
  ]

module _ {T F : Type 0} (as_raw_fd : F → ℤ) (bytes : T → Slice) {k l : ℕ} where
  Step-Good :
      {w x : World T F}
      → Step as_raw_fd bytes w x
      → (g : InFlight) → Good k l w g
      → (h : InFlight) × Good k l x h
  Step-Good {w = w} (begin write a vec file offset buffer j nonzero even free e) g good =
      begin-Good w good a free as_raw_fd bytes vec file offset buffer nonzero even write j e
  Step-Good {w = w} (refuse write a vec file offset buffer j x nonzero even free e) g good =
      refuse-Good w good a free as_raw_fd bytes vec file offset buffer nonzero even write j x e
  Step-Good {w = w} (take ne) g good = (g, take-Good w good ne)
  Step-Good {w = w} (answer c held r room) g good = (g, answer-Good w good c held r room)
  Step-Good {w = w} (lose u held r) g good = (g, lose-Good w good u held r)
  Step-Good {w = w} (check fuel j received lt e) g good = check-Good w good fuel j received lt e
  Step-Good {w = w} (enter fuel wait timeout j n waits lt e) g good =
      enter-Good w good fuel wait timeout j n waits lt e
  Step-Good {w = w} leave g good = (g, leave-Good w good)
  Step-Good {w = w} (others shared) g good = (g, others-Good w good shared)
  Step-Good {w = w} (poll_again x a futures h r e) g good =
      (g, poll_again-Good w good x a futures h r e)
  Step-Good {w = w} (finish x a futures h o r e) g good =
      (g, finish-Good w good x a futures h o r e)
  Step-Good {w = w} (drop a futures c r at) g good = (g, drop-Good w good a futures c r at)

  pub Reach-Good :
      {v w : World T F}
      → Reach as_raw_fd bytes v w
      → (g : InFlight) → Good k l v g
      → (h : InFlight) × Good k l w h
  Reach-Good here g good = (g, good)
  Reach-Good (later r s) g good = let (h, better) = Reach-Good r g good in Step-Good s h better
