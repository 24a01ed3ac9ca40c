-- ===== src/Reactor/World/Effect.antt =====
-- What a completion changes (`handle_completion` of tokio-uring-reactor/src/reactor.rs).
use rust_io_uring.Prelude.{
  ℕ, ◌+◌, ◌≡◌, ◌⊎◌, inl, inr, refl, ap, subst, Bool, ◌++◌, arith, returned, length,
}
use rust_io_uring.Reactor.Registration.{UringResult, wake}
use rust_io_uring.Reactor.State.{CompletionState, store, release, handle_completion}
use rust_io_uring.Reactor.State.InFlight.{
  InFlight, Inv, InProgress, Remove, Completes, detached, timer, park, op, one_if, NotIn,
  Live-Remove, length-Remove,
}
use rust_io_uring.Reactor.State.Complete.{
  completion_safe, handle_op, handle_timer, handle_park, finish,
}
use rust_io_uring.Reactor.World.Turns.{returned_injective}

module _ {D : Type 0} (checks : Bool) where
  -- What a completion does to the heap and to the wakers, and what it takes from what is in flight.
  unfoldable pub Effect :
      ℕ → UringResult → CompletionState D → InFlight → CompletionState D → InFlight → Type 0
  Effect u r s f t g =
      ((t.heap ≡ s.heap) × (t.woken ≡ s.woken) × (g.ops ≡ f.ops))
      ⊎ ((p : InProgress s.heap u) × (t.heap ≡ store s.heap u (release (finish checks r p.cell)))
          × (t.woken ≡ s.woken ++ (wake p.cell.inner.waker).1)
          × Remove u f.ops g.ops
          × NotIn u g.ops)

  module _ (s : CompletionState D) (f g : InFlight) (r : UringResult) (v : Inv s f) where
    unfoldable pub Effected : ℕ → Type 0
    Effected u =
        (t : CompletionState D) × (handle_completion checks u r s ≡ returned t)
        × Inv t g
        × Effect u r s f t g

    -- A completion that comes to a known state keeps the counters there.
    known :
        (u : ℕ) (t' : CompletionState D)
        → Completes f u g
        → handle_completion checks u r s ≡ returned t'
        → Effect u r s f t' g
        → Effected u
    unfolding Effected
    known u t' x e' effect =
        let (t, e, w) = completion_safe checks r s f v u g x in
        (t', e', subst (λ t. Inv t g) (returned_injective t t' e e') w, effect)

  pub effect_lem :
      (s : CompletionState D) (f g : InFlight) (u : ℕ) (r : UringResult) (v : Inv s f)
      → Completes f u g
      → Effected s f g r v u
  unfolding Effect handle_completion
  effect_lem s f _ _ r v detached = known s f f r v 0 s detached refl (inl (refl, refl, refl))
  effect_lem s f _ _ r v (timer out) =
      known s f _ r v 1 _ (timer out)
        (handle_timer checks r (length f.ops + one_if f.park_out) s
          (omega (arith, v.counted, ap one_if out)))
        (inl (refl, refl, refl))
  effect_lem s f _ _ r v (park out) =
      known s f _ r v 3 _ (park out)
        (handle_park checks r (length f.ops + one_if f.timer_out) s
          (omega (arith, v.counted, ap one_if out)))
        (inl (refl, refl, refl))
  effect_lem s f _ _ r v (op {u = u} {vs = vs} x) =
      let (p, gone, _) = Live-Remove x v.live in
      let m : ℕ = length vs + one_if f.timer_out + one_if f.park_out in
      known s f _ r v u _ (op x)
        (handle_op checks r u m s p (omega (arith, v.counted, length-Remove x)))
        (inr (p, refl, refl, x, gone))
