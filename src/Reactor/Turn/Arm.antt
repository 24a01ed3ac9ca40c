-- ===== src/Reactor/Turn/Arm.antt =====
-- Arming the polls of the timer and of the park event.
use rust_io_uring.Prelude.{ℕ, ◌≡◌, ◌∙◌, true, inl, inr, Bool-cases}
use mathlib.Core.Bool.{false≢true}
use rust_io_uring.Reactor.State.InFlight.{InFlight}
use rust_io_uring.Reactor.Queue.{Inner}
use rust_io_uring.Reactor.Turn.{arm_timer, arm_all}
use rust_io_uring.Reactor.Turn.Extends.{Extends, Extends-trans}
use rust_io_uring.Reactor.Turn.Sound.{Sound}
use rust_io_uring.Reactor.Turn.ArmTimer.{arm_timer_lem}
use rust_io_uring.Reactor.Turn.ArmPark.{arm_park_lem}

module _ {D : Type 0} where
  -- `arm_all` keeps a sound state sound, and reports success only with both polls in flight.
  pub arm_all_lem :
      {k : ℕ} {g : InFlight} (i : Inner D)
      → Sound k i g
      → (h : InFlight) × Sound k (arm_all i).0 h
        × ((arm_all i).1 ≡ true → (h.timer_out ≡ true) × (h.park_out ≡ true))
        × Extends i g (arm_all i).0 h
  unfolding arm_all
  arm_all_lem {k = k} i s =
      let (g1, s1, armed, _, x1) = arm_timer_lem i s in
      elim (Bool-cases (arm_timer i).1) [
        | inl e ↦
            let (h, s2, ready, kept, x2) = arm_park_lem (arm_timer i).0 s1 in
            rw (e) (h, s2, (λ x. (kept ∙ armed e, ready x)), Extends-trans x1 x2)
        | inr e ↦ rw (e) (g1, s1, (λ x. absurd (false≢true x)), x1)
      ]
