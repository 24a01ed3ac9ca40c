-- ===== src/Reactor/Turn/Sound.antt =====
-- A sound reactor, and Boolean facts about its flags.
use rust_io_uring.Prelude.{ℕ, ◌≡◌, refl, sym, Bool, true, false, not}
use mathlib.Core.Bool.{false≢true}
use rust_io_uring.Ring.Submission.Valid.{IsValid}
use rust_io_uring.Reactor.State.InFlight.{InFlight, Inv}
use rust_io_uring.Reactor.Queue.{Inner}

pub not-eq-false : {b : Bool} → not b ≡ false → b ≡ true
not-eq-false {b = true} e = refl
not-eq-false {b = false} e = absurd (false≢true (sym e))

pub not-eq-true : {b : Bool} → not b ≡ true → b ≡ false
not-eq-true {b = true} e = absurd (false≢true e)
not-eq-true {b = false} e = refl

module _ {D : Type 0} where
  -- A state of the reactor that is sound, with `g` in flight.
  pub record Sound (k : ℕ) (i : Inner D) (g : InFlight) : Type 0 where
    pub ring : IsValid k i.sq
    pub inv : Inv i.completion_state g
