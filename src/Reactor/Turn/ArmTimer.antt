-- ===== src/Reactor/Turn/ArmTimer.antt =====
-- Arming the poll of the timer.
use rust_io_uring.Prelude.{
  ℕ, ◌≡◌, refl, sym, ◌∙◌, ap, subst, true, false, ok, err, inl, inr, arith, Bool-cases,
}
use rust_io_uring.Ring.Submission.{Filler, queue_full}
use mathlib.Core.Bool.{false≢true}
use rust_io_uring.Sys.Entry.{zeroed}
use rust_io_uring.Reactor.State.{CompletionState, poll_filler, timer_event}
use rust_io_uring.Reactor.State.InFlight.{InFlight, Inv, one_if}
use rust_io_uring.Reactor.Queue.{Inner, poll_in, queue_timer_poll}
use rust_io_uring.Reactor.Queue.Accept.{enqueue_lem}
use rust_io_uring.Reactor.Turn.{arm_timer}
use rust_io_uring.Ring.Submission.{pending}
use rust_io_uring.Reactor.Turn.Extends.{
  Extends, Extends-same, entry_keys, count-entry_keys_snoc, tokens_timer_out,
}
use rust_io_uring.Reactor.Turn.Sound.{Sound, not-eq-false, not-eq-true}
use rust_io_uring.Prelude.{count}

module _ {D : Type 0} where
  arm_timer_skip :
      (i : Inner D) → i.completion_state.requeue_timer ≡ false → arm_timer i ≡ (i, true)
  unfolding arm_timer
  arm_timer_skip i e = simp e

  arm_timer_ok :
      (i : Inner D)
      → i.completion_state.requeue_timer ≡ true
      → (queue_timer_poll i).1 ≡ ok tt
      → arm_timer i ≡ (
        record (queue_timer_poll i).0 {
          completion_state = record (queue_timer_poll i).0.completion_state {
            requeue_timer = false;
          };
        },
        true,
      )
  unfolding arm_timer
  arm_timer_ok i e r = simp (e, r)

  arm_timer_err :
      (i : Inner D)
      → i.completion_state.requeue_timer ≡ true
      → (queue_timer_poll i).1 ≡ err queue_full
      → arm_timer i ≡ ((queue_timer_poll i).0, false)
  unfolding arm_timer
  arm_timer_err i e r = simp (e, r)

  pub arm_timer_lem :
      {k : ℕ} {g : InFlight} (i : Inner D)
      → Sound k i g
      → (h : InFlight) × Sound k (arm_timer i).0 h
        × ((arm_timer i).1 ≡ true → h.timer_out ≡ true)
        × (h.park_out ≡ g.park_out)
        × Extends i g (arm_timer i).0 h
  unfolding queue_timer_poll
  arm_timer_lem {k = k} {g = g} i s =
      let f : Filler ⊥ = poll_filler i.timer_fd poll_in timer_event in
      elim (Bool-cases i.completion_state.requeue_timer) [
        | inr e ↦ rw (arm_timer_skip i e) (
          g,
          s,
          (λ _. not-eq-false (sym s.inv.timer_known ∙ e)),
          refl,
          Extends-same i i g refl refl refl,
        )
        | inl e ↦ elim (enqueue_lem {k = k} f (f zeroed).0 i refl s.ring) [
          | inl a ↦ rw (arm_timer_ok i e a.0) (
            record g { timer_out = true },
            record {
              ring = a.1.valid;
              inv =
                  subst
                    (λ (t : CompletionState D).
                      Inv (record t { requeue_timer = false }) (record g { timer_out = true }))
                    (sym a.1.state)
                    (record {
                      counted = omega (
                        arith,
                        s.inv.counted,
                        ap one_if (not-eq-true (sym s.inv.timer_known ∙ e)),
                      );
                      timer_known = refl;
                      park_known = s.inv.park_known;
                      live = s.inv.live;
                    });
            },
            (λ _. refl),
            refl,
            record {
              heap = ap (λ (t : CompletionState D). t.heap) a.1.state;
              ops = refl;
              cq = ap (λ (j : Inner D). j.cq) a.1.rest;
              balance = λ u. omega (
                arith,
                ap (λ es. count u (entry_keys es)) a.1.last,
                count-entry_keys_snoc u (pending i.sq) (f zeroed).0,
                tokens_timer_out u g (not-eq-true (sym s.inv.timer_known ∙ e)),
              );
            },
          )
          | inr a ↦ rw (arm_timer_err i e a.0) (
            g,
            record { ring = a.1.valid; inv = subst (λ t. Inv t g) (sym a.1.state) s.inv },
            (λ x. absurd (false≢true x)),
            refl,
            Extends-same i (queue_timer_poll i).0 g
                (ap (λ (t : CompletionState D). t.heap) a.1.state)
                (ap (λ (j : Inner D). j.cq) a.1.rest) a.1.same,
          )
        ]
      ]
