-- ===== src/Reactor/Turn/ArmPark.antt =====
-- Arming the poll of the park event.
use rust_io_uring.Prelude.{
  ℕ, ◌≡◌, refl, sym, ◌∙◌, ap, subst, true, false, ok, err, inl, inr, arith, Bool-cases,
}
use rust_io_uring.Ring.Submission.{Filler, queue_full}
use mathlib.Core.Bool.{false≢true}
use rust_io_uring.Sys.Entry.{zeroed}
use rust_io_uring.Reactor.State.{CompletionState, poll_filler, park_event}
use rust_io_uring.Reactor.State.InFlight.{InFlight, Inv, one_if}
use rust_io_uring.Reactor.Queue.{Inner, poll_in, queue_park_read}
use rust_io_uring.Reactor.Queue.Accept.{enqueue_lem}
use rust_io_uring.Reactor.Turn.{arm_park}
use rust_io_uring.Ring.Submission.{pending}
use rust_io_uring.Reactor.Turn.Extends.{
  Extends, Extends-same, entry_keys, count-entry_keys_snoc, tokens_park_out,
}
use rust_io_uring.Reactor.Turn.Sound.{Sound, not-eq-false, not-eq-true}
use rust_io_uring.Prelude.{count}

module _ {D : Type 0} where
  arm_park_skip : (i : Inner D) → i.completion_state.requeue_park ≡ false → arm_park i ≡ (i, true)
  unfolding arm_park
  arm_park_skip i e = simp e

  arm_park_ok :
      (i : Inner D)
      → i.completion_state.requeue_park ≡ true
      → (queue_park_read i).1 ≡ ok tt
      → arm_park i ≡ (
        record (queue_park_read i).0 {
          completion_state = record (queue_park_read i).0.completion_state { requeue_park = false };
        },
        true,
      )
  unfolding arm_park
  arm_park_ok i e r = simp (e, r)

  arm_park_err :
      (i : Inner D)
      → i.completion_state.requeue_park ≡ true
      → (queue_park_read i).1 ≡ err queue_full
      → arm_park i ≡ ((queue_park_read i).0, false)
  unfolding arm_park
  arm_park_err i e r = simp (e, r)

  pub arm_park_lem :
      {k : ℕ} {g : InFlight} (i : Inner D)
      → Sound k i g
      → (h : InFlight) × Sound k (arm_park i).0 h
        × ((arm_park i).1 ≡ true → h.park_out ≡ true)
        × (h.timer_out ≡ g.timer_out)
        × Extends i g (arm_park i).0 h
  unfolding queue_park_read
  arm_park_lem {k = k} {g = g} i s =
      let f : Filler ⊥ = poll_filler i.park_fd poll_in park_event in
      elim (Bool-cases i.completion_state.requeue_park) [
        | inr e ↦ rw (arm_park_skip i e) (
          g,
          s,
          (λ _. not-eq-false (sym s.inv.park_known ∙ e)),
          refl,
          Extends-same i i g refl refl refl,
        )
        | inl e ↦ elim (enqueue_lem {k = k} f (f zeroed).0 i refl s.ring) [
          | inl a ↦ rw (arm_park_ok i e a.0) (
            record g { park_out = true },
            record {
              ring = a.1.valid;
              inv =
                  subst
                    (λ (t : CompletionState D).
                      Inv (record t { requeue_park = false }) (record g { park_out = true }))
                    (sym a.1.state)
                    (record {
                      counted = omega (
                        arith,
                        s.inv.counted,
                        ap one_if (not-eq-true (sym s.inv.park_known ∙ e)),
                      );
                      park_known = refl;
                      timer_known = s.inv.timer_known;
                      live = s.inv.live;
                    });
            },
            (λ _. refl),
            refl,
            record {
              heap = ap (λ (t : CompletionState D). t.heap) a.1.state;
              ops = refl;
              cq = ap (λ (j : Inner D). j.cq) a.1.rest;
              balance = λ u. omega (
                arith,
                ap (λ es. count u (entry_keys es)) a.1.last,
                count-entry_keys_snoc u (pending i.sq) (f zeroed).0,
                tokens_park_out u g (not-eq-true (sym s.inv.park_known ∙ e)),
              );
            },
          )
          | inr a ↦ rw (arm_park_err i e a.0) (
            g,
            record { ring = a.1.valid; inv = subst (λ t. Inv t g) (sym a.1.state) s.inv },
            (λ x. absurd (false≢true x)),
            refl,
            Extends-same i (queue_park_read i).0 g
                (ap (λ (t : CompletionState D). t.heap) a.1.state)
                (ap (λ (j : Inner D). j.cq) a.1.rest) a.1.same,
          )
        ]
      ]
