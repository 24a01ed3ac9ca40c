-- ===== src/Reactor/Turn/Decide.antt =====
-- The timer before the wait, and the last test before `io_uring_enter`.
use rust_io_uring.Prelude.{
  ℕ, ◌≡◌, refl, sym, ap, Bool, true, false, not, ◌&&◌, Option, none, some, length, returned, inl,
  inr, Bool-cases,
}
use mathlib.Core.Bool.{false≢true}
use rust_io_uring.Ring.Submission.{pending, pending_submissions}
use rust_io_uring.Ring.Submission.Pending.{pending_submissions_lem}
use rust_io_uring.Reactor.Park.{allow_wait, store_entered}
use rust_io_uring.Reactor.State.InFlight.{InFlight}
use rust_io_uring.Reactor.Queue.{Inner, oneshot, disarmed}
use rust_io_uring.Reactor.Turn.{set_timer, enter_park, decide}
use rust_io_uring.Reactor.Turn.Sound.{Sound}
use rust_io_uring.Reactor.Turn.Extends.{Extends, Extends-same}

and2 : (a b : Bool) → (a && not b) ≡ true → (a ≡ true) × (b ≡ false)
and2 true false e = (refl, refl)
and2 true true e = absurd (false≢true e)
and2 false b e = absurd (false≢true e)

module _ {D : Type 0} where
  pub set_timer_lem :
      {k : ℕ} {g : InFlight} (timeout : Option ℕ) (i : Inner D)
      → Sound k i g
      → (j : Inner D) × (set_timer false timeout i ≡ returned j) × Sound k j g × Extends i g j g
  unfolding set_timer
  set_timer_lem {g = g} none i s = elim (Bool-cases i.completion_state.timer_pending) [
    | inl e ↦ (
      record i {
        timer = disarmed;
        completion_state = record i.completion_state { timer_pending = false };
      },
      simp e,
      record {
        ring = s.ring;
        inv = record {
          counted = s.inv.counted;
          timer_known = s.inv.timer_known;
          park_known = s.inv.park_known;
          live = s.inv.live;
        };
      },
      Extends-same i _ g refl refl refl,
    )
    | inr e ↦ (i, simp e, s, Extends-same i i g refl refl refl)
  ]
  set_timer_lem {g = g} (some t) i s = (
    record i {
      timer = oneshot t;
      completion_state = record i.completion_state { timer_pending = false };
    },
    refl,
    record {
      ring = s.ring;
      inv = record {
        counted = s.inv.counted;
        timer_known = s.inv.timer_known;
        park_known = s.inv.park_known;
        live = s.inv.live;
      };
    },
    Extends-same i _ g refl refl refl,
  )

  -- A reactor `j` about to call `io_uring_enter` to submit `n` entries, and to wait if `waits`.
  pub record Entering (k : ℕ) (j : Inner D) (n : ℕ) (waits : Bool) (g : InFlight) : Type 0 where
    pub sound : Sound k j g
    pub count : n ≡ length (pending j.sq)
    pub announced : j.completion_state.park.entered ≡ true
    pub unparked : waits ≡ true → j.completion_state.park.pending ≡ false

  pub decide_lem :
      {k : ℕ} {g : InFlight} (wait : Bool) (i : Inner D)
      → Sound k i g
      → (j : Inner D) × (n : ℕ) × (waits : Bool) × (decide false wait i ≡ returned (j, n, waits))
        × Entering k j n waits g
        × (waits ≡ true → wait ≡ true)
        × Extends i g j g
  unfolding decide enter_park store_entered allow_wait
  decide_lem {k = k} {g = g} wait i s =
      let (count, valid, same, _) = pending_submissions_lem {k = k} i.sq s.ring false in
      (
        enter_park (record i { sq = (pending_submissions false i.sq).0 }),
        length (pending i.sq),
        wait && not i.completion_state.park.pending,
        rw (count, decide) refl,
        record {
          sound = record {
            ring = valid;
            inv = record {
              counted = s.inv.counted;
              timer_known = s.inv.timer_known;
              park_known = s.inv.park_known;
              live = s.inv.live;
            };
          };
          count = sym (ap length same);
          announced = refl;
          unparked = λ e. (and2 wait i.completion_state.park.pending e).1;
        },
        (λ e. (and2 wait i.completion_state.park.pending e).0),
        Extends-same i (enter_park (record i { sq = (pending_submissions false i.sq).0 })) g refl
            refl same,
      )
