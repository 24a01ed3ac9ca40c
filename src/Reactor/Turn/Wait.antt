-- ===== src/Reactor/Turn/Wait.antt =====
-- When the reactor waits in `io_uring_enter`. The build has no overflow checks: one that has them
-- can panic in `pending_submissions`.
use rust_io_uring.Prelude.{
  ℕ, ◌<◌, ◌≡◌, refl, sym, ◌∙◌, subst, Bool, true, false, not, ◌&&◌, Option, List, [], ◌∷◌, length,
  Outcome, returned, inl, inr, ◌⊎◌, Bool-cases,
}
use mathlib.Core.Bool.{false≢true}
use rust_io_uring.Sys.Entry.{CompletionEntry}
use rust_io_uring.Ring.Submission.{pending}
use rust_io_uring.Ring.Submission.Valid.{IsValid}
use rust_io_uring.Ring.Completion.{available}
use rust_io_uring.Ring.Completion.Valid
use rust_io_uring.Reactor.State.InFlight.{InFlight}
use rust_io_uring.Reactor.Queue.{Inner}
use rust_io_uring.Reactor.Turn.{set_timer, arm_all, decide, prepare, check_completions}
use rust_io_uring.Reactor.Turn.Drain.{CompletesAll, nonempty, Checked, check_completions_lem}
use rust_io_uring.Reactor.Turn.Sound.{Sound}
use rust_io_uring.Reactor.Turn.Arm.{arm_all_lem}
use rust_io_uring.Reactor.Turn.Extends.{Extends, Extends-same, Extends-trans}
use rust_io_uring.Reactor.Turn.Decide.{set_timer_lem, decide_lem}

nonempty-eq-false : (cs : List CompletionEntry) → nonempty cs ≡ false → cs ≡ []
nonempty-eq-false [] e = refl
nonempty-eq-false (c ∷ cs) e = absurd (false≢true (sym e))

and3 : (a b c : Bool) → (a && not b && not c) ≡ true → (a ≡ true) × (b ≡ false)
and3 true false c e = (refl, refl)
and3 true true c e = absurd (false≢true e)
and3 false b c e = absurd (false≢true e)

module _ {D : Type 0} where
  -- Why it is safe for `j` to wait, where `prepare` began with `i`.
  pub record Alert (wait : Bool) (i j : Inner D) (h : InFlight) : Type 0 where
    pub asked : wait ≡ true
    pub drained : available i.cq ≡ []
    pub timer : h.timer_out ≡ true
    pub park : h.park_out ≡ true
    pub unparked : j.completion_state.park.pending ≡ false

  -- What `prepare` comes to from a reactor `i` that is asked to wait or not, where `i1` with `g` in
  -- flight is what `check_completions` leaves.
  unfoldable pub Prepared :
      ℕ → Bool → Inner D → Inner D → InFlight → Outcome (Inner D × ℕ × Bool) → Type 0
  Prepared k wait i i1 g r =
      (j : Inner D) × (n : ℕ) × (waits : Bool) × (h : InFlight) × (r ≡ returned (j, n, waits))
      × Sound k j h
      × Extends i1 g j h
      × (n ≡ length (pending j.sq))
      × (j.completion_state.park.entered ≡ true)
      × ((waits ≡ false) ⊎ Alert wait i j h)

  module _ (fuel : ℕ) (wait : Bool) (timeout : Option ℕ) (i i1 : Inner D) (received : Bool)
      (checked : check_completions false fuel i ≡ returned (i1, received)) where
    prepare_wait :
        (i2 : Inner D)
        → (wait && not received && not i1.completion_state.park.pending) ≡ true
        → set_timer false timeout i1 ≡ returned i2
        → prepare false fuel wait timeout i ≡ decide false (arm_all i2).1 (arm_all i2).0
    unfolding prepare
    prepare_wait i2 e set = simp (checked, e, set)

    prepare_stay :
        (wait && not received && not i1.completion_state.park.pending) ≡ false
        → prepare false fuel wait timeout i ≡ decide false false i1
    unfolding prepare
    prepare_stay e = simp (checked, e)

    -- The two ways on from `check_completions` give what `decide` gives.
    decided :
        {k : ℕ} {g h : InFlight} (ready : Bool) (i3 : Inner D)
        → Sound k i3 h
        → Extends i1 g i3 h
        → prepare false fuel wait timeout i ≡ decide false ready i3
        → (ready ≡ true
            → (wait ≡ true) × (available i.cq ≡ []) × (h.timer_out ≡ true) × (h.park_out ≡ true))
        → Prepared k wait i i1 g (prepare false fuel wait timeout i)
    unfolding Prepared
    decided {k = k} {h = h} ready i3 s x same alert =
        let (j, n, waits, out, entering, only, y) = decide_lem {k = k} ready i3 s in
        let report : (waits ≡ false) ⊎ Alert wait i j h = elim (Bool-cases waits) [
          | inr e ↦ inl e
          | inl e ↦
              let (asked, drained, timer, park) = alert (only e) in
              inr (record {
                asked = asked;
                drained = drained;
                timer = timer;
                park = park;
                unparked = entering.unparked e;
              })
        ] in
        (
          j,
          n,
          waits,
          h,
          same ∙ out,
          entering.sound,
          Extends-trans x y,
          entering.count,
          entering.announced,
          report,
        )

    prepare-Prepared :
        {k : ℕ} {g : InFlight}
        → Sound k i1 g
        → received ≡ nonempty (available i.cq)
        → Prepared k wait i i1 g (prepare false fuel wait timeout i)
    prepare-Prepared {k = k} {g = g} s known =
        elim (Bool-cases (wait && not received && not i1.completion_state.park.pending)) [
          | inl e ↦
              let (i2, set, s2, x2) = set_timer_lem {k = k} timeout i1 s in
              let (h, s3, armed, x3) = arm_all_lem {k = k} i2 s2 in
              let (asked, quiet) = and3 wait received i1.completion_state.park.pending e in
              decided (arm_all i2).1 (arm_all i2).0 s3 (Extends-trans x2 x3) (prepare_wait i2 e set)
                (λ w. (
                  asked,
                  nonempty-eq-false (available i.cq) (sym known ∙ quiet),
                  (armed w).0,
                  (armed w).1,
                ))
          | inr e ↦
              decided false i1 s (Extends-same i1 i1 g refl refl refl) (prepare_stay e)
                (λ w. absurd (false≢true w))
        ]

  -- From a sound reactor whose unread completions may come in their order, the part of `park_inner`
  -- up to `io_uring_enter` returns. It has handled all the completions, and then only added entries
  -- and polls of its own; the reactor is sound, and it submits all entries that wait in the ring. It
  -- has announced to the unparking threads that it may wait. It waits only if the caller asked for
  -- it, there was no completion to handle, the polls of the timer and of the park event are both in
  -- flight, and no unpark is pending.
  pub prepare_lem :
      {k l : ℕ} {f g : InFlight} (fuel : ℕ) (wait : Bool) (timeout : Option ℕ) (i : Inner D)
      → Sound k i f
      → Valid.IsValid l i.cq
      → CompletesAll f (available i.cq) g
      → length (available i.cq) < fuel
      → (i1 : Inner D) × (check_completions false fuel i ≡ returned (i1, nonempty (available i.cq)))
        × Checked false l i i1 g
        × Prepared k wait i i1 g (prepare false fuel wait timeout i)
  prepare_lem {k = k} {l = l} fuel wait timeout i s ring x lt =
      let (i1, checked, c) = check_completions_lem false {k = l} fuel i ring s.inv x lt in
      (
        i1,
        checked,
        c,
        prepare-Prepared fuel wait timeout i i1 (nonempty (available i.cq)) checked {k = k}
            (record { ring = subst (IsValid k) (sym c.sq) s.ring; inv = c.inv }) refl,
      )
