-- ===== src/Reactor/Readiness/Wakers.antt =====
-- tokio-uring-reactor/src/reactor/async_poll.rs: `Future::poll` of `AsyncPoll`, which takes a `Waker`.
use rust_io_uring.Prelude.{
  ℕ, ◌≡◌, refl, Bool, true, false, not, none, some, Result, ok, err, Outcome, returned, panicked,
  undefined, out_of_fuel, ◌>>=◌, if◌then◌else◌, Option-cases, inl, inr,
}
use rust_io_uring.Reactor.Registration.{
  new_waker, UringResult, Async, ready, not_ready, to_raw, poll_stream_and_reset,
}
use rust_io_uring.Reactor.Registration.Wakers.{
  Poll, poll_ready, pending, as_poll, track_async, track_async_lem, poll_stream_and_reset_async,
  poll_stream_and_reset_async_lem,
}
use rust_io_uring.Reactor.Queue.{Inner, IoError, reactor_dead, queue_async_poll}
use rust_io_uring.Reactor.Readiness.{AsyncPoll, set_cell, events, register, arm, take, poll}

abbrev pub FutureAnswer : Type 0
FutureAnswer = AsyncPoll × Inner (Unit {0}) × Poll (Result IoError ℕ)

-- The answer of the stream as that of the future.
abbrev pub as_future : Result IoError (Async ℕ) → Poll (Result IoError ℕ)
as_future (err e) = poll_ready (err e)
as_future (ok (ready flags)) = poll_ready (ok flags)
as_future (ok not_ready) = pending

abbrev pub to_async : AsyncPoll × Inner (Unit {0}) × Result IoError (Async ℕ) → FutureAnswer
to_async p = (p.0, p.1, as_future p.2)

-- The first half, while no operation is in flight.
unfoldable pub register_async : ℕ → AsyncPoll → Inner (Unit {0}) → Outcome FutureAnswer
unfolding set_cell track_async
register_async waker p i = elim (i.completion_state.heap p.address) [
  | none ↦ undefined
  | some c ↦ returned (
    record p { active = true },
    set_cell p.address (record c { inner = track_async waker c.inner }) i,
    pending,
  )
]

unfoldable pub arm_async : Bool → ℕ → AsyncPoll → Inner (Unit {0}) → Outcome FutureAnswer
unfolding set_cell to_raw
arm_async false waker p i = returned (p, i, poll_ready (err reactor_dead))
arm_async true waker p i = elim (i.completion_state.heap p.address) [
  | none ↦ undefined
  | some c ↦ (do
    q ← queue_async_poll p.fd p.flags p.address (set_cell p.address (to_raw c) i)
    elim q.1 [ err e ↦ returned (p, q.0, poll_ready (err e)) | ok _ ↦ register_async waker p q.0 ])
]

-- The match on the registration's answer.
unfoldable pub flags_async : AsyncPoll → Inner (Unit {0}) → Poll UringResult → FutureAnswer
unfolding events
flags_async p i pending = (p, i, pending)
flags_async p i (poll_ready x) = elim (events x.result) [
  | err e ↦ (record p { active = false }, i, poll_ready (err e))
  | ok flags ↦ (record p { active = false }, i, poll_ready (ok flags))
]

unfoldable pub take_async : ℕ → AsyncPoll → Inner (Unit {0}) → Outcome FutureAnswer
unfolding set_cell
take_async waker p i = elim (i.completion_state.heap p.address) [
  | none ↦ undefined
  | some c ↦
      (let (inner', r) = poll_stream_and_reset_async waker c.inner in
        returned (flags_async p (set_cell p.address (record c { inner = inner' }) i) r))
]

-- `Future::poll`
unfoldable pub poll_async : Bool → ℕ → AsyncPoll → Inner (Unit {0}) → Outcome FutureAnswer
poll_async alive waker p i =
    if not p.active then arm_async alive waker p i else take_async waker p i

bind_congr :
    {A B C : Type 0} (o : Outcome A) (f : A → Outcome C) (g : A → Outcome B) (h : B → Outcome C)
    → ((a : A) → f a ≡ (g a >>= h))
    → (o >>= f) ≡ ((o >>= g) >>= h)
bind_congr (returned a) f g h e = e a
bind_congr panicked f g h e = refl
bind_congr undefined f g h e = refl
bind_congr out_of_fuel f g h e = refl

abbrev answered : AsyncPoll × Inner (Unit {0}) × Result IoError (Async ℕ) → Outcome FutureAnswer
answered p = returned (to_async p)

register_async_lem :
    (waker : ℕ) (p : AsyncPoll) (i : Inner (Unit {0}))
    → register_async waker p i ≡ (register (new_waker waker) p i >>= answered)
unfolding register_async register
register_async_lem waker p i = elim (Option-cases (i.completion_state.heap p.address)) [
  | inl e ↦ rw (e, register_async, register) refl
  | inr (c, e) ↦ rw (e, register_async, register, track_async_lem waker c.inner) refl
]

queued :
    (waker : ℕ) (p : AsyncPoll) (j : Inner (Unit {0})) (r : Result IoError (Unit {0}))
    → ◌≡◌ {A = Outcome FutureAnswer}
        (elim r [ err e ↦ returned (p, j, poll_ready (err e)) | ok _ ↦ register_async waker p j ])
        ((elim r [ err e ↦ returned (p, j, err e) | ok _ ↦ register (new_waker waker) p j ])
          >>= answered)
queued waker p j (err e) = refl
queued waker p j (ok _) = register_async_lem waker p j

arm_async_lem :
    (alive : Bool) (waker : ℕ) (p : AsyncPoll) (i : Inner (Unit {0}))
    → arm_async alive waker p i ≡ (arm alive (new_waker waker) p i >>= answered)
unfolding arm_async arm
arm_async_lem false waker p i = refl
arm_async_lem true waker p i = elim (Option-cases (i.completion_state.heap p.address)) [
  | inl e ↦ rw (e, arm_async, arm) refl
  | inr (c, e) ↦
      rw (e, arm_async, arm)
        (bind_congr (queue_async_poll p.fd p.flags p.address (set_cell p.address (to_raw c) i)) _ _
          _ (λ q. queued waker p q.0 q.1))
]

flagged :
    (p : AsyncPoll) (i : Inner (Unit {0})) (r : Result IoError ℕ)
    → ◌≡◌ {A = Outcome FutureAnswer}
        (returned (elim r [
          | err e ↦ (record p { active = false }, i, poll_ready (err e))
          | ok flags ↦ (record p { active = false }, i, poll_ready (ok flags))
        ]))
        ((elim r [
          | err e ↦ returned (record p { active = false }, i, err e)
          | ok flags ↦ returned (record p { active = false }, i, ok (ready flags))
        ])
          >>= answered)
flagged p i (err e) = refl
flagged p i (ok flags) = refl

flags_async_lem :
    (p : AsyncPoll) (i : Inner (Unit {0})) (r : Async UringResult)
    → ◌≡◌ {A = Outcome FutureAnswer} (returned (flags_async p i (as_poll r))) (
        (elim r [
          | not_ready ↦ returned (p, i, ok not_ready)
          | ready x ↦ (elim (events x.result) [
            | err e ↦ returned (record p { active = false }, i, err e)
            | ok flags ↦ returned (record p { active = false }, i, ok (ready flags))
          ])
        ])
        >>= answered)
unfolding flags_async
flags_async_lem p i not_ready = refl
flags_async_lem p i (ready x) = flagged p i (events x.result)

take_async_lem :
    (waker : ℕ) (p : AsyncPoll) (i : Inner (Unit {0}))
    → take_async waker p i ≡ (take (new_waker waker) p i >>= answered)
unfolding take_async take
take_async_lem waker p i = elim (Option-cases (i.completion_state.heap p.address)) [
  | inl e ↦ rw (e, take_async, take) refl
  | inr (c, e) ↦
      rw (e, take_async, take, poll_stream_and_reset_async_lem waker c.inner)
        (flags_async_lem p _ (poll_stream_and_reset (new_waker waker) c.inner).1)
]

chosen :
    (b : Bool) {x y : Outcome FutureAnswer}
    (x' y' : Outcome (AsyncPoll × Inner (Unit {0}) × Result IoError (Async ℕ)))
    → x ≡ (x' >>= answered)
    → y ≡ (y' >>= answered)
    → (if b then x else y) ≡ ((if b then x' else y') >>= answered)
chosen true x' y' e f = e
chosen false x' y' e f = f

pub poll_async_lem :
    (alive : Bool) (waker : ℕ) (p : AsyncPoll) (i : Inner (Unit {0}))
    → poll_async alive waker p i ≡ (poll alive (new_waker waker) p i >>= λ q. returned (to_async q))
unfolding poll_async poll
poll_async_lem alive waker p i =
    chosen (not p.active) _ _ (arm_async_lem alive waker p i) (take_async_lem waker p i)
