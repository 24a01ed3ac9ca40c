-- ===== src/Reactor/Transfer/Wakers.antt =====
-- tokio-uring-reactor/src/reactor/async_read.rs and async_write.rs: the polls that take a `Waker`.
-- Those of a write have the text of those of a read.
use rust_io_uring.Prelude.{
  ℕ, ◌≡◌, refl, ap, Option, none, some, Result, err, Outcome, returned, panicked, undefined, ◌>>=◌,
}
use rust_io_uring.Reactor.Registration.{
  CompatWaker, new_waker, UringResult, Async, Shared, ready, not_ready,
}
use rust_io_uring.Reactor.Registration
use rust_io_uring.Reactor.Registration.Wakers
use rust_io_uring.Reactor.Registration.Wakers.{Poll, poll_ready, pending, as_poll, poll_async-poll}
use rust_io_uring.Reactor.State.{store, release}
use rust_io_uring.Reactor.Transfer.{
  Context, State, TransferError, Polled, pending_at, init_failed, closed, outcome, settle, poll,
}

abbrev pub PolledAsync : Type 0 → Type 0 → Type 0
PolledAsync T F =
    State T F × (ℕ → Option (Shared (Context T F))) × Poll (Result (TransferError T F) (ℕ × T × F))

-- The answer of a poll, as `std::task::Poll`.
abbrev pub to_async : {T F : Type 0} → Polled T F → PolledAsync T F
to_async p = (p.0, p.1, as_poll p.2)

module _ {T F : Type 0} where
  -- The match behind the poll of the registration.
  unfoldable pub settle_async :
      ℕ
      → (ℕ → Option (Shared (Context T F)))
      → Shared (Context T F)
      → Poll (UringResult × Context T F)
      → PolledAsync T F
  settle_async address heap c pending = (pending_at address, store heap address (some c), pending)
  settle_async address heap c (poll_ready (r, d)) =
      (closed, store heap address (release c), poll_ready (outcome r.result d))

  -- `Future::poll` of `AsyncRead`
  unfoldable pub poll_async :
      ℕ → State T F → (ℕ → Option (Shared (Context T F))) → Outcome (PolledAsync T F)
  poll_async waker (pending_at address) heap = elim (heap address) [
    | none ↦ undefined
    | some c ↦
        (let (inner', r) = Wakers.poll_async waker c.inner in
          returned (settle_async address heap (record c { inner = inner' }) r))
  ]
  poll_async waker (init_failed e) heap = returned (closed, heap, poll_ready (err e))
  poll_async waker closed heap = panicked

  -- The polls of `AsyncWrite`, for the current task and for a waker.
  unfoldable pub poll_write :
      CompatWaker → State T F → (ℕ → Option (Shared (Context T F))) → Outcome (Polled T F)
  poll_write task state heap = poll task state heap

  unfoldable pub poll_write_async :
      ℕ → State T F → (ℕ → Option (Shared (Context T F))) → Outcome (PolledAsync T F)
  poll_write_async waker state heap = poll_async waker state heap

  settled :
      (address : ℕ) (heap : ℕ → Option (Shared (Context T F))) (c : Shared (Context T F))
      (r : Async (UringResult × Context T F))
      → settle_async address heap c (as_poll r) ≡ to_async (settle address heap c r)
  unfolding settle_async settle
  settled address heap c (ready p) = refl
  settled address heap c not_ready = refl

  polled_cell :
      (waker address : ℕ) (heap : ℕ → Option (Shared (Context T F)))
      (o : Option (Shared (Context T F)))
      → ◌≡◌ {A = Outcome (PolledAsync T F)}
          (elim o [
            | none ↦ undefined
            | some c ↦
                (let (inner', r) = Wakers.poll_async waker c.inner in
                  returned (settle_async address heap (record c { inner = inner' }) r))
          ])
          ((elim o [
            | none ↦ undefined
            | some c ↦
                (let (inner', r) = Registration.poll (new_waker waker) c.inner in
                  returned (settle address heap (record c { inner = inner' }) r))
          ])
            >>= (λ p. returned (to_async p)))
  polled_cell waker address heap none = refl
  polled_cell waker address heap (some c) =
      rw (poll_async-poll waker c.inner)
        (ap returned (settled address heap _ (Registration.poll (new_waker waker) c.inner).1))

  pub poll_async_lem :
      (waker : ℕ) (state : State T F) (heap : ℕ → Option (Shared (Context T F)))
      → poll_async waker state heap
        ≡ (poll (new_waker waker) state heap >>= λ p. returned (to_async p))
  unfolding poll_async poll
  poll_async_lem waker (pending_at address) heap = polled_cell waker address heap (heap address)
  poll_async_lem waker (init_failed e) heap = refl
  poll_async_lem waker closed heap = refl
