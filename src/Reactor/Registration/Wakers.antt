-- ===== src/Reactor/Registration/Wakers.antt =====
-- tokio-uring-reactor/src/registration.rs: the methods of `Registration` that take a `Waker`, beside
-- those that take the current task.
use rust_io_uring.Prelude.{arith, ℕ, ◌≡◌, refl, false, none, some, if◌then◌else◌}
use rust_io_uring.Reactor.Registration.{
  new_waker, UringResult, Inner, Async, ready, not_ready, track, poll, poll_stream_and_reset,
}

-- `std::task::Poll`
pub data Poll {ℓ} (A : Type ℓ) : Type ℓ where
  poll_ready : A → Poll A
  pending : Poll A

abbrev pub as_poll {ℓ} : {A : Type ℓ} → Async A → Poll A
as_poll (ready a) = poll_ready a
as_poll not_ready = pending

module _ {ℓ} {T : Type ℓ} where
  -- `track_async`, where `register_new` clones the waker.
  unfoldable pub track_async : ℕ → Inner T → Inner T
  track_async waker i = record i { waker = new_waker waker }

  unfoldable pub poll_async : ℕ → Inner T → Inner T × Poll (UringResult × T)
  unfolding track_async
  poll_async waker i = elim i.payload [
    | none ↦ (i, pending)
    | some d ↦
        if i.finished
        then (record i { payload = none }, poll_ready (i.result, d))
        else (track_async waker i, pending)
  ]

  unfoldable pub poll_stream_and_reset_async : ℕ → Inner T → Inner T × Poll UringResult
  unfolding track_async
  poll_stream_and_reset_async waker i =
      if i.finished
      then (record i { finished = false }, poll_ready i.result)
      else (track_async waker i, pending)

  pub track_async_lem : (waker : ℕ) (i : Inner T) → track_async waker i ≡ track (new_waker waker) i
  unfolding track_async track
  track_async_lem waker i = refl

  pub poll_async-poll :
      (waker : ℕ) (i : Inner T)
      → poll_async waker i ≡ ((poll (new_waker waker) i).0, as_poll (poll (new_waker waker) i).1)
  unfolding poll_async poll track_async track
  poll_async-poll waker i = ground arith

  pub poll_stream_and_reset_async_lem :
      (waker : ℕ) (i : Inner T)
      → poll_stream_and_reset_async waker i ≡ (
        (poll_stream_and_reset (new_waker waker) i).0,
        as_poll (poll_stream_and_reset (new_waker waker) i).1,
      )
  unfolding poll_stream_and_reset_async poll_stream_and_reset track_async track
  poll_stream_and_reset_async_lem waker i = ground arith
