-- ===== src/Reactor/Registration/Stream.antt =====
-- A registration that is used again and again, as `AsyncPoll` does.
use rust_io_uring.Prelude.{
  ◌≡◌, refl, arith, true, false, List, none, some, Outcome, returned, panicked, ◌>>=◌,
}
use rust_io_uring.Reactor.Registration.{
  CompatWaker, UringResult, Inner, Async, ready, not_ready, notify, poll_stream_and_reset, wake,
  share, to_raw, drop_raw, abort,
}

-- One use: a poll by `w` before the completion, the completion with `r`, and a poll after it. What
-- the two polls give and what the completion wakes.
unfoldable pub round {ℓ} :
    {T : Type ℓ}
    → CompatWaker
    → UringResult
    → Inner T
    → Outcome (Inner T × Async UringResult × List CompatWaker × Async UringResult)
round w r i =
    let (i1, before) = poll_stream_and_reset w i in
    do p ← notify r i1; let q = poll_stream_and_reset w p.0; returned (q.0, before, p.1, q.1)

-- A registration that waits for no result is ready for a use: the poll before the completion is
-- not ready, the completion wakes exactly that poll's waker, the poll after it gives the result, and
-- the registration waits again, so that any number of uses follow one another. Without the poll that
-- takes the result a further completion panics.
pub round_lem {ℓ} :
    {T : Type ℓ} (w : CompatWaker) (r r' : UringResult) (i : Inner T)
    → i.finished ≡ false
    → ((j : Inner T) × (round w r i ≡ returned (j, not_ready, (wake w).1, ready r))
        × (j.finished ≡ false)
        × (j.payload ≡ i.payload))
      × ((j : Inner T) × (woken : List CompatWaker) × (notify r i ≡ returned (j, woken))
          × (notify r' j ≡ panicked))
unfolding round poll_stream_and_reset notify
round_lem w r r' i e = (
  (record i { result = r; finished = false; waker = (wake w).0 }, ground arith, refl, refl),
  (
    record i { result = r; finished = true; waker = (wake i.waker).0 },
    (wake i.waker).1,
    ground arith,
    refl,
  ),
)

-- A registration gives its data back by `abort` exactly when the copy for the kernel is gone: after
-- `to_raw` it does not, and after the drop of that copy it does.
pub abort-to_raw {ℓ} :
    {T : Type ℓ} (d : T)
    → (abort (share d) ≡ returned (some d))
      × (abort (to_raw (share d)) ≡ returned none)
      × (abort (drop_raw (to_raw (share d))) ≡ returned (some d))
unfolding abort share to_raw drop_raw
abort-to_raw d = (refl, refl, refl)
