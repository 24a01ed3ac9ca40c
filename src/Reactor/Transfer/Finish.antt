-- ===== src/Reactor/Transfer/Finish.antt =====
-- A read or a write from its first poll to its result.
use rust_io_uring.Prelude.{
  ℕ, suc, ◌^◌, ◌==◌, if◌then◌else◌, ℤ, pos, negsuc, Result, ok, err, ◌+◌, ◌≡◌, ◌≢◌, refl, ◌∙◌, Bool,
  true, false, List, ◌++◌, Option, none, some, Outcome, returned, ◌>>=◌, bit_and, arith, length,
}
use rust_io_uring.Reactor.Registration.{
  CompatWaker, UringResult, Async, ready, not_ready, Shared, wake, drop_raw, track,
}
use rust_io_uring.Reactor.Registration
use rust_io_uring.Reactor.State.{CompletionState, store, release, handle_completion}
use rust_io_uring.Reactor.State.InFlight.{
  InFlight, Inv, Remove, InProgress, one_if, store_same, length-Remove,
}
use rust_io_uring.Reactor.State.Complete.{handle_op, finish}
use rust_io_uring.Reactor.Transfer.{
  TransferError, Context, Polled, pending_at, closed, settle, outcome, with_error, poll,
}
use rust_io_uring.Reactor.Registration.Once.{sleepers, wake-sleepers}
use rust_io_uring.Reactor.Queue.{raw_os_error, wrapping_neg}

-- What a read or a write that the kernel ended with `r` gives its caller: the number of bytes, which
-- is not negative, or the error with that number negated as an `i32`, and in both cases the buffer and the file.
abbrev pub transferred : {T F : Type 0} → ℤ → Context T F → Result (TransferError T F) (ℕ × T × F)
transferred (pos n) d = ok (n, d.buffer, d.file)
transferred (negsuc n) d = err (record {
  error = raw_os_error (if suc n == 2 ^ 31 then negsuc n else pos (suc n));
  buffer = d.buffer;
  file = d.file;
})

pub outcome-transferred : {T F : Type 0} (r : ℤ) (d : Context T F) → outcome r d ≡ transferred r d
unfolding outcome with_error wrapping_neg
outcome-transferred (pos n) d = refl
outcome-transferred (negsuc n) d = refl

module _ {T F : Type 0} where
  -- The cell of a transfer that its future and the kernel own, and after the kernel is done.
  abbrev pub waiting : UringResult → CompatWaker → Context T F → Shared (Context T F)
  waiting r w d = record {
    inner = record { result = r; finished = false; waker = w; payload = some d };
    strong = 2;
  }

  abbrev done : UringResult → CompatWaker → Context T F → Shared (Context T F)
  done r w d = record {
    inner = record { result = r; finished = true; waker = w; payload = some d };
    strong = 1;
  }

  poll-waiting :
      (w w0 : CompatWaker) (r0 : UringResult) (d : Context T F) (a : ℕ)
      (h : ℕ → Option (Shared (Context T F)))
      → h a ≡ some (waiting r0 w0 d)
      → poll w (pending_at a) h
        ≡ returned (pending_at a, store h a (some (waiting r0 w d)), not_ready)
  unfolding poll settle Registration.poll track
  poll-waiting w w0 r0 d a h e = rw (e, poll) refl

  poll-done :
      (w w0 : CompatWaker) (r : UringResult) (d : Context T F) (a : ℕ)
      (h : ℕ → Option (Shared (Context T F)))
      → h a ≡ some (done r w0 d)
      → poll w (pending_at a) h ≡ returned (closed, store h a none, ready (transferred r.result d))
  unfolding poll settle Registration.poll track release drop_raw
  poll-done w w0 r d a h e = rw (e, poll, outcome-transferred r.result d) refl

  finish-release :
      (checks : Bool) (w : CompatWaker) (r r0 : UringResult) (d : Context T F)
      → release (finish checks r (waiting r0 w d)) ≡ some (done r (wake w).0 d)
  unfolding release drop_raw
  finish-release checks w r r0 d = refl

  -- A poll by `w`, the completion with `r`, and a poll by `w'`: what the polls answer, the wakers
  -- woken, and where the future and the heap end.
  unfoldable pub transfer :
      Bool
      → CompatWaker
      → CompatWaker
      → UringResult
      → ℕ
      → CompletionState (Context T F)
      → Outcome (Polled T F × Polled T F × List CompatWaker)
  transfer checks w w' r a s = do
    before ← poll w (pending_at a) s.heap
    t ← handle_completion checks a r (record s { heap = before.1 })
    after ← poll w' before.0 t.heap
    returned (before, after, t.woken)

  -- A transfer that waits at the address `a` of its cell, among the operations in flight: the first
  -- poll is not ready, the completion wakes the task of that poll and no other, and the next poll
  -- gives the result, the buffer and the file, or the kernel's error with both; it closes the future
  -- and frees the cell. Nothing on the way panics, where the negation of the error is taken to wrap.
  pub transfer_lem :
      (checks : Bool) (w w' w0 : CompatWaker) (r r0 : UringResult) (a : ℕ) (d : Context T F)
      (s : CompletionState (Context T F)) (g : InFlight) (rest : List ℕ)
      → s.heap a ≡ some (waiting r0 w0 d)
      → Inv s g
      → Remove a g.ops rest
      → a ≢ 0
      → bit_and a 1 ≡ 0
      → (h h' : ℕ → Option (Shared (Context T F))) × (transfer checks w w' r a s
          ≡ returned (
            (pending_at a, h, not_ready),
            (closed, h', ready (transferred r.result d)),
            s.woken ++ sleepers w,
          ))
        × (h' a ≡ none)
  unfolding transfer
  transfer_lem checks w w' w0 r r0 a d s g rest at v x nonzero even =
      let h1 : ℕ → Option (Shared (Context T F)) = store s.heap a (some (waiting r0 w d)) in
      let s1 : CompletionState (Context T F) = record s { heap = h1 } in
      let m : ℕ = length rest + one_if g.timer_out + one_if g.park_out in
      let p : InProgress s1.heap a = record {
        cell = waiting r0 w d;
        nonzero = nonzero;
        even = even;
        at = store_same s.heap a (some (waiting r0 w d));
        unfinished = refl;
        owned = omega arith;
      } in
      let count : s1.active_wait ≡ m + 1 = omega (arith, v.counted, length-Remove x) in
      let h2 : ℕ → Option (Shared (Context T F)) =
        store h1 a (release (finish checks r (waiting r0 w d))) in
      let at2 : h2 a ≡ some (done r (wake w).0 d) =
        store_same h1 a (release (finish checks r (waiting r0 w d)))
        ∙ finish-release checks w r r0 d in
      (
        h1,
        store h2 a none,
        rw (poll-waiting w w0 r0 d a s.heap at, transfer, handle_op checks r a m s1 p count)
            (rw (poll-done w' (wake w).0 r d a h2 at2, wake-sleepers w) refl),
        store_same h2 a none,
      )
