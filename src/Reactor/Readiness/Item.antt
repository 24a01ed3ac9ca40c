-- ===== src/Reactor/Readiness/Item.antt =====
-- The completion of an operation, and the poll after it.
use rust_io_uring.Prelude.{
  ℕ, suc, ℤ, pos, negsuc, ◌%◌, ◌^◌, ◌==◌, if◌then◌else◌, ◌+◌, ◌≡◌, ◌≢◌, refl, ◌∙◌, Bool, true,
  false, List, ◌++◌, some, Result, ok, err, Outcome, returned, ◌>>=◌, bit_and, length, arith,
}
use rust_io_uring.Reactor.Registration.{
  CompatWaker, empty, UringResult, Async, ready, Shared, drop_raw, poll_stream_and_reset,
}
use rust_io_uring.Reactor.State.{CompletionState, release, handle_completion}
use rust_io_uring.Reactor.State.InFlight.{
  InFlight, Inv, InProgress, Remove, one_if, length-Remove, store_same,
}
use rust_io_uring.Reactor.State.Complete.{handle_op, delivered, finish}
use rust_io_uring.Reactor.Queue.{Inner, IoError, raw_os_error, wrapping_neg}
use rust_io_uring.Reactor.Registration.Once.{sleepers, wake-sleepers, wake-empty}
use rust_io_uring.Reactor.Readiness.{AsyncPoll, set_cell, events, take, poll}
use rust_io_uring.Reactor.Readiness.Arm.{idle, busy, set_cell_heap}

-- The completion of the operation and the poll after it.
unfoldable pub item :
    Bool
    → CompatWaker
    → UringResult
    → AsyncPoll
    → Inner (Unit {0})
    → Outcome (AsyncPoll × Inner (Unit {0}) × Result IoError (Async ℕ))
item checks w r p i = do
  t ← handle_completion checks p.address r i.completion_state
  poll true w p (record i { completion_state = t })

-- What a poll operation that the kernel ended with `r` gives the stream: the low 16 bits as an item,
-- or the error with the kernel's number negated as an `i32`.
abbrev pub answer : ℤ → Result IoError (Async ℕ)
answer (pos n) = ok (ready (n % 2 ^ 16))
answer (negsuc n) = err (raw_os_error (if suc n == 2 ^ 31 then negsuc n else pos (suc n)))

-- An error stays an error, and readiness is an item.
abbrev as_item : Result IoError ℕ → Result IoError (Async ℕ)
as_item (ok flags) = ok (ready flags)
as_item (err e) = err e

events-answer : (r : ℤ) → as_item (events r) ≡ answer r
unfolding events wrapping_neg
events-answer (pos n) = refl
events-answer (negsuc n) = refl

-- The cell between the completion and the poll after it.
abbrev taken : UringResult → Shared (Unit {0})
taken r = record {
  inner = record { result = r; finished = true; waker = empty; payload = some tt };
  strong = 1;
}

finish-taken :
    (checks : Bool) (r r0 : UringResult) (w : CompatWaker)
    → release (finish checks r (busy r0 w)) ≡ some (taken r)
unfolding release drop_raw
finish-taken checks r r0 w = rw (wake-empty w) refl

poll_active :
    (w : CompatWaker) (p : AsyncPoll) (i : Inner (Unit {0}))
    → p.active ≡ true
    → poll true w p i ≡ take w p i
unfolding poll
poll_active w p i active = simp active

answered :
    (z : Result IoError ℕ) (p : AsyncPoll) (i : Inner (Unit {0}))
    → (elim z as (λ _. Outcome (AsyncPoll × Inner (Unit {0}) × Result IoError (Async ℕ))) [
      | err e ↦ returned (p, i, err e)
      | ok flags ↦ returned (p, i, ok (ready flags))
    ])
      ≡ returned (p, i, as_item z)
answered (ok flags) p i = refl
answered (err e) p i = refl

poll-taken :
    (w : CompatWaker) (r : UringResult) (p : AsyncPoll) (i : Inner (Unit {0}))
    → p.active ≡ true
    → i.completion_state.heap p.address ≡ some (taken r)
    → poll true w p i
      ≡ returned (record p { active = false }, set_cell p.address (idle r empty) i, answer r.result)
unfolding take poll_stream_and_reset
poll-taken w r p i active at =
    poll_active w p i active
    ∙ rw (at, take) (answered (events r.result) _ _ ∙ rw (events-answer r.result) refl)

-- From an active stream whose operation is in flight: after the completion the poll gives the events,
-- or the kernel's error; the stream is inactive and its cell idle again, as it was before the
-- operation, so that the next poll can queue another one. Nothing on the way panics, where the negation
-- of the error is taken to wrap.
pub item_lem :
    (checks : Bool) (w w0 : CompatWaker) (r r0 : UringResult) (p : AsyncPoll) (i : Inner (Unit {0}))
    (g : InFlight) (rest : List ℕ)
    → p.active ≡ true
    → Inv i.completion_state g
    → Remove p.address g.ops rest
    → i.completion_state.heap p.address ≡ some (busy r0 w0)
    → p.address ≢ 0
    → bit_and p.address 1 ≡ 0
    → (j : Inner (Unit {0})) × (item checks w r p i
        ≡ returned (record p { active = false }, j, answer r.result))
      × (j.completion_state.heap p.address ≡ some (idle r empty))
      × (j.completion_state.woken ≡ i.completion_state.woken ++ sleepers w0)
unfolding item set_cell
item_lem checks w w0 r r0 p i g rest active v x at nonzero even =
    let a : ℕ = p.address in
    let s : CompletionState (Unit {0}) = i.completion_state in
    let m : ℕ = length rest + one_if g.timer_out + one_if g.park_out in
    let alive : InProgress s.heap a = record {
      cell = busy r0 w0;
      nonzero = nonzero;
      even = even;
      at = at;
      unfinished = refl;
      owned = omega arith;
    } in
    let count : s.active_wait ≡ m + 1 = omega (arith, v.counted, length-Remove x) in
    let t : CompletionState (Unit {0}) = delivered checks r a m (busy r0 w0) s in
    let i' : Inner (Unit {0}) = record i { completion_state = t } in
    let held : t.heap a ≡ some (taken r) =
      store_same s.heap a (release (finish checks r (busy r0 w0))) ∙ finish-taken checks r r0 w0 in
    (
      set_cell a (idle r empty) i',
      rw (handle_op checks r a m s alive count) (poll-taken w r p i' active held),
      set_cell_heap a (idle r empty) i',
      rw (wake-sleepers w0) refl,
    )
