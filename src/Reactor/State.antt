-- ===== src/Reactor/State.antt =====
-- tokio-uring-reactor/src/reactor.rs: `CompletionState`, `Inner` and the calls that put entries into
-- the submission ring. The registrations that the kernel's `user_data` points to stand on a heap
-- from addresses to cells; `D` is the type of the data that they hold.
pub mod InFlight
pub mod Tokens
pub mod Complete
use rust_io_uring.Prelude.{
  ℕ, ◌+◌, ◌-◌, ◌^◌, ℤ, pos, Bool, true, false, List, [], ◌∷◌, ◌++◌, Option, none, some, ◌==◌,
  if◌then◌else◌, bit_and, Result, ok, err, Outcome, returned, panicked, undefined, ◌>>=◌,
  ℕ_discrete,
}
use mathlib.Core.Logic.{ite}
use rust_io_uring.Sys.Entry.{SubmissionEntry}
use rust_io_uring.Sys.Priority.{unset}
use rust_io_uring.Sys.Fill.{Slice, fd, fill_readv, fill_writev, fill_poll_add}
use rust_io_uring.Ring.Submission.{SubmissionQueue, SubmissionError, Filler, bulk_submit_with}
use rust_io_uring.Reactor.Registration.{CompatWaker, UringResult, notify, Shared, drop_raw}
use rust_io_uring.Reactor.Park
use rust_io_uring.Reactor.Park.{clear_event}

-- `CompletionState::TIMER` and `CompletionState::PARK`
abbrev pub timer_event : ℕ
timer_event = 1

abbrev pub park_event : ℕ
park_event = 3

-- `CompletionState`, with the heap and the log of the wakers that completions have woken.
pub record CompletionState (D : Type 0) : Type 0 where
  pub requeue_timer : Bool
  pub timer_pending : Bool
  pub requeue_park : Bool
  pub active_wait : ℕ
  pub park : Park.Shared
  pub heap : ℕ → Option (Shared D)
  pub woken : List CompatWaker

-- `self.active_wait -= 1` on a 64-bit `usize`: at 0 a build with overflow checks panics, and one
-- without wraps.
unfoldable pub decrement : Bool → ℕ → Outcome ℕ
decrement checks n =
    if n == 0 then (if checks then panicked else returned (2 ^ 64 - 1)) else returned (n - 1)

module _ {D : Type 0} where
  abbrev pub store : (ℕ → Option (Shared D)) → ℕ → Option (Shared D) → ℕ → Option (Shared D)
  store h a c b = ite (ℕ_discrete a b) c (h b)

  -- The drop of a `RawRegistration`, which frees the cell when it was its last owner.
  unfoldable pub release : Shared D → Option (Shared D)
  unfolding drop_raw
  release c = (let c' = drop_raw c in if c'.strong == 0 then none else some c')

  -- `CompletionState::new`
  unfoldable pub new_state : CompletionState D
  new_state = record {
    requeue_timer = true;
    timer_pending = false;
    requeue_park = true;
    active_wait = 0;
    park = Park.new;
    heap = λ _. none;
    woken = [];
  }

  -- `RawRegistration::from_user_data(user_data).notify(result)`, and the drop of the registration.
  unfoldable pub notify_at : ℕ → UringResult → CompletionState D → Outcome (CompletionState D)
  notify_at address result s = elim (s.heap address) [
    | none ↦ undefined
    | some c ↦ (do
      p ← notify result c.inner
      returned (record s {
        heap = store s.heap address (release (record c { inner = p.0 }));
        woken = s.woken ++ p.1;
      }))
  ]

  -- The events that are no registration.
  unfoldable pub special_event : ℕ → CompletionState D → Outcome (CompletionState D)
  unfolding clear_event
  special_event user_data s =
      if user_data == timer_event
      then returned (record s { requeue_timer = true; timer_pending = true })
      else if user_data == park_event
      then returned (record s { park = clear_event s.park; requeue_park = true })
      else panicked

  -- `CompletionState::handle_completion`
  unfoldable pub handle_completion :
      Bool → ℕ → UringResult → CompletionState D → Outcome (CompletionState D)
  handle_completion checks user_data result s = if user_data == 0 then returned s else do
    n ← decrement checks s.active_wait
    let s' : CompletionState D = record s { active_wait = n }
    if bit_and user_data 1 == 0 then notify_at user_data result s' else special_event user_data s'

-- The closures of `queue_timer_poll` and `queue_park_read`, of `queue_async_read`,
-- `queue_async_write` and `queue_async_poll`. `POLLIN` is libc's; an address stands for the raw
-- registration, whose `into_user_data` gives it.
abbrev pub poll_filler : ℤ → ℕ → ℕ → Filler ⊥
poll_filler file events user_data e =
    (record (fill_poll_add (fd file) events e) { user_data = user_data }, ok tt)

abbrev pub read_filler : ℤ → ℕ → Slice → ℕ → Filler ⊥
read_filler file offset vecs user_data e =
    (record (fill_readv unset (fd file) offset 0 vecs e) { user_data = user_data }, ok tt)

abbrev pub write_filler : ℤ → ℕ → Slice → ℕ → Filler ⊥
write_filler file offset vecs user_data e =
    (record (fill_writev unset (fd file) offset 0 vecs e) { user_data = user_data }, ok tt)
