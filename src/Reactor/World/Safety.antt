-- ===== src/Reactor/World/Safety.antt =====
-- What holds in every state that a new reactor may come to, with its futures, the kernel and the other
-- threads acting in any order.
use rust_io_uring.Prelude.{
  ℕ, ◌+◌, ◌≤◌, ◌<◌, ◌≡◌, ◌⊎◌, inl, inr, refl, sym, ap, subst, true, false, ℤ, List, [], ◌∷◌, Option,
  none, some, length, arith, count, returned, Result, bit_and, ◌^◌, ◌==◌, Bool-cases,
}
use rust_io_uring.Sys.Fill.{Slice}
use rust_io_uring.Ring.Submission.{pending}
use rust_io_uring.Ring.Submission.Valid.{IsValid}
use rust_io_uring.Ring.Completion.{available}
use rust_io_uring.Ring.Completion.Valid
use rust_io_uring.Reactor.Registration.{CompatWaker, Shared, ready, not_ready}
use rust_io_uring.Reactor.State.InFlight.{InFlight, Remove, Live-Remove, InProgress}
use rust_io_uring.Reactor.State.Tokens.{Remove-one, op_there}
use rust_io_uring.Reactor.Queue.{Inner, IoError}
use rust_io_uring.Reactor.Turn.{park, park_timeout}
use rust_io_uring.Reactor.Turn.Extends.{entry_keys}
use rust_io_uring.Reactor.Turn.Honest.{keys}
use rust_io_uring.Reactor.Transfer.{Context, TransferError, pending_at, closed, poll}
use rust_io_uring.Reactor.World.{World, Reach}
use rust_io_uring.Reactor.World.Owners.{Owned}
use rust_io_uring.Reactor.World.Good.{Good, outstanding}
use rust_io_uring.Reactor.World.Futures.{polled-Good}
use rust_io_uring.Reactor.World.Steps.{Reach-Good}
use rust_io_uring.Reactor.World.Call.{Acts, Safely, park_inner-Safely}

-- A new reactor with empty rings of 2 ^ k and 2 ^ l slots and no future.
pub record IsFresh {T F : Type 0} (k l : ℕ) (w : World T F) : Type 0 where
  pub ring : IsValid k w.reactor.sq
  pub cring : Valid.IsValid l w.reactor.cq
  pub no_pending : pending w.reactor.sq ≡ []
  pub no_available : available w.reactor.cq ≡ []
  pub none_held : w.held ≡ []
  pub no_futures : w.futures ≡ []
  pub no_cells : (a : ℕ) → w.reactor.completion_state.heap a ≡ none
  pub no_wait : w.reactor.completion_state.active_wait ≡ 0
  pub timer_unarmed : w.reactor.completion_state.requeue_timer ≡ true
  pub park_unarmed : w.reactor.completion_state.requeue_park ≡ true

abbrev nothing : InFlight
nothing = record { timer_out = false; park_out = false; ops = [] }

IsFresh-Good : {T F : Type 0} {k l : ℕ} (w : World T F) → IsFresh k l w → Good k l w nothing
IsFresh-Good w f = record {
  sound = record {
    ring = f.ring;
    inv = record {
      counted = f.no_wait;
      timer_known = f.timer_unarmed;
      park_known = f.park_unarmed;
      live = tt;
    };
  };
  cring = f.cring;
  owners = λ a.
      subst (λ o. Owned o (count a w.futures + 0)) (sym (f.no_cells a))
        (omega (arith, ap (count a) f.no_futures));
  balance = λ u. omega (
    arith,
    ap (λ es. count u (entry_keys es)) f.no_pending,
    ap (count u) f.none_held,
    ap (λ cs. count u (keys cs)) f.no_available,
  );
  single = λ a. omega (arith, ap (count a) f.no_futures);
}

length-nil : (us : List ℕ) → length us ≡ 0 → us ≡ []
length-nil [] e = refl
length-nil (u ∷ us) e = absurd (omega (arith, e))

Owned-none : {D : Type 0} (o : Option (Shared D)) → Owned o 0 → o ≡ none
Owned-none none e = refl
Owned-none (some c) o = absurd (omega (arith, o.1))

module _ {T F : Type 0} (as_raw_fd : F → ℤ) (bytes : T → Slice) {k l : ℕ} {v w : World T F}
    (fresh : IsFresh k l v) (r : Reach as_raw_fd bytes v w) where
  pub reached : (h : InFlight) × Good k l w h
  reached = Reach-Good as_raw_fd bytes r nothing (IsFresh-Good v fresh)

  -- From a new reactor on, in every state that its calls, its reads and writes, the kernel and the
  -- other threads lead to in any order, in a build without overflow checks:
  -- the poll of a read or a write that waits returns: it is not ready and waits
  -- on, or it is ready and closed.
  pub poll_safe :
      (x : CompatWaker) (a : ℕ) (futures : List ℕ)
      → Remove a w.futures futures
      → (h : ℕ → Option (Shared (Context T F))) × ((poll x
              (pending_at a)
              w.reactor.completion_state.heap
            ≡ returned (pending_at a, h, not_ready))
          ⊎ ((o : Result (TransferError T F) (ℕ × T × F)) × (poll x
                  (pending_at a)
                  w.reactor.completion_state.heap
                ≡ returned (closed, h, ready o))))
  poll_safe x a futures gone =
      let (g, good) = reached in
      elim (polled-Good w good x a futures gone) [
        | inl (h, e, _) ↦ (h, inl e)
        | inr (h, o, e, _) ↦ (h, inr (o, e))
      ]

  -- From a new reactor on, in every state that its calls, its reads and writes, the kernel and the
  -- other threads lead to in any order, in a build without overflow checks:
  -- an even `user_data` that waits in the submission ring, is with the kernel or
  -- waits in the completion ring is the address of a cell that is alive, not finished and holds the
  -- buffer and the file, whether its future is still there or not.
  pub buffer_safe :
      (u : ℕ)
      → bit_and u 1 ≡ 0
      → 1 ≤ outstanding u w
      → (c : Shared (Context T F)) × (d : Context T F) × (w.reactor.completion_state.heap u
          ≡ some c)
        × (c.inner.finished ≡ false)
        × (c.inner.payload ≡ some d)
        × (1 ≤ c.strong)
  buffer_safe u even out =
      let (g, good) = reached in
      let (vs, gone) = Remove-one u g.ops (op_there u g even (omega (arith, good.balance u))) in
      let p : InProgress w.reactor.completion_state.heap u =
        (Live-Remove gone good.sound.inv.live).0 in
      let owned : Owned (some p.cell) (count u w.futures + count u g.ops) =
        subst (λ o. Owned o (count u w.futures + count u g.ops)) p.at (good.owners u) in
      let (d, e) = owned.2 in (p.cell, d, p.at, p.unfinished, e, p.owned)

  -- From a new reactor on, in every state that its calls, its reads and writes, the kernel and the
  -- other threads lead to in any order, in a build without overflow checks:
  -- if no future is left and the reactor waits for no completion, all cells are
  -- freed.
  pub no_leak :
      w.futures ≡ []
      → w.reactor.completion_state.active_wait ≡ 0
      → (a : ℕ) → w.reactor.completion_state.heap a ≡ none
  no_leak empty idle a =
      let (g, good) = reached in
      let quiet : g.ops ≡ [] = length-nil g.ops (omega (arith, good.sound.inv.counted, idle)) in
      Owned-none (w.reactor.completion_state.heap a) (
        subst (Owned (w.reactor.completion_state.heap a))
          (omega (arith, ap (count a) empty, ap (count a) quiet)) (good.owners a))

  -- From a new reactor on, in every state that its calls, its reads and writes, the kernel and the
  -- other threads lead to in any order, in a build without overflow checks,
  -- with fuel for more rounds than the completion ring has slots, and an
  -- `io_uring_enter` during which the kernel takes and answers entries and other threads change the
  -- park state: `park` and `park_timeout` return, neither panicking nor touching a freed cell; an
  -- error is one of `io_uring_enter`; and what they leave is again such a state.
  pub park_safe :
      (call : ℕ → ℕ → ℕ → Inner (Context T F) → Inner (Context T F) × Result IoError ℕ)
      → ((n m flags : ℕ) (j : Inner (Context T F))
          → Reach as_raw_fd bytes w (record w { reactor = j })
          → (held : List ℕ) × Acts
              (record w { reactor = j })
              (record w { reactor = (call n m flags j).0; held = held }))
      → (fuel : ℕ) → 2 ^ l < fuel
      → Safely call as_raw_fd bytes w (park call false fuel w.reactor)
        × ((duration : ℕ)
            → Safely call as_raw_fd bytes w (park_timeout call false fuel duration w.reactor))
  unfolding park park_timeout
  park_safe call serves fuel enough =
      let (g, good) = reached in
      let turn = park_inner-Safely as_raw_fd bytes w good fuel enough call serves in
      (
        turn true none,
        λ duration. elim (Bool-cases (duration == 0)) [
          | inl e ↦ rw e (turn false none)
          | inr e ↦ rw e (turn true (some duration))
        ],
      )
