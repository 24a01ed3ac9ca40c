-- ===== src/Reactor/World/Progress.antt =====
-- That completions reach the futures that wait for them, in every state that a new reactor may come to.
mod Tests
use rust_io_uring.Prelude.{
  ℕ, ◌≤◌, ◌<◌, ◌≡◌, ◌∙◌, refl, ap, arith, true, false, ℤ, List, [], ◌∷◌, ◌++◌, Option, none, some,
  count, length, returned, bit_and,
}
use mathlib.Core.List.{Memᴰ}
use rust_io_uring.Sys.Entry.{CompletionEntry}
use rust_io_uring.Sys.Fill.{Slice}
use rust_io_uring.Ring.Completion.{available}
use rust_io_uring.Reactor.Registration.{CompatWaker, UringResult, Shared, wake, ready}
use rust_io_uring.Reactor.State.{store}
use rust_io_uring.Reactor.State.InFlight.{Remove}
use rust_io_uring.Reactor.Queue.{Inner}
use rust_io_uring.Reactor.Turn.{check_completions}
use rust_io_uring.Reactor.Turn.Drain.{nonempty}
use rust_io_uring.Reactor.Turn.Honest.{keys}
use rust_io_uring.Reactor.Transfer.{Context, poll, pending_at, closed, outcome}
use rust_io_uring.Reactor.Transfer.Finish.{transferred, outcome-transferred}
use rust_io_uring.Reactor.Registration.Once.{sleepers, wake-sleepers}
use rust_io_uring.Reactor.World.{World, Reach}
use rust_io_uring.Reactor.World.Safety.{IsFresh, reached}
use rust_io_uring.Reactor.World.Deliver.{waiting_lem, delivered_lem, poll_finished}

nonempty-keys : (a : ℕ) (cs : List CompletionEntry) → 1 ≤ count a (keys cs) → nonempty cs ≡ true
nonempty-keys a [] h = absurd (omega (arith, h))
nonempty-keys a (c ∷ cs) h = refl

module _ {T F : Type 0} (as_raw_fd : F → ℤ) (bytes : T → Slice) {k l : ℕ} {v w : World T F}
    (fresh : IsFresh k l v) (r : Reach as_raw_fd bytes v w) where
  -- From a new reactor on, in every state that its calls, its reads and writes, the kernel and the
  -- other threads lead to in any order, in a build without overflow checks: where a read or a write at
  -- the even address `a` waits and a completion with `a` as its `user_data` is in the ring, its cell
  -- holds the context `d`, and `check_completions`, with fuel for more rounds than there are
  -- completions, returns and wakes the waker that waits in the cell. Any poll after it is ready with
  -- the result of such a completion and the buffer and the file of `d`, closes the future and frees
  -- the cell.
  pub completion_delivered :
      (a : ℕ) (futures : List ℕ) (fuel : ℕ)
      → bit_and a 1 ≡ 0
      → Remove a w.futures futures
      → 1 ≤ count a (keys (available w.reactor.cq))
      → length (available w.reactor.cq) < fuel
      → (c : Shared (Context T F)) × (d : Context T F) × (e : CompletionEntry) × (i : Inner
          (Context T F))
        × (before after : List CompatWaker) × (w.reactor.completion_state.heap a ≡ some c)
        × (c.inner.payload ≡ some d)
        × Memᴰ e (available w.reactor.cq)
        × (e.user_data ≡ a)
        × (check_completions false fuel w.reactor ≡ returned (i, true))
        × (i.completion_state.woken ≡ before ++ sleepers c.inner.waker ++ after)
        × ((x : CompatWaker)
            → poll x (pending_at a) i.completion_state.heap
              ≡ returned
                  (closed, store i.completion_state.heap a none, ready (transferred e.res d)))
  completion_delivered a futures fuel even waits there lt =
      let (g, good) = reached as_raw_fd bytes {k = k} {l = l} fresh r in
      let (c, d, at, payload, two) = waiting_lem w good a even futures waits there in
      let (i, h, ran, (_, result, (e, among, key, same), freed, before, after, woken)) =
        delivered_lem w good a even futures waits there c at fuel lt in
      (
        c,
        d,
        e,
        i,
        before,
        after,
        at,
        payload,
        among,
        key,
        ran ∙ ap (λ b. returned (i, b)) (nonempty-keys a (available w.reactor.cq) there),
        woken ∙ ap (λ ws. before ++ ws ++ after) (wake-sleepers c.inner.waker),
        λ x.
            poll_finished w good a even futures waits there x i.completion_state.heap c d result two
              payload freed
            ∙ ap
                (λ (r : UringResult).
                  returned
                    (closed, store i.completion_state.heap a none, ready (outcome r.result d)))
                same
            ∙ ap (λ o. returned (closed, store i.completion_state.heap a none, ready o))
                (outcome-transferred e.res d),
      )
