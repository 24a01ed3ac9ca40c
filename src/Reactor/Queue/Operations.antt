-- ===== src/Reactor/Queue/Operations.antt =====
-- What becomes of an operation that is queued with its registration.
use rust_io_uring.Prelude.{
  ℕ, ◌^◌, ◌≡◌, ◌≢◌, ◌⊎◌, inl, inr, refl, subst, sym, ap, [], ◌∷◌, ◌++◌, length, arith, ok, err,
  returned, bit_and,
}
use rust_io_uring.Sys.Entry.{SubmissionEntry}
use rust_io_uring.Ring.Submission.{Filler, pending, visible}
use rust_io_uring.Ring.Submission.Valid.{IsValid}
use rust_io_uring.Reactor.Registration.{Shared, into_user_data}
use rust_io_uring.Reactor.State.{CompletionState, store, release}
use rust_io_uring.Reactor.State.InFlight.{InFlight, Inv, InProgress, NotIn, Live-store}
use rust_io_uring.Reactor.Queue.{Inner, enqueue, queue_async, submission_queue_full}
use rust_io_uring.Reactor.Queue.Accept.{Fills, Accepted, Refused, enqueue_lem}

into_user_data_lem : (u : ℕ) → u ≢ 0 → bit_and u 1 ≡ 0 → into_user_data u ≡ returned u
unfolding into_user_data
into_user_data_lem u n e = ground arith

module _ {D : Type 0} where
  -- What `queue_async` does with an operation whose registration is on the heap at `reg`.
  pub record Started (k : ℕ) (entry : SubmissionEntry) (reg : ℕ) (g : InFlight) (i j : Inner D)
      : Type 0 where
    pub valid : IsValid k j.sq
    pub last : pending j.sq ≡ pending i.sq ++ entry ∷ []
    pub shown : visible j.sq ≡ pending j.sq
    pub heap : j.completion_state.heap ≡ i.completion_state.heap
    pub cq : j.cq ≡ i.cq
    pub inv : Inv j.completion_state (record g { ops = reg ∷ g.ops })

  pub record Returned (k : ℕ) (reg : ℕ) (c : Shared D) (g : InFlight) (i j : Inner D) : Type 0 where
    pub valid : IsValid k j.sq
    pub same : pending j.sq ≡ pending i.sq
    pub full : length (pending i.sq) ≡ 2 ^ k
    pub heap : j.completion_state.heap ≡ store i.completion_state.heap reg (release c)
    pub cq : j.cq ≡ i.cq
    pub inv : Inv j.completion_state g

  Accepted-Started :
      {k : ℕ} (reg : ℕ) (entry : SubmissionEntry) (i j : Inner D) (g : InFlight)
      → Inv i.completion_state g
      → InProgress i.completion_state.heap reg
      → NotIn reg g.ops
      → Accepted k entry i j
      → Started k entry reg g i j
  Accepted-Started reg entry i j g w p out a = record {
    valid = a.valid;
    last = a.last;
    shown = a.shown;
    heap = ap (λ (s : CompletionState D). s.heap) a.state;
    cq = ap (λ (x : Inner D). x.cq) a.rest;
    inv =
        subst (λ s. Inv s (record g { ops = reg ∷ g.ops })) (sym a.state)
          (record {
            counted = omega (arith, w.counted);
            timer_known = w.timer_known;
            park_known = w.park_known;
            live = (p, out, w.live);
          });
  }

  -- The registration at `reg`, with its cell `c`, is dropped.
  abbrev dropped_at : ℕ → Shared D → CompletionState D → CompletionState D
  dropped_at reg c s = record s { heap = store s.heap reg (release c) }

  Refused-Returned :
      {k : ℕ} (reg : ℕ) (c : Shared D) (i j : Inner D) (g : InFlight)
      → Inv i.completion_state g
      → NotIn reg g.ops
      → Refused k i j
      → Returned k reg c g i (record j { completion_state = dropped_at reg c j.completion_state })
  Refused-Returned reg c i j g w out a = record {
    valid = a.valid;
    same = a.same;
    full = a.full;
    heap = ap (λ (s : CompletionState D). store s.heap reg (release c)) a.state;
    cq = ap (λ (x : Inner D). x.cq) a.rest;
    inv =
        subst (λ s. Inv (dropped_at reg c s) g) (sym a.state)
          (record {
            counted = w.counted;
            timer_known = w.timer_known;
            park_known = w.park_known;
            live = Live-store i.completion_state.heap reg (release c) g.ops out w.live;
          });
  }

  -- An operation whose registration is on the heap, at an address that nothing in flight uses: the
  -- call returns. Either the entry is the last one that the kernel sees, and its completion is
  -- counted; or the ring is full, the caller gets "submission queue full", and the kernel's copy of
  -- the registration is dropped. In both cases the counters agree with what is in flight.
  pub queue_async_lem :
      {k : ℕ} (f : ℕ → Filler ⊥) (reg : ℕ) (entry : SubmissionEntry) (i : Inner D) (g : InFlight)
      → Fills (f reg) entry
      → IsValid k i.sq
      → Inv i.completion_state g
      → (p : InProgress i.completion_state.heap reg) → NotIn reg g.ops
      → (j : Inner D) × (((queue_async f reg i ≡ returned (j, ok tt)) × Started k entry reg g i j)
          ⊎ ((queue_async f reg i ≡ returned (j, err submission_queue_full))
              × Returned k reg p.cell g i j))
  unfolding queue_async
  queue_async_lem {k = k} f reg entry i g fills v w p out =
      let j : Inner D = (enqueue (f reg) i).0 in
      elim (enqueue_lem {k = k} (f reg) entry i fills v) [
        | inl a ↦ (
          j,
          inl (
            rw (a.0, queue_async, into_user_data_lem reg p.nonzero p.even) refl,
            Accepted-Started reg entry i j g w p out a.1,
          ),
        )
        | inr a ↦ (
          record j { completion_state = dropped_at reg p.cell j.completion_state },
          inr (
            rw (a.0, queue_async, ap (λ (x : CompletionState D). x.heap reg) a.1.state, p.at) refl,
            Refused-Returned reg p.cell i j g w out a.1,
          ),
        )
      ]
