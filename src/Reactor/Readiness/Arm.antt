-- ===== src/Reactor/Readiness/Arm.antt =====
-- The poll that queues an operation.
use rust_io_uring.Prelude.{
  ℕ, ◌^◌, ◌≤◌, ◌≡◌, ◌≢◌, ◌⊎◌, inl, inr, refl, sym, ◌∙◌, ap, subst, true, false, [], ◌∷◌, ◌++◌, some,
  ok, err, returned, bit_and, length, arith,
}
use rust_io_uring.Sys.Entry.{zeroed}
use rust_io_uring.Ring.Submission.{pending}
use rust_io_uring.Ring.Submission.Valid.{IsValid}
use rust_io_uring.Reactor.Registration.{
  CompatWaker, UringResult, not_ready, Shared, to_raw, drop_raw, track,
}
use rust_io_uring.Reactor.State.{release, poll_filler}
use rust_io_uring.Reactor.State.InFlight.{InFlight, Inv, InProgress, NotIn, store_same, Live-store}
use rust_io_uring.Reactor.Queue.{Inner, queue_async_poll, submission_queue_full}
use rust_io_uring.Reactor.Queue.Operations.{queue_async_lem}
use rust_io_uring.Reactor.Readiness.{AsyncPoll, set_cell, register, arm}

-- The cell of a stream while no operation is in flight, and while one is.
abbrev pub idle : UringResult → CompatWaker → Shared (Unit {0})
idle r w = record {
  inner = record { result = r; finished = false; waker = w; payload = some tt };
  strong = 1;
}

abbrev pub busy : UringResult → CompatWaker → Shared (Unit {0})
busy r w = record (idle r w) { strong = 2 }

set_cell_sq : (a : ℕ) (c : Shared (Unit {0})) (i : Inner (Unit {0})) → (set_cell a c i).sq ≡ i.sq
unfolding set_cell
set_cell_sq a c i = refl

pub set_cell_heap :
    (a : ℕ) (c : Shared (Unit {0})) (i : Inner (Unit {0}))
    → (set_cell a c i).completion_state.heap a ≡ some c
unfolding set_cell
set_cell_heap a c i = store_same i.completion_state.heap a (some c)

set_cell-Inv :
    (a : ℕ) (c : Shared (Unit {0})) (i : Inner (Unit {0})) {g : InFlight}
    → NotIn a g.ops
    → Inv i.completion_state g
    → Inv (set_cell a c i).completion_state g
unfolding set_cell
set_cell-Inv a c i {g = g} out w = record {
  counted = w.counted;
  timer_known = w.timer_known;
  park_known = w.park_known;
  live = Live-store i.completion_state.heap a (some c) g.ops out w.live;
}

-- The cell of an operation in flight is replaced by another one that is alive.
refresh-Inv :
    (a : ℕ) (c : Shared (Unit {0})) (i : Inner (Unit {0})) {g : InFlight}
    → a ≢ 0
    → bit_and a 1 ≡ 0
    → NotIn a g.ops
    → c.inner.finished ≡ false
    → 1 ≤ c.strong
    → Inv i.completion_state (record g { ops = a ∷ g.ops })
    → Inv (set_cell a c i).completion_state (record g { ops = a ∷ g.ops })
unfolding set_cell
refresh-Inv a c i {g = g} nonzero even out unfinished owned w = record {
  counted = w.counted;
  timer_known = w.timer_known;
  park_known = w.park_known;
  live = (
    record {
      cell = c;
      nonzero = nonzero;
      even = even;
      at = store_same i.completion_state.heap a (some c);
      unfinished = unfinished;
      owned = owned;
    },
    out,
    Live-store i.completion_state.heap a (some c) g.ops out w.live.2,
  );
}

-- The two outcomes of the poll that queues an operation.
pub record Armed (k : ℕ) (w : CompatWaker) (r0 : UringResult) (p : AsyncPoll) (g : InFlight)
    (i j : Inner (Unit {0})) : Type 0 where
  pub ring : IsValid k j.sq
  pub last : pending j.sq ≡ pending i.sq ++ (poll_filler p.fd p.flags p.address zeroed).0 ∷ []
  pub cell : j.completion_state.heap p.address ≡ some (busy r0 w)
  pub inv : Inv j.completion_state (record g { ops = p.address ∷ g.ops })

pub record Declined (k : ℕ) (c : Shared (Unit {0})) (p : AsyncPoll) (g : InFlight)
    (i j : Inner (Unit {0})) : Type 0 where
  pub ring : IsValid k j.sq
  pub full : length (pending i.sq) ≡ 2 ^ k
  pub cell : j.completion_state.heap p.address ≡ some c
  pub inv : Inv j.completion_state g

released : (r : UringResult) (w : CompatWaker) → release (busy r w) ≡ some (idle r w)
unfolding release drop_raw
released r w = refl

register-busy :
    (w w0 : CompatWaker) (r : UringResult) (p : AsyncPoll) (i : Inner (Unit {0}))
    → i.completion_state.heap p.address ≡ some (busy r w0)
    → register w p i
      ≡ returned (record p { active = true }, set_cell p.address (busy r w) i, ok not_ready)
unfolding register track
register-busy w w0 r p i at = rw (at, register) refl

-- Where the ring has 2 ^ k slots and the stream's cell is idle, at an address that no operation in
-- flight uses, the poll of an inactive stream returns. Either it is not ready, the stream is active,
-- the operation is the last entry of the ring, and the cell waits with the task of this poll; or the
-- ring is full, the error says so, and the stream and its cell are as before, so that it can be
-- polled again. The reactor's counters agree with what is in flight.
pub arm_lem :
    {k : ℕ} (w w0 : CompatWaker) (r0 : UringResult) (p : AsyncPoll) (i : Inner (Unit {0}))
    (g : InFlight)
    → IsValid k i.sq
    → Inv i.completion_state g
    → i.completion_state.heap p.address ≡ some (idle r0 w0)
    → p.address ≢ 0
    → bit_and p.address 1 ≡ 0
    → NotIn p.address g.ops
    → (j : Inner (Unit {0})) × (((arm true w p i
            ≡ returned (record p { active = true }, j, ok not_ready))
          × Armed k w r0 p g i j)
        ⊎ ((arm true w p i ≡ returned (p, j, err submission_queue_full))
            × Declined k (idle r0 w0) p g i j))
unfolding arm to_raw queue_async_poll
arm_lem {k = k} w w0 r0 p i g v inv at nonzero even out =
    let a : ℕ = p.address in
    let c : Shared (Unit {0}) = busy r0 w0 in
    let i' : Inner (Unit {0}) = set_cell a c i in
    let alive : InProgress i'.completion_state.heap a = record {
      cell = c;
      nonzero = nonzero;
      even = even;
      at = set_cell_heap a c i;
      unfinished = refl;
      owned = omega arith;
    } in
    let (j, outcome) =
      queue_async_lem {k = k} (poll_filler p.fd p.flags) a (poll_filler p.fd p.flags a zeroed).0 i'
        g refl (subst (IsValid k) (sym (set_cell_sq a c i)) v) (set_cell-Inv a c i out inv) alive
        out in
    let before : pending i'.sq ≡ pending i.sq = ap pending (set_cell_sq a c i) in
    elim outcome [
      | inl o ↦
          let held : j.completion_state.heap a ≡ some c =
            ap (λ h. h a) o.1.heap ∙ set_cell_heap a c i in
          (
            set_cell a (busy r0 w) j,
            inl (
              rw (at, arm, o.0) (register-busy w w0 r0 p j held),
              record {
                ring = subst (IsValid k) (sym (set_cell_sq a (busy r0 w) j)) o.1.valid;
                last =
                    ap pending (set_cell_sq a (busy r0 w) j)
                    ∙ o.1.last
                    ∙ ap (λ l. l ++ (poll_filler p.fd p.flags a zeroed).0 ∷ []) before;
                cell = set_cell_heap a (busy r0 w) j;
                inv =
                    refresh-Inv a (busy r0 w) j {g = g} nonzero even out refl (omega arith) o.1.inv;
              },
            ),
          )
      | inr o ↦ (
        j,
        inr (
          rw (at, arm, o.0) refl,
          record {
            ring = o.1.valid;
            full = sym (ap length before) ∙ o.1.full;
            cell =
                ap (λ h. h a) o.1.heap
                ∙ store_same i'.completion_state.heap a (release c)
                ∙ released r0 w0;
            inv = o.1.inv;
          },
        ),
      )
    ]
