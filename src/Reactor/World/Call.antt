-- ===== src/Reactor/World/Call.antt =====
-- `park_inner` of tokio-uring-reactor/src/reactor.rs as a whole, `io_uring_enter` included, in the
-- world of the reactor.
mod Tests
use rust_io_uring.Prelude.{
  ℕ, ◌+◌, ◌≤◌, ◌<◌, ◌^◌, ◌≡◌, ◌≢◌, ◌⊎◌, inl, inr, refl, sym, ◌∙◌, ap, Bool, true, false, not, ◌&&◌,
  ℤ, List, ◌∷◌, Option, length, arith, returned, Outcome, Result, ok, err, ◌>>=◌, ◌==◌,
  if◌then◌else◌, wrapping_sub,
}
use rust_io_uring.Sys.Entry.{CompletionEntry}
use rust_io_uring.Sys.Fill.{Slice}
use rust_io_uring.Sys.Flags.EnterFlags
use rust_io_uring.Ring.Submission.{entry_at}
use rust_io_uring.Ring.Completion.{available}
use rust_io_uring.Ring.Completion.Valid
use rust_io_uring.Ring.Completion.Kernel.{posted, overflowed}
use rust_io_uring.Reactor.Park
use rust_io_uring.Reactor.State.InFlight.{InFlight, Remove}
use rust_io_uring.Reactor.Queue.{Inner, IoError}
use rust_io_uring.Reactor.Turn.{check_completions, leave_park, park_inner}
use rust_io_uring.Reactor.Transfer.{Context}
use rust_io_uring.Reactor.World.{
  World, take_entry, Reach, here, later, take, answer, lose, others, check, enter, leave,
}
use rust_io_uring.Reactor.World.Good.{Good}
use rust_io_uring.Reactor.World.Turns.{prepared-Good, checked-Good}
use rust_io_uring.Reactor.World.Steps.{Reach-Good}

module _ {T F : Type 0} where
  -- What may happen while the reactor's thread is in a system call: the kernel takes entries, answers
  -- them or drops the answer, and other threads change the park state.
  pub data Act (w : World T F) : World T F → Type 0 where
    takes :
        w.reactor.sq.k_head ≢ w.reactor.sq.k_tail
        → Act w (record w {
          reactor = take_entry w.reactor;
          held = (entry_at w.reactor.sq w.reactor.sq.k_head).user_data ∷ w.held;
        })
    answers :
        (c : CompletionEntry) (held : List ℕ)
        → Remove c.user_data w.held held
        → wrapping_sub w.reactor.cq.k_tail w.reactor.cq.k_head < length w.reactor.cq.k_cqes
        → Act w
            (record w { reactor = record w.reactor { cq = posted c w.reactor.cq }; held = held })
    loses :
        (u : ℕ) (held : List ℕ)
        → Remove u w.held held
        → Act w
            (record w { reactor = record w.reactor { cq = overflowed w.reactor.cq }; held = held })
    changes :
        (shared : Park.Shared)
        → Act w (record w {
          reactor = record w.reactor {
            completion_state = record w.reactor.completion_state { park = shared };
          };
        })

  pub data Acts (v : World T F) : World T F → Type 0 where
    idle : Acts v v
    also : {w x : World T F} → Acts v w → Act w x → Acts v x

  module _ (as_raw_fd : F → ℤ) (bytes : T → Slice) where
    Acts-Reach :
        {v w x : World T F} → Reach as_raw_fd bytes v w → Acts w x → Reach as_raw_fd bytes v x
    Acts-Reach r idle = r
    Acts-Reach r (also s (takes ne)) = later (Acts-Reach r s) (take ne)
    Acts-Reach r (also s (answers c held gone room)) =
        later (Acts-Reach r s) (answer c held gone room)
    Acts-Reach r (also s (loses u held gone)) = later (Acts-Reach r s) (lose u held gone)
    Acts-Reach r (also s (changes shared)) = later (Acts-Reach r s) (others shared)

available_le :
    {T F : Type 0} {k l : ℕ} {w : World T F} {g : InFlight}
    → Good k l w g
    → length (available w.reactor.cq) ≤ 2 ^ l
available_le {w = w} good =
    omega (arith, good.cring.bounded, good.cring.unread, Valid.length-available w.reactor.cq)

-- The answer of `park_inner` for the one of `io_uring_enter`.
abbrev pub answer_of : Result IoError ℕ → Result IoError (Unit {0})
answer_of (ok n) = ok tt
answer_of (err e) = err e

-- The outcome of a turn from `w`: it returns, an error is one of `io_uring_enter`, and what it leaves
-- is a state that steps of the world lead to.
unfoldable pub Safely :
    {T F : Type 0}
    → (ℕ → ℕ → ℕ → Inner (Context T F) → Inner (Context T F) × Result IoError ℕ)
    → (F → ℤ)
    → (T → Slice)
    → World T F
    → Outcome (Inner (Context T F) × Result IoError (Unit {0}))
    → Type 0
Safely {T} {F} call as_raw_fd bytes w outcome =
    (i : Inner (Context T F)) × (r : Result IoError (Unit {0})) × (held : List ℕ) × (outcome
      ≡ returned (i, r))
    × ((r ≡ ok tt)
        ⊎ ((n m flags : ℕ) × (j : Inner (Context T F)) × (r ≡ answer_of (call n m flags j).1)))
    × Reach as_raw_fd bytes w (record w { reactor = i; held = held })

-- `park_inner` behind the call.
abbrev after_call :
    {D : Type 0} → ℕ → Inner D × Result IoError ℕ → Outcome (Inner D × Result IoError (Unit {0}))
after_call fuel p = elim p.1 [
  | err e ↦ returned (leave_park p.0, err e)
  | ok _ ↦ (do (i, received) ← check_completions false fuel (leave_park p.0); returned (i, ok tt))
]

module _ {T F : Type 0} (as_raw_fd : F → ℤ) (bytes : T → Slice) {k l : ℕ} (w : World T F)
    {g : InFlight} (good : Good k l w g) (fuel : ℕ) (enough : 2 ^ l < fuel) where
  -- Behind the call: the guard is dropped and the completions are handled.
  behind :
      (x : World T F)
      → Reach as_raw_fd bytes w x
      → (r : Result IoError ℕ)
      → (i : Inner (Context T F)) × (after_call fuel (x.reactor, r) ≡ returned (i, answer_of r))
        × Reach as_raw_fd bytes w (record x { reactor = i })
  behind x reach (err e) = (leave_park x.reactor, refl, later reach leave)
  behind x reach (ok n) =
      let left : World T F = record x { reactor = leave_park x.reactor } in
      let (f, fine) = Reach-Good as_raw_fd bytes (later reach leave) g good in
      let lt : length (available left.reactor.cq) < fuel = omega (arith, available_le fine) in
      let (i, h, _, e, _) = checked-Good left fine fuel lt in
      (i, rw e, later (later reach leave) (check fuel i _ lt e))

  module _ (call : ℕ → ℕ → ℕ → Inner (Context T F) → Inner (Context T F) × Result IoError ℕ)
      (serves : (n m flags : ℕ) (j : Inner (Context T F))
        → Reach as_raw_fd bytes w (record w { reactor = j })
        → (held : List ℕ) × Acts
            (record w { reactor = j })
            (record w { reactor = (call n m flags j).0; held = held })) where
    -- The call itself and what is behind it.
    called :
        (j : Inner (Context T F)) (n m flags : ℕ)
        → Reach as_raw_fd bytes w (record w { reactor = j })
        → (i : Inner (Context T F)) × (held : List ℕ) × (after_call fuel (call n m flags j)
            ≡ returned (i, answer_of (call n m flags j).1))
          × Reach as_raw_fd bytes w (record w { reactor = i; held = held })
    called j n m flags reach =
        let (held, acts) = serves n m flags j reach in
        let (i, e, there) =
          behind (record w { reactor = (call n m flags j).0; held = held })
            (Acts-Reach as_raw_fd bytes reach acts) (call n m flags j).1 in
        (i, held, e, there)

    -- `park_inner` behind `prepare`, as one of three: no call, a call that waits, one that does not.
    entered :
        (j : Inner (Context T F)) (n : ℕ) (none_due waits : Bool)
        → Reach as_raw_fd bytes w (record w { reactor = j })
        → Safely call as_raw_fd bytes w (
            if none_due
            then returned (leave_park j, ok tt)
            else after_call fuel (if waits then call n 1 EnterFlags.getevents j else call n 0 0 j))
    unfolding Safely
    entered j n true waits reach = (leave_park j, ok tt, w.held, refl, inl refl, later reach leave)
    entered j n false true reach =
        let (i, held, e, there) = called j n 1 EnterFlags.getevents reach in
        (i, _, held, e, inr (n, 1, EnterFlags.getevents, j, refl), there)
    entered j n false false reach =
        let (i, held, e, there) = called j n 0 0 reach in
        (i, _, held, e, inr (n, 0, 0, j, refl), there)

    pub park_inner-Safely :
        (wait : Bool) (timeout : Option ℕ)
        → Safely call as_raw_fd bytes w (park_inner call false fuel wait timeout w.reactor)
    unfolding park_inner Safely
    park_inner-Safely wait timeout =
        let lt : length (available w.reactor.cq) < fuel = omega (arith, available_le good) in
        let (j, n, waits, _, e, _, _) = prepared-Good w good fuel wait timeout lt in
        let (i, r, held, e', why, there) =
          entered j n ((n == 0) && not waits) waits
            (later here (enter fuel wait timeout j n waits lt e)) in
        (i, r, held, rw (e, e'), why, there)
