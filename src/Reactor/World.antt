-- ===== src/Reactor/World.antt =====
-- The reactor with what it runs among: the futures of its reads and writes (tokio-uring-reactor/src/
-- reactor/async_read.rs, async_write.rs), the kernel behind the two rings, and the other threads.
-- A step is a call of the process, an act of the kernel, or any change of the park state that other
-- threads can see. A build without overflow checks.
pub mod Owners
pub mod Cells
pub mod Good
pub mod Turns
pub mod Futures
pub mod Begin
pub mod Steps
pub mod Safety
pub mod Call
pub mod Effect
pub mod Way
pub mod Deliver
pub mod Progress
mod Tests
use rust_io_uring.Prelude.{
  ℕ, ◌-◌, ◌+◌, ◌<◌, ◌≡◌, ◌≢◌, ℤ, Bool, true, false, List, [], ◌∷◌, ◌++◌, Option, none, some,
  Outcome, returned, Result, bit_and, length, wrapping_sub,
}
use rust_io_uring.Sys.Entry.{CompletionEntry}
use rust_io_uring.Sys.Fill.{Slice}
use rust_io_uring.Ring.Submission.{entry_at}
use rust_io_uring.Ring.Submission.Kernel.{taken}
use rust_io_uring.Ring.Completion.{available}
use rust_io_uring.Ring.Completion.Kernel.{posted, overflowed}
use rust_io_uring.Reactor.Registration.{CompatWaker, Shared, Async, ready, not_ready}
use rust_io_uring.Reactor.Park
use rust_io_uring.Reactor.State.{CompletionState, store, release}
use rust_io_uring.Reactor.State.InFlight.{Remove}
use rust_io_uring.Reactor.Queue.{Inner}
use rust_io_uring.Reactor.Turn.{check_completions, prepare, leave_park}
use rust_io_uring.Reactor.Transfer.{
  Context, State, TransferError, pending_at, init_failed, closed, start_read, start_write, poll,
}

-- `held` is the `user_data` of the operations that the kernel has taken and not answered; `futures`
-- the addresses of the registrations of the futures that wait.
pub record World (T F : Type 0) : Type 0 where
  pub reactor : Inner (Context T F)
  pub held : List ℕ
  pub futures : List ℕ

module _ {T F : Type 0} where
  abbrev pub with_heap :
      (ℕ → Option (Shared (Context T F))) → Inner (Context T F) → Inner (Context T F)
  with_heap h i = record i { completion_state = record i.completion_state { heap = h } }

  -- The kernel takes the entry at its head.
  abbrev pub take_entry : Inner (Context T F) → Inner (Context T F)
  take_entry i = record i { sq = taken i.sq }

  -- `AsyncWrite::new` or `AsyncRead::new`
  abbrev pub start_transfer :
      (F → ℤ)
      → (T → Slice)
      → Bool
      → Inner (Context T F)
      → ℕ
      → ℕ
      → F
      → ℕ
      → T
      → Outcome (Option (Inner (Context T F)) × State T F)
  start_transfer as_raw_fd bytes true i = start_write as_raw_fd bytes (some i)
  start_transfer as_raw_fd bytes false i = start_read as_raw_fd bytes (some i)

  module _ (as_raw_fd : F → ℤ) (bytes : T → Slice) where
    -- The allocator gives an address that is not in use. The kernel answers only what it holds, once,
    -- or drops the answer when the ring has no room. Loops have fuel for more rounds than there are
    -- completions. A poll and a drop are of a future that is there.
    pub data Step (w : World T F) : World T F → Type 0 where
      begin :
          (write : Bool) (a vec : ℕ) (file : F) (offset : ℕ) (buffer : T) (j : Inner (Context T F))
          → a ≢ 0
          → bit_and a 1 ≡ 0
          → w.reactor.completion_state.heap a ≡ none
          → start_transfer as_raw_fd bytes write w.reactor a vec file offset buffer
            ≡ returned (some j, pending_at a)
          → Step w (record w { reactor = j; futures = a ∷ w.futures })
      refuse :
          (write : Bool) (a vec : ℕ) (file : F) (offset : ℕ) (buffer : T) (j : Inner (Context T F))
          (e : TransferError T F)
          → a ≢ 0
          → bit_and a 1 ≡ 0
          → w.reactor.completion_state.heap a ≡ none
          → start_transfer as_raw_fd bytes write w.reactor a vec file offset buffer
            ≡ returned (some j, init_failed e)
          → Step w (record w { reactor = j })
      take :
          w.reactor.sq.k_head ≢ w.reactor.sq.k_tail
          → Step w (record w {
            reactor = take_entry w.reactor;
            held = (entry_at w.reactor.sq w.reactor.sq.k_head).user_data ∷ w.held;
          })
      answer :
          (c : CompletionEntry) (held : List ℕ)
          → Remove c.user_data w.held held
          → wrapping_sub w.reactor.cq.k_tail w.reactor.cq.k_head < length w.reactor.cq.k_cqes
          → Step w
              (record w { reactor = record w.reactor { cq = posted c w.reactor.cq }; held = held })
      lose :
          (u : ℕ) (held : List ℕ)
          → Remove u w.held held
          → Step w (record w {
            reactor = record w.reactor { cq = overflowed w.reactor.cq };
            held = held;
          })
      check :
          (fuel : ℕ) (j : Inner (Context T F)) (received : Bool)
          → length (available w.reactor.cq) < fuel
          → check_completions false fuel w.reactor ≡ returned (j, received)
          → Step w (record w { reactor = j })
      enter :
          (fuel : ℕ) (wait : Bool) (timeout : Option ℕ) (j : Inner (Context T F)) (n : ℕ)
          (waits : Bool)
          → length (available w.reactor.cq) < fuel
          → prepare false fuel wait timeout w.reactor ≡ returned (j, n, waits)
          → Step w (record w { reactor = j })
      leave : Step w (record w { reactor = leave_park w.reactor })
      others :
          (shared : Park.Shared)
          → Step w (record w {
            reactor = record w.reactor {
              completion_state = record w.reactor.completion_state { park = shared };
            };
          })
      poll_again :
          (x : CompatWaker) (a : ℕ) (futures : List ℕ) (h : ℕ → Option (Shared (Context T F)))
          → Remove a w.futures futures
          → poll x (pending_at a) w.reactor.completion_state.heap
            ≡ returned (pending_at a, h, not_ready)
          → Step w (record w { reactor = with_heap h w.reactor })
      finish :
          (x : CompatWaker) (a : ℕ) (futures : List ℕ) (h : ℕ → Option (Shared (Context T F)))
          (o : Result (TransferError T F) (ℕ × T × F))
          → Remove a w.futures futures
          → poll x (pending_at a) w.reactor.completion_state.heap ≡ returned (closed, h, ready o)
          → Step w (record w { reactor = with_heap h w.reactor; futures = futures })
      drop :
          (a : ℕ) (futures : List ℕ) (c : Shared (Context T F))
          → Remove a w.futures futures
          → w.reactor.completion_state.heap a ≡ some c
          → Step w (record w {
            reactor = with_heap (store w.reactor.completion_state.heap a (release c)) w.reactor;
            futures = futures;
          })

    pub data Reach (v : World T F) : World T F → Type 0 where
      here : Reach v v
      later : {w x : World T F} → Reach v w → Step w x → Reach v x
