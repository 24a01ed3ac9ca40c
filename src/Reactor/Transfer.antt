-- ===== src/Reactor/Transfer.antt =====
-- tokio-uring-reactor/src/reactor/async_read.rs and async_write.rs, which are the same but for the
-- opcode: the future of a read or a write. `as_raw_fd` gives a file's descriptor and `bytes` a
-- buffer's memory (`AsMut` and `AsRef`). `Registration::new` allocates its cell at `address`, and
-- the context's array of one iovec lies at `vec`. The methods for tasks take the new
-- `CompatWaker`; Wakers has those for wakers.
pub mod Start
pub mod Finish
pub mod Wakers
use rust_io_uring.Prelude.{
  ℕ, suc, ℤ, pos, negsuc, Option, none, some, Result, ok, err, Outcome, returned, panicked,
  undefined, ◌>>=◌,
}
use rust_io_uring.Sys.Fill.{Slice}
use rust_io_uring.Reactor.Registration.{
  CompatWaker, UringResult, Async, ready, not_ready, Shared, share, to_raw, abort,
}
use rust_io_uring.Reactor.Registration
use rust_io_uring.Reactor.State.{CompletionState, store, release}
use rust_io_uring.Reactor.Queue.{
  Inner, IoError, reactor_dead, raw_os_error, wrapping_neg, queue_async_read, queue_async_write,
}

-- `AsyncReadError` and `AsyncWriteError`
pub record TransferError (T F : Type 0) : Type 0 where
  pub error : IoError
  pub buffer : T
  pub file : F

-- `iovec` describes the buffer's memory.
pub record Context (T F : Type 0) : Type 0 where
  pub iovec : Slice
  pub buffer : T
  pub file : F

pub data State (T F : Type 0) : Type 0 where
  pending_at : ℕ → State T F
  init_failed : TransferError T F → State T F
  closed : State T F

-- A read or a write that the reactor queues: descriptor, offset, iovecs and registration.
abbrev pub Queue : Type 0 → Type 0
Queue D = ℤ → ℕ → Slice → ℕ → Inner D → Outcome (Inner D × Result IoError (Unit {0}))

-- The future, the heap and the answer after a poll.
abbrev pub Polled : Type 0 → Type 0 → Type 0
Polled T F =
    State T F × (ℕ → Option (Shared (Context T F))) × Async (Result (TransferError T F) (ℕ × T × F))

module _ {T F : Type 0} where
  unfoldable pub with_error : Context T F → IoError → TransferError T F
  with_error c e = record { error = e; buffer = c.buffer; file = c.file }

  -- The cell at `address`, written by `Registration::new` or freed by `abort`.
  unfoldable pub put : ℕ → Option (Shared (Context T F)) → Inner (Context T F) → Inner (Context T F)
  put address c i =
      let s : CompletionState (Context T F) = i.completion_state in
      record i { completion_state = record s { heap = store s.heap address c } }

  -- The end of `new` after an error of the queue: the registration gives the context back.
  unfoldable pub give_back :
      ℕ → IoError → Inner (Context T F) → Outcome (Option (Inner (Context T F)) × State T F)
  unfolding put with_error
  give_back address e i = elim (i.completion_state.heap address) [
    | none ↦ undefined
    | some c ↦ (do
      context ← abort c
      elim context [
        | none ↦ panicked
        | some d ↦ returned (some (put address none i), init_failed (with_error d e))
      ])
  ]

  module _ (as_raw_fd : F → ℤ) (bytes : T → Slice) where
    -- `AsyncRead::new` and `AsyncWrite::new`, by what they queue. Without a reactor the handle does
    -- not upgrade.
    unfoldable pub start :
        Queue (Context T F)
        → Option (Inner (Context T F))
        → ℕ
        → ℕ
        → F
        → ℕ
        → T
        → Outcome (Option (Inner (Context T F)) × State T F)
    unfolding with_error put share to_raw
    start queue none address vec file offset buffer = returned (
      none,
      init_failed (
          with_error (record { iovec = record { ptr = 0; len = 0 }; buffer = buffer; file = file })
            reactor_dead),
    )
    start queue (some i) address vec file offset buffer =
        let context : Context T F = record { iovec = bytes buffer; buffer = buffer; file = file } in
        do
          q ←
              queue (as_raw_fd file) offset (record { ptr = vec; len = 1 }) address
                (put address (some (to_raw (share context))) i)
          elim q.1 [
            | ok _ ↦ returned (some q.0, pending_at address)
            | err e ↦ give_back address e q.0
          ]

    unfoldable pub start_read :
        Option (Inner (Context T F))
        → ℕ
        → ℕ
        → F
        → ℕ
        → T
        → Outcome (Option (Inner (Context T F)) × State T F)
    start_read reactor address vec file offset buffer =
        start queue_async_read reactor address vec file offset buffer

    unfoldable pub start_write :
        Option (Inner (Context T F))
        → ℕ
        → ℕ
        → F
        → ℕ
        → T
        → Outcome (Option (Inner (Context T F)) × State T F)
    start_write reactor address vec file offset buffer =
        start queue_async_write reactor address vec file offset buffer

  -- The result of a completed operation: an error of the kernel is a negative number.
  -- `-r.result` is taken to wrap, as in a build without overflow checks; one with them panics at
  -- `i32::MIN` instead, which is no error number.
  unfoldable pub outcome : ℤ → Context T F → Result (TransferError T F) (ℕ × T × F)
  unfolding with_error
  outcome (pos n) c = ok (n, c.buffer, c.file)
  outcome (negsuc n) c = err (with_error c (raw_os_error (wrapping_neg (negsuc n))))

  -- The end of the poll of a registration: a result closes the future, which drops the registration.
  unfoldable pub settle :
      ℕ
      → (ℕ → Option (Shared (Context T F)))
      → Shared (Context T F)
      → Async (UringResult × Context T F)
      → Polled T F
  settle address heap c not_ready = (pending_at address, store heap address (some c), not_ready)
  settle address heap c (ready (r, d)) =
      (closed, store heap address (release c), ready (outcome r.result d))

  -- `poll`, on the heap of the registrations.
  unfoldable pub poll :
      CompatWaker → State T F → (ℕ → Option (Shared (Context T F))) → Outcome (Polled T F)
  poll w (pending_at address) heap = elim (heap address) [
    | none ↦ undefined
    | some c ↦
        (let (inner', r) = Registration.poll w c.inner in
          returned (settle address heap (record c { inner = inner' }) r))
  ]
  poll w (init_failed e) heap = returned (closed, heap, ready (err e))
  poll w closed heap = panicked
