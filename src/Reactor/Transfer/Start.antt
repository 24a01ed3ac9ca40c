-- ===== src/Reactor/Transfer/Start.antt =====
-- The start of a read or a write: it is in flight, or the caller has the buffer and the file back.
use rust_io_uring.Prelude.{
  ℕ, ◌^◌, ◌≡◌, ◌≢◌, ◌⊎◌, inl, inr, refl, sym, ◌∙◌, ap, subst, ℤ, [], ◌∷◌, ◌++◌, Option, none, some,
  Outcome, returned, bit_and, length, arith,
}
use rust_io_uring.Sys.Entry.{SubmissionEntry, zeroed}
use rust_io_uring.Sys.Fill.{Slice}
use rust_io_uring.Ring.Submission.{Filler, pending}
use rust_io_uring.Ring.Submission.Valid.{IsValid}
use rust_io_uring.Reactor.Registration.{Shared, new, share, to_raw, abort, drop_raw}
use rust_io_uring.Reactor.State.{store, release, read_filler, write_filler}
use rust_io_uring.Reactor.State.InFlight.{
  InFlight, Inv, InProgress, NotIn, store_same, store_other, Live-store,
}
use rust_io_uring.Reactor.Queue.{
  Inner, IoError, queue_async, queue_async_read, queue_async_write, submission_queue_full,
}
use rust_io_uring.Reactor.Queue.Accept.{Fills}
use rust_io_uring.Reactor.Queue.Operations.{queue_async_lem}
use rust_io_uring.Reactor.Transfer.{
  Context, State, pending_at, init_failed, put, give_back, start, start_read, start_write,
}

module _ {T F : Type 0} where
  -- The context that a transfer begins with, in its cell with the kernel's copy.
  abbrev pub begun : (T → Slice) → F → T → Shared (Context T F)
  unfolding share to_raw
  begun bytes file buffer =
      to_raw (share (record { iovec = bytes buffer; buffer = buffer; file = file }))

  pub begun_lem :
      (bytes : T → Slice) (file : F) (buffer : T)
      → ((begun bytes file buffer).strong ≡ 2)
        × ((begun bytes file buffer).inner.payload
            ≡ some (record { iovec = bytes buffer; buffer = buffer; file = file }))
  unfolding begun share to_raw new
  begun_lem bytes file buffer = (refl, refl)

  put_sq :
      (a : ℕ) (c : Option (Shared (Context T F))) (i : Inner (Context T F)) → (put a c i).sq ≡ i.sq
  unfolding put
  put_sq a c i = refl

  put-store :
      (a : ℕ) (c : Option (Shared (Context T F))) (i : Inner (Context T F))
      → (put a c i).completion_state.heap ≡ store i.completion_state.heap a c
  unfolding put
  put-store a c i = refl

  put_cq :
      (a : ℕ) (c : Option (Shared (Context T F))) (i : Inner (Context T F)) → (put a c i).cq ≡ i.cq
  unfolding put
  put_cq a c i = refl

  put_other :
      (a : ℕ) (c : Option (Shared (Context T F))) (i : Inner (Context T F)) (b : ℕ)
      → a ≢ b
      → (put a c i).completion_state.heap b ≡ i.completion_state.heap b
  unfolding put
  put_other a c i b n = store_other i.completion_state.heap a b c n

  put-Inv :
      (a : ℕ) (c : Option (Shared (Context T F))) (i : Inner (Context T F)) {g : InFlight}
      → NotIn a g.ops
      → Inv i.completion_state g
      → Inv (put a c i).completion_state g
  unfolding put
  put-Inv a c i {g = g} out w = record {
    counted = w.counted;
    timer_known = w.timer_known;
    park_known = w.park_known;
    live = Live-store i.completion_state.heap a c g.ops out w.live;
  }

  put_heap :
      (a : ℕ) (c : Option (Shared (Context T F))) (i : Inner (Context T F))
      → (put a c i).completion_state.heap a ≡ c
  unfolding put
  put_heap a c i = store_same i.completion_state.heap a c

  give_back_lem :
      (a : ℕ) (e : IoError) (i : Inner (Context T F)) (bytes : T → Slice) (file : F) (buffer : T)
      → i.completion_state.heap a ≡ release (begun bytes file buffer)
      → give_back a e i
        ≡ returned
            (some (put a none i), init_failed (record { error = e; buffer = buffer; file = file }))
  unfolding give_back release drop_raw abort share to_raw
  give_back_lem a e i bytes file buffer h = rw (h, give_back) refl

  -- The two outcomes of a start, from a reactor `i` with `g` in flight.
  pub record Begun (k a : ℕ) (c : Shared (Context T F)) (entry : SubmissionEntry) (g : InFlight)
      (i j : Inner (Context T F)) : Type 0 where
    pub ring : IsValid k j.sq
    pub last : pending j.sq ≡ pending i.sq ++ entry ∷ []
    pub cell : j.completion_state.heap a ≡ some c
    pub heap : j.completion_state.heap ≡ store i.completion_state.heap a (some c)
    pub cq : j.cq ≡ i.cq
    pub inv : Inv j.completion_state (record g { ops = a ∷ g.ops })

  pub record Failed (k a : ℕ) (g : InFlight) (i j : Inner (Context T F)) : Type 0 where
    pub ring : IsValid k j.sq
    pub same : pending j.sq ≡ pending i.sq
    pub full : length (pending i.sq) ≡ 2 ^ k
    pub freed : j.completion_state.heap a ≡ none
    pub others : (b : ℕ) → a ≢ b → j.completion_state.heap b ≡ i.completion_state.heap b
    pub cq : j.cq ≡ i.cq
    pub inv : Inv j.completion_state g

  module _ (as_raw_fd : F → ℤ) (bytes : T → Slice) (a vec : ℕ) (file : F) (offset : ℕ)
      (buffer : T) where
    unfoldable pub Starts :
        ℕ
        → SubmissionEntry
        → InFlight
        → Inner (Context T F)
        → Outcome (Option (Inner (Context T F)) × State T F)
        → Type 0
    Starts k entry g i r =
        (j : Inner (Context T F)) × (((r ≡ returned (some j, pending_at a))
            × Begun k a (begun bytes file buffer) entry g i j)
          ⊎ ((r
                ≡ returned (
                  some j,
                  init_failed
                      (record { error = submission_queue_full; buffer = buffer; file = file }),
                ))
              × Failed k a g i j))

    start_generic :
        {k : ℕ} (filler : ℤ → ℕ → Slice → ℕ → Filler ⊥) (entry : SubmissionEntry)
        (i : Inner (Context T F)) (g : InFlight)
        → Fills (filler (as_raw_fd file) offset (record { ptr = vec; len = 1 }) a) entry
        → IsValid k i.sq
        → Inv i.completion_state g
        → a ≢ 0
        → bit_and a 1 ≡ 0
        → NotIn a g.ops
        → Starts k entry g i (
            start as_raw_fd bytes
              (λ file offset vecs. queue_async (filler file offset vecs))
              (some i)
              a
              vec
              file
              offset
              buffer)
    unfolding start Starts
    start_generic {k = k} filler entry i g fills v w nonzero even out =
        let c : Shared (Context T F) = begun bytes file buffer in
        let i' : Inner (Context T F) = put a (some c) i in
        let f : ℕ → Filler ⊥ = filler (as_raw_fd file) offset (record { ptr = vec; len = 1 }) in
        let alive : InProgress i'.completion_state.heap a = record {
          cell = c;
          nonzero = nonzero;
          even = even;
          at = put_heap a (some c) i;
          unfinished = refl;
          owned = omega arith;
        } in
        let (j, outcome) =
          queue_async_lem {k = k} f a entry i' g fills
            (subst (IsValid k) (sym (put_sq a (some c) i)) v) (put-Inv a (some c) i out w) alive
            out in
        let before : pending i'.sq ≡ pending i.sq = ap pending (put_sq a (some c) i) in
        elim outcome [
          | inl o ↦ (
            j,
            inl (
              rw (o.0) refl,
              record {
                ring = o.1.valid;
                last = o.1.last ∙ ap (λ l. l ++ entry ∷ []) before;
                cell = ap (λ h. h a) o.1.heap ∙ put_heap a (some c) i;
                heap = o.1.heap ∙ put-store a (some c) i;
                cq = o.1.cq ∙ put_cq a (some c) i;
                inv = o.1.inv;
              },
            ),
          )
          | inr o ↦
              let returns : j.completion_state.heap a ≡ release c =
                ap (λ h. h a) o.1.heap ∙ store_same i'.completion_state.heap a (release c) in
              (
                put a none j,
                inr (
                  rw (o.0) (give_back_lem a submission_queue_full j bytes file buffer returns),
                  record {
                    ring = subst (IsValid k) (sym (put_sq a none j)) o.1.valid;
                    same = ap pending (put_sq a none j) ∙ o.1.same ∙ before;
                    full = sym (ap length before) ∙ o.1.full;
                    freed = put_heap a none j;
                    others = λ b n.
                        put_other a none j b n
                        ∙ ap (λ h. h b) o.1.heap
                        ∙ store_other i'.completion_state.heap a b (release c) n
                        ∙ put_other a (some c) i b n;
                    cq = put_cq a none j ∙ o.1.cq ∙ put_cq a (some c) i;
                    inv = put-Inv a none j out o.1.inv;
                  },
                ),
              )
        ]

    -- A read or a write is started on a live reactor, with its registration at an address that no
    -- operation in flight uses. The call returns. Either the future waits at that address, its entry
    -- is the last of the ring and its cell holds the buffer and the file; or the ring is full, and
    -- the future has failed with the same buffer and the same file, and the cell is freed. The
    -- reactor's counters agree with what is in flight, and `expect` in `abort` does not panic.
    pub start_lem :
        {k : ℕ} (i : Inner (Context T F)) (g : InFlight)
        → IsValid k i.sq
        → Inv i.completion_state g
        → a ≢ 0
        → bit_and a 1 ≡ 0
        → NotIn a g.ops
        → Starts k
            (read_filler (as_raw_fd file) offset (record { ptr = vec; len = 1 }) a zeroed).0
            g
            i
            (start_read as_raw_fd bytes (some i) a vec file offset buffer)
          × Starts k
              (write_filler (as_raw_fd file) offset (record { ptr = vec; len = 1 }) a zeroed).0
              g
              i
              (start_write as_raw_fd bytes (some i) a vec file offset buffer)
    unfolding start_read start_write queue_async_read queue_async_write
    start_lem {k = k} i g v w nonzero even out = (
      start_generic {k = k} read_filler _ i g refl v w nonzero even out,
      start_generic {k = k} write_filler _ i g refl v w nonzero even out,
    )
