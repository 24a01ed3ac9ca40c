-- ===== src/Ring/Submission/Pending.antt =====
-- Publishing and counting what waits in the submission ring.
use rust_io_uring.Prelude.{
  ℕ, ◌^◌, ◌≡◌, ◌↔◌, refl, sym, ap, ◌∙◌, arith, Bool, true, false, ◌&&◌, ltb, if◌then◌else◌, length,
  none, some,
}
use rust_io_uring.Ring.Submission.{
  SubmissionQueue, Filler, flush_tail, has_pending_submissions, pending_submissions, submit_with,
  bulk_submit_with, pending, visible,
}
use rust_io_uring.Ring.Submission.Valid.{IsValid, length-pending}
use rust_io_uring.Ring.Submission.Full.{refresh-IsValid}
use rust_io_uring.Ring.Submission.Submit.{submit_bounded, submit_with_refines}

pub flush_tail-IsValid : {k : ℕ} {q : SubmissionQueue} → IsValid k q → IsValid k (flush_tail q)
unfolding flush_tail
flush_tail-IsValid v = record {
  small = v.small;
  mask = v.mask;
  slots = v.slots;
  identity = v.identity;
  k_head_word = v.k_head_word;
  cached_head_word = v.cached_head_word;
  k_tail_word = v.local_tail_word;
  local_tail_word = v.local_tail_word;
  bounded = v.bounded;
  stale = v.stale;
  published = omega (arith, v.local_tail_word);
}

pub pending-flush_tail : (q : SubmissionQueue) → pending (flush_tail q) ≡ pending q
unfolding flush_tail pending
pending-flush_tail q = refl

pub visible-flush_tail : (q : SubmissionQueue) → visible (flush_tail q) ≡ pending q
unfolding flush_tail pending visible
visible-flush_tail q = refl

-- `queue.bulk().submit_with(f)` behaves as the bounded queue does, and when it returns the kernel
-- sees everything that waits, whatever the closure's result.
pub bulk_submit_with_publishes {ℓ} :
    {E : Type ℓ} (f : Filler E) {k : ℕ} (q : SubmissionQueue)
    → IsValid k q
    → ((pending (bulk_submit_with f q).0, (bulk_submit_with f q).1)
        ≡ submit_bounded (2 ^ k) f (pending q))
      × IsValid k (bulk_submit_with f q).0
      × (visible (bulk_submit_with f q).0 ≡ pending (bulk_submit_with f q).0)
unfolding bulk_submit_with
bulk_submit_with_publishes f q v =
    let q' = (submit_with f q).0 in
    let (refines, valid, unseen) = submit_with_refines f q v in
    (
      ap (λ l. (l, (submit_with f q).1)) (pending-flush_tail q') ∙ refines,
      flush_tail-IsValid valid,
      visible-flush_tail q' ∙ sym (pending-flush_tail q'),
    )

module _ {k : ℕ} (q : SubmissionQueue) (v : IsValid k q) where
  -- `has_pending_submissions` tells whether an entry waits for the kernel.
  pub has_pending_submissions_iff :
      ((has_pending_submissions q).1 ≡ false) ↔ (length (pending q) ≡ 0)
  unfolding has_pending_submissions
  has_pending_submissions_iff = ground (arith, length-pending q, v.k_head_word, v.local_tail_word)

  -- `pending_submissions` counts the entries that wait for the kernel and keeps the invariant, but a
  -- build with overflow checks panics whenever the tail has gone round and the head has not.
  pub pending_submissions_lem :
      (checks : Bool)
      → ((pending_submissions checks q).1
          ≡ (if checks && ltb q.local_tail q.k_head then none else some (length (pending q))))
        × IsValid k (pending_submissions checks q).0
        × (pending (pending_submissions checks q).0 ≡ pending q)
        × (visible (pending_submissions checks q).0 ≡ visible q)
  unfolding pending_submissions pending visible
  pending_submissions_lem true = (
    rw (length-pending q) (ground (arith, v.k_head_word, v.local_tail_word)),
    refresh-IsValid v,
    refl,
    refl,
  )
  pending_submissions_lem false = (rw (length-pending q), refresh-IsValid v, refl, refl)
