-- ===== src/Ring/Submission/Bulk.antt =====
-- `BulkSubmission` of io-uring/src/lib.rs over several calls of `submit_with`: the tail is flushed once,
-- when the `BulkSubmission` is dropped.
use rust_io_uring.Prelude.{
  ℕ, ◌≡◌, refl, sym, ◌∙◌, ap, arith, Bool-cases, inl, inr, List, [], ◌∷◌, Result, ok, err,
  wrapping_add, get_or, bit_and,
}
use rust_io_uring.Sys.Entry.{zeroed, clear}
use rust_io_uring.Ring.Submission.{
  SubmissionQueue, SubmissionError, Filler, flush_tail, fill_error, refresh_head, head, is_full,
  fill_slot, submit_with, bulk_submit_with,
}

abbrev pub Answers {ℓ} : Type ℓ → Type ℓ
Answers E = SubmissionQueue × List (Result (SubmissionError E) (Unit {0}))

abbrev with_tail : ℕ → SubmissionQueue → SubmissionQueue
with_tail t q = record q { k_tail = t }

-- What the process reads does not hang on the tail that the kernel sees.
is_full_tail :
    (t : ℕ) (q : SubmissionQueue)
    → is_full (with_tail t q) ≡ (with_tail t (is_full q).0, (is_full q).1)
unfolding is_full head refresh_head
is_full_tail t q = ground arith

module _ {ℓ} {E : Type ℓ} where
  -- `submit_with` for one closure after the other.
  unfoldable pub submit_all : List (Filler E) → SubmissionQueue → Answers E
  submit_all [] q = (q, [])
  submit_all (f ∷ fs) q =
      let (q1, r) = submit_with f q in let (q2, rs) = submit_all fs q1 in (q2, r ∷ rs)

  -- `let mut bulk = queue.bulk();`, the calls, and the drop of `bulk`.
  unfoldable pub bulk_submit_all : List (Filler E) → SubmissionQueue → Answers E
  bulk_submit_all fs q = let (q', rs) = submit_all fs q in (flush_tail q', rs)

  -- The same, with a `BulkSubmission` for each closure.
  unfoldable pub submit_each : List (Filler E) → SubmissionQueue → Answers E
  submit_each [] q = (q, [])
  submit_each (f ∷ fs) q =
      let (q1, r) = bulk_submit_with f q in let (q2, rs) = submit_each fs q1 in (q2, r ∷ rs)

  -- The end of `submit_with`.
  abbrev ended :
      ℕ
      → SubmissionQueue
      → Result E (Unit {0})
      → SubmissionQueue × Result (SubmissionError E) (Unit {0})
  ended tail q r = elim r [
    | ok _ ↦ (record q { local_tail = tail }, ok tt)
    | err e ↦ (q, err (fill_error e))
  ]

  settled :
      (t : ℕ) (q : SubmissionQueue) (tail : ℕ) (r : Result E (Unit {0}))
      → ended tail (with_tail t q) r ≡ (with_tail t (ended tail q r).0, (ended tail q r).1)
  settled t q tail (ok _) = refl
  settled t q tail (err e) = refl

  fill_slot_tail :
      (t : ℕ) (f : Filler E) (q : SubmissionQueue)
      → fill_slot f (with_tail t q) ≡ (with_tail t (fill_slot f q).0, (fill_slot f q).1)
  unfolding fill_slot
  fill_slot_tail t f q =
      settled t _ (wrapping_add q.local_tail 1)
        (f (clear (get_or q.sces (bit_and q.local_tail q.ring_mask) zeroed))).1

  submit_with_tail :
      (t : ℕ) (f : Filler E) (q : SubmissionQueue)
      → submit_with f (with_tail t q) ≡ (with_tail t (submit_with f q).0, (submit_with f q).1)
  unfolding submit_with
  submit_with_tail t f q = elim (Bool-cases (is_full q).1) [
    | inl e ↦ rw (is_full_tail t q, e, submit_with) refl
    | inr e ↦ rw (is_full_tail t q, e, submit_with) (fill_slot_tail t f (is_full q).0)
  ]

  -- From a queue whose tail is flushed, one flush at the end leaves the ring as one flush after each.
  flushed_each :
      (fs : List (Filler E)) (q : SubmissionQueue)
      → submit_each fs (flush_tail q) ≡ bulk_submit_all fs q
  unfolding submit_each bulk_submit_all submit_all flush_tail bulk_submit_with
  flushed_each [] q = refl
  flushed_each (f ∷ fs) q = rw (submit_with_tail q.local_tail f q) (
      ap (λ (p : Answers E). (p.0, (submit_with f q).1 ∷ p.1))
        (flushed_each fs (submit_with f q).0))

  -- Several calls of `submit_with` on one `BulkSubmission`, which flushes the tail once when it is
  -- dropped, leave the queue and answer as the same calls with a `BulkSubmission` for each, whether
  -- they succeed, find the ring full or fail in their closure, where the kernel had seen all entries
  -- before.
  pub bulk_submit_all-submit_each :
      (fs : List (Filler E)) (q : SubmissionQueue)
      → q.k_tail ≡ q.local_tail
      → bulk_submit_all fs q ≡ submit_each fs q
  unfolding flush_tail
  bulk_submit_all-submit_each fs q e =
      sym (flushed_each fs q) ∙ ap (submit_each fs) (ap (λ t. record q { k_tail = t }) (sym e))
