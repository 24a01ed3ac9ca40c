-- ===== src/Ring/Submission/Submit.antt =====
-- `submit_with` against a bounded queue of entries.
use rust_io_uring.Prelude.{
  ℕ, ◌^◌, ◌<◌, ◌≡◌, ◌≢◌, refl, sym, ap, ◌∙◌, arith, true, false, wrapping_add, wrapping_sub, length,
  List, ◌∷◌, [], ◌++◌, Result, ok, err, ◌==◌, if◌then◌else◌, Bool-cases, inl, inr,
}
use rust_io_uring.Sys.Entry.{SubmissionEntry, zeroed}
use rust_io_uring.Ring.Submission.{
  SubmissionQueue, SubmissionError, queue_full, fill_error, Filler, is_full, fill_slot, submit_with,
  pending, visible,
}
use rust_io_uring.Ring.Submission.Valid.{IsValid}
use rust_io_uring.Ring.Submission.Full.{is_full-Tested}
use rust_io_uring.Ring.Submission.Write.{
  written, written-IsValid, extended-IsValid, pending-extended, visible-written, visible-extended,
  pending-written,
}

-- What `submit_with` promises: a queue of at most `cap` entries. The closure gets a zeroed entry,
-- and only an entry that it completes is added.
unfoldable pub submit_bounded {ℓ} :
    {E : Type ℓ}
    → ℕ
    → Filler E
    → List SubmissionEntry
    → List SubmissionEntry × Result (SubmissionError E) (Unit {0})
submit_bounded cap f entries =
    if length entries == cap then (entries, err queue_full) else elim (f zeroed).1 [
      | ok _ ↦ (entries ++ (f zeroed).0 ∷ [], ok tt)
      | err e ↦ (entries, err (fill_error e))
    ]

module _ {ℓ} {E : Type ℓ} (f : Filler E) where
  -- What an outcome `r` of a submission to `q` has to be.
  record Submitted (k : ℕ) (q : SubmissionQueue)
      (r : SubmissionQueue × Result (SubmissionError E) (Unit {0})) : Type ℓ where
    valid : IsValid k r.0
    refines : (pending r.0, r.1) ≡ submit_bounded (2 ^ k) f (pending q)
    unseen : visible r.0 ≡ visible q

  module _ (q : SubmissionQueue) (entry : SubmissionEntry) where
    fill_slot_ok :
        (u : Unit {0})
        → f zeroed ≡ (entry, ok u)
        → fill_slot f q
          ≡ (record (written q entry) { local_tail = wrapping_add q.local_tail 1 }, ok tt)
    unfolding fill_slot
    fill_slot_ok u e = ground arith

    fill_slot_err :
        (x : E) → f zeroed ≡ (entry, err x) → fill_slot f q ≡ (written q entry, err (fill_error x))
    unfolding fill_slot
    fill_slot_err x e = ground arith

  module _ (cap : ℕ) (entries : List SubmissionEntry) where
    submit_bounded_full :
        length entries ≡ cap → submit_bounded cap f entries ≡ (entries, err queue_full)
    unfolding submit_bounded
    submit_bounded_full h = ground arith

    submit_bounded_ok :
        (entry : SubmissionEntry) (u : Unit {0})
        → length entries ≢ cap
        → f zeroed ≡ (entry, ok u)
        → submit_bounded cap f entries ≡ (entries ++ entry ∷ [], ok tt)
    unfolding submit_bounded
    submit_bounded_ok entry u h e = ground arith

    submit_bounded_err :
        (entry : SubmissionEntry) (x : E)
        → length entries ≢ cap
        → f zeroed ≡ (entry, err x)
        → submit_bounded cap f entries ≡ (entries, err (fill_error x))
    unfolding submit_bounded
    submit_bounded_err entry x h e = ground arith

  fill_slot-Submitted :
      {k : ℕ} (q : SubmissionQueue)
      → IsValid k q
      → wrapping_sub q.local_tail q.cached_head < 2 ^ k
      → length (pending q) ≢ 2 ^ k
      → (r : SubmissionEntry × Result E (Unit {0})) → f zeroed ≡ r
      → Submitted k q (fill_slot f q)
  fill_slot-Submitted {k} q v room free (entry, ok u) e = rw (fill_slot_ok q entry u e) (record {
    valid = extended-IsValid v entry room;
    refines =
        ap (λ l. (l, ok tt)) (pending-extended v entry room)
        ∙ sym (submit_bounded_ok (2 ^ k) (pending q) entry u free e);
    unseen = visible-extended v entry room;
  })
  fill_slot-Submitted {k} q v room free (entry, err x) e = rw (fill_slot_err q entry x e) (record {
    valid = written-IsValid entry v;
    refines =
        ap (λ l. (l, err (fill_error x))) (pending-written v entry room)
        ∙ sym (submit_bounded_err (2 ^ k) (pending q) entry x free e);
    unseen = visible-written v entry room;
  })

  submit_with_full :
      (q : SubmissionQueue)
      → (is_full q).1 ≡ true
      → submit_with f q ≡ ((is_full q).0, err queue_full)
  unfolding submit_with
  submit_with_full q e = rw e

  submit_with_room :
      (q : SubmissionQueue) → (is_full q).1 ≡ false → submit_with f q ≡ fill_slot f (is_full q).0
  unfolding submit_with
  submit_with_room q e = rw e

  -- A submission behind a test that changes neither list is one to the queue before the test.
  Submitted-back :
      {k : ℕ} (q q' : SubmissionQueue) {r : SubmissionQueue × Result (SubmissionError E) (Unit {0})}
      → pending q' ≡ pending q
      → visible q' ≡ visible q
      → Submitted k q' r
      → Submitted k q r
  Submitted-back {k} q q' p s w = record {
    valid = w.valid;
    refines = w.refines ∙ ap (submit_bounded (2 ^ k) f) p;
    unseen = w.unseen ∙ s;
  }

  submit_with-Submitted :
      {k : ℕ} (q : SubmissionQueue) → IsValid k q → Submitted k q (submit_with f q)
  submit_with-Submitted {k} q v = elim (Bool-cases (is_full q).1) [
    | inl full ↦ rw (submit_with_full q full) (record {
      valid = valid;
      refines =
          ap (λ l. (l, err queue_full)) pending_kept
          ∙ sym (submit_bounded_full (2 ^ k) (pending q) (exact.0 full));
      unseen = visible_kept;
    })
    | inr free ↦ rw (submit_with_room q free) (
        Submitted-back q (is_full q).0 pending_kept visible_kept (
          fill_slot-Submitted (is_full q).0 valid (room free)
            (λ e. cc (exact.1 (ap length (sym pending_kept) ∙ e))) (f zeroed) refl))
  ]
    where
      open (is_full-Tested q v) use {exact, room, valid, pending_kept, visible_kept}

  -- `submit_with` behaves as a queue of at most `2 ^ k` entries: it refuses exactly when that many
  -- wait for the kernel, it adds the entry that the closure makes of a zeroed one, and adds nothing
  -- when the closure fails. It keeps the invariant, and the kernel sees nothing of it yet.
  pub submit_with_refines :
      {k : ℕ} (q : SubmissionQueue)
      → IsValid k q
      → ((pending (submit_with f q).0, (submit_with f q).1) ≡ submit_bounded (2 ^ k) f (pending q))
        × IsValid k (submit_with f q).0
        × (visible (submit_with f q).0 ≡ visible q)
  submit_with_refines q v = (refines, valid, unseen)
    where
      open (submit_with-Submitted q v) use {refines, valid, unseen}
