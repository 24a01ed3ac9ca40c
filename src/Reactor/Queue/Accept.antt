-- ===== src/Reactor/Queue/Accept.antt =====
-- What the ring accepts, and what `active_wait` and the heap become.
use rust_io_uring.Prelude.{
  ℕ, ◌+◌, ◌^◌, ◌≡◌, ◌⊎◌, inl, inr, refl, ◌∙◌, ap, List, [], ◌∷◌, ◌++◌, length, arith, ok, err,
  ℕ_discrete,
}
use rust_io_uring.Sys.Entry.{SubmissionEntry, zeroed}
use rust_io_uring.Ring.Submission.{
  SubmissionError, queue_full, Filler, bulk_submit_with, pending, visible,
}
use rust_io_uring.Ring.Submission.Valid.{IsValid}
use rust_io_uring.Ring.Submission.Submit.{submit_bounded}
use rust_io_uring.Ring.Submission.Pending.{bulk_submit_with_publishes}
use rust_io_uring.Reactor.Queue.{Inner, enqueue}

-- A closure that fills the zeroed entry to `entry` and succeeds.
abbrev pub Fills : Filler ⊥ → SubmissionEntry → Type 0
Fills f entry = f zeroed ≡ (entry, ok tt)

submit_bounded_cases :
    (cap : ℕ) (f : Filler ⊥) (entry : SubmissionEntry) (entries : List SubmissionEntry)
    → Fills f entry
    → (submit_bounded cap f entries ≡ (entries ++ entry ∷ [], ok tt))
      ⊎ ((submit_bounded cap f entries ≡ (entries, err queue_full)) × (length entries ≡ cap))
unfolding submit_bounded
submit_bounded_cases cap f entry entries fills = elim (ℕ_discrete (length entries) cap) [
  | yes e ↦ inr (ground arith, e)
  | no n ↦ inl (ground arith)
]

module _ {D : Type 0} where
  -- The two outcomes of `enqueue`: the entry is the last one waiting, and counted, or nothing
  -- changes but the ring's own fields.
  pub record Accepted (k : ℕ) (entry : SubmissionEntry) (i j : Inner D) : Type 0 where
    pub valid : IsValid k j.sq
    pub last : pending j.sq ≡ pending i.sq ++ entry ∷ []
    pub shown : visible j.sq ≡ pending j.sq
    pub state :
        j.completion_state
        ≡ record i.completion_state { active_wait = i.completion_state.active_wait + 1 }
    pub rest : j ≡ record i {
      sq = j.sq;
      completion_state = record i.completion_state {
        active_wait = i.completion_state.active_wait + 1;
      };
    }

  pub record Refused (k : ℕ) (i j : Inner D) : Type 0 where
    pub valid : IsValid k j.sq
    pub same : pending j.sq ≡ pending i.sq
    pub shown : visible j.sq ≡ pending j.sq
    pub full : length (pending i.sq) ≡ 2 ^ k
    pub state : j.completion_state ≡ i.completion_state
    pub rest : j ≡ record i { sq = j.sq }

  enqueue_ok :
      (f : Filler ⊥) (i : Inner D)
      → (bulk_submit_with f i.sq).1 ≡ ok tt
      → enqueue f i ≡ (
        record i {
          sq = (bulk_submit_with f i.sq).0;
          completion_state = record i.completion_state {
            active_wait = i.completion_state.active_wait + 1;
          };
        },
        ok tt,
      )
  unfolding enqueue
  enqueue_ok f i e = rw (e, enqueue) refl

  enqueue_err :
      (f : Filler ⊥) (i : Inner D) (x : SubmissionError ⊥)
      → (bulk_submit_with f i.sq).1 ≡ err x
      → enqueue f i ≡ (record i { sq = (bulk_submit_with f i.sq).0 }, err x)
  unfolding enqueue
  enqueue_err f i x e = rw (e, enqueue) refl

  pub enqueue_lem :
      {k : ℕ} (f : Filler ⊥) (entry : SubmissionEntry) (i : Inner D)
      → Fills f entry
      → IsValid k i.sq
      → (((enqueue f i).1 ≡ ok tt) × Accepted k entry i (enqueue f i).0)
        ⊎ (((enqueue f i).1 ≡ err queue_full) × Refused k i (enqueue f i).0)
  enqueue_lem {k = k} f entry i fills v =
      let (refines, valid, shown) = bulk_submit_with_publishes f {k = k} i.sq v in
      elim (submit_bounded_cases (2 ^ k) f entry (pending i.sq) fills) [
        | inl e ↦ rw (enqueue_ok f i (ap (λ p. p.1) (refines ∙ e))) (
            inl (
              refl,
              record {
                valid = valid;
                last = ap (λ p. p.0) (refines ∙ e);
                shown = shown;
                state = refl;
                rest = refl;
              },
            ))
        | inr e ↦ rw (enqueue_err f i queue_full (ap (λ p. p.1) (refines ∙ e.0))) (
            inr (
              refl,
              record {
                valid = valid;
                same = ap (λ p. p.0) (refines ∙ e.0);
                shown = shown;
                full = e.1;
                state = refl;
                rest = refl;
              },
            ))
      ]
