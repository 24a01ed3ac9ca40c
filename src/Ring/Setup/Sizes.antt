-- ===== src/Ring/Setup/Sizes.antt =====
-- What the assertions of the constructors say of the sizes.
use rust_io_uring.Prelude.{
  ℕ, ◌-◌, ◌≤◌, ◌≡◌, refl, sym, ◌∙◌, ap, arith, Bool, true, false, Bool-cases, inl, inr, List,
  Outcome, returned, panicked, undefined, out_of_fuel,
}
use mathlib.Core.Bool.{false≢true}
use rust_io_uring.Sys.Entry.{SubmissionEntry, CompletionEntry}
use rust_io_uring.Ring.Submission.{SubmissionQueue}
use rust_io_uring.Ring.Completion.{CompletionQueue}
use rust_io_uring.Ring.Setup.{Mapped, new_submission, new_completion, sizes_agree}

sizes :
    {E : Type 0} (n : ℕ) (m : Mapped E) → sizes_agree n m ≡ true → (1 ≤ n) × (m.ring_mask ≡ n - 1)
unfolding sizes_agree
sizes n m e = (ground arith, ground arith)

abbrev is_returned : {A : Type 0} → Outcome A → Bool
is_returned (returned a) = true
is_returned panicked = false
is_returned undefined = false
is_returned out_of_fuel = false

abbrev observed : {A : Type 0} → (A → ℕ) → Outcome A → ℕ
observed f (returned a) = f a
observed f panicked = 0
observed f undefined = 0
observed f out_of_fuel = 0

pub new_submission-sizes :
    (n : ℕ) (m : Mapped SubmissionEntry) (array : List ℕ) (q : SubmissionQueue)
    → new_submission n m array ≡ returned q
    → (1 ≤ n) × (q.ring_mask ≡ n - 1)
unfolding new_submission
new_submission-sizes n m array q e = elim (Bool-cases (sizes_agree n m)) [
  | inl y ↦
      let kept : observed (λ q. q.ring_mask) (new_submission n m array) ≡ m.ring_mask =
        rw (y, new_submission) refl in
      let (some_slot, mask) = sizes n m y in
      (some_slot, ap (observed (λ q. q.ring_mask)) (sym e) ∙ kept ∙ mask)
  | inr x ↦
      let fails : is_returned (new_submission n m array) ≡ false = rw (x, new_submission) refl in
      absurd (false≢true (sym fails ∙ ap is_returned e))
]

pub new_completion-sizes :
    (n : ℕ) (m : Mapped CompletionEntry) (q : CompletionQueue)
    → new_completion n m ≡ returned q
    → (1 ≤ n) × (q.ring_mask ≡ n - 1)
unfolding new_completion
new_completion-sizes n m q e = elim (Bool-cases (sizes_agree n m)) [
  | inl y ↦
      let kept : observed (λ q. q.ring_mask) (new_completion n m) ≡ m.ring_mask =
        rw (y, new_completion) refl in
      let (some_slot, mask) = sizes n m y in
      (some_slot, ap (observed (λ q. q.ring_mask)) (sym e) ∙ kept ∙ mask)
  | inr x ↦
      let fails : is_returned (new_completion n m) ≡ false = rw (x, new_completion) refl in
      absurd (false≢true (sym fails ∙ ap is_returned e))
]
