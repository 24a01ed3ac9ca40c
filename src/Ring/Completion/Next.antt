-- ===== src/Ring/Completion/Next.antt =====
-- Reading one completion.
use rust_io_uring.Prelude.{
  ℕ, ◌-◌, ◌^◌, ◌≤◌, ◌≡◌, ◌≢◌, refl, ap, ◌∙◌, arith, Bool, true, false, inl, inr, List, [], ◌∷◌,
  length, Option, none, some, ◌==◌, wrapping_add, wrapping_sub, Bool-cases,
}
use native.Mathlib.Nat.{pow-le-pow_right}
use rust_io_uring.Sys.Entry.{CompletionEntry}
use rust_io_uring.Ring.Window.{window, window_of_ne_zero}
use rust_io_uring.Ring.Completion.{CompletionQueue, is_empty, read_head, next, cqe_at, available}
use rust_io_uring.Ring.Completion.Valid.{IsValid, length-available}

-- `next` takes the first entry of a queue.
unfoldable pub uncons {ℓ} : {A : Type ℓ} → List A → List A × Option A
uncons [] = ([], none)
uncons (x ∷ xs) = (xs, some x)

pub refresh-IsValid :
    {k : ℕ} {q : CompletionQueue} → IsValid k q → IsValid k (record q { cached_tail = q.k_tail })
refresh-IsValid v = record {
  small = v.small;
  mask = v.mask;
  slots = v.slots;
  k_head_word = v.k_head_word;
  local_head_word = v.local_head_word;
  k_tail_word = v.k_tail_word;
  cached_tail_word = v.k_tail_word;
  bounded = v.bounded;
  unread = v.unread;
  stale = omega (arith, v.k_tail_word);
}

pub record Tested (k : ℕ) (q : CompletionQueue) (r : CompletionQueue × Bool) : Type 0 where
  valid : IsValid k r.0
  kept : available r.0 ≡ available q
  empty : r.1 ≡ true → wrapping_sub r.0.k_tail r.0.local_head ≡ 0
  some_left :
      r.1 ≡ false → wrapping_sub r.0.k_tail r.0.local_head ≢ wrapping_sub r.0.k_tail r.0.cached_tail

is_empty-Tested : {k : ℕ} (q : CompletionQueue) → IsValid k q → Tested k q (is_empty q)
unfolding is_empty available
is_empty-Tested {k} q v = elim (Bool-cases (q.cached_tail == q.local_head)) [
  | inl same ↦ rw same (record {
    valid = refresh-IsValid v;
    kept = refl;
    empty = λ e. ground (arith, v.k_tail_word, v.local_head_word);
    some_left = λ e. ground (arith, v.k_tail_word, v.local_head_word);
  })
  | inr more ↦ rw more (record {
    valid = v;
    kept = refl;
    empty = λ e. cc;
    some_left = λ e. ground (arith, v.k_tail_word, v.cached_tail_word, v.local_head_word);
  })
]

module _ {k : ℕ} (q : CompletionQueue) (v : IsValid k q) where
  size_lt : 2 ^ k ≤ 2 ^ 31
  size_lt = pow-le-pow_right (omega arith) v.small

  abbrev advanced : CompletionQueue
  advanced = record q { local_head = wrapping_add q.local_head 1 }

  -- The head may move while it has not reached the copy of the tail.
  advanced-IsValid :
      wrapping_sub q.k_tail q.local_head ≢ wrapping_sub q.k_tail q.cached_tail → IsValid k advanced
  advanced-IsValid ne = record {
    small = v.small;
    mask = v.mask;
    slots = v.slots;
    k_head_word = v.k_head_word;
    local_head_word = omega arith;
    k_tail_word = v.k_tail_word;
    cached_tail_word = v.cached_tail_word;
    bounded = v.bounded;
    unread = omega (arith, v.unread, v.stale, v.local_head_word, v.k_tail_word);
    stale = omega (arith, v.unread, v.stale, v.local_head_word, v.k_tail_word);
  }

  available-advanced :
      wrapping_sub q.k_tail q.local_head ≢ wrapping_sub q.k_tail q.cached_tail
      → available q ≡ cqe_at q q.local_head ∷ available advanced
  unfolding available
  available-advanced ne =
      window_of_ne_zero (cqe_at q) q.local_head (wrapping_sub q.k_tail q.local_head)
        (omega (arith, v.stale))
      ∙ ap (λ n. cqe_at q q.local_head ∷ window (cqe_at q) (wrapping_add q.local_head 1) n)
          {x = wrapping_sub q.k_tail q.local_head - 1}
          (omega (arith, v.stale, v.local_head_word, v.k_tail_word))

nil_of_length {ℓ} : {A : Type ℓ} (l : List A) → length l ≡ 0 → l ≡ []
nil_of_length [] e = refl
nil_of_length (x ∷ l) e = absurd (omega arith)

-- What an outcome of `next` has to be.
pub record Read (k : ℕ) (q : CompletionQueue) (r : CompletionQueue × Option CompletionEntry)
    : Type 0 where
  pub valid : IsValid k r.0
  pub refines : (available r.0, r.1) ≡ uncons (available q)

next_empty : (q : CompletionQueue) → (is_empty q).1 ≡ true → next q ≡ ((is_empty q).0, none)
unfolding next
next_empty q e = rw e

next_some : (q : CompletionQueue) → (is_empty q).1 ≡ false → next q ≡ read_head (is_empty q).0
unfolding next
next_some q e = rw e

read_head-Read :
    {k : ℕ} (q : CompletionQueue)
    → IsValid k q
    → wrapping_sub q.k_tail q.local_head ≢ wrapping_sub q.k_tail q.cached_tail
    → Read k q (read_head q)
unfolding read_head uncons
read_head-Read q v ne = record {
  valid = advanced-IsValid q v ne;
  refines = rw (available-advanced q v ne);
}

pub next-Read : {k : ℕ} (q : CompletionQueue) → IsValid k q → Read k q (next q)
unfolding uncons
next-Read {k} q v = elim (Bool-cases (is_empty q).1) [
  | inl e ↦ rw (next_empty q e) (record {
    valid = valid;
    refines = rw (
      ← kept,
      nil_of_length (available (is_empty q).0) (length-available (is_empty q).0 ∙ empty e),
    );
  })
  | inr e ↦ rw (next_some q e) (
      let r = read_head-Read (is_empty q).0 valid (some_left e) in
      record { valid = r.valid; refines = r.refines ∙ ap uncons kept })
]
  where
    open (is_empty-Tested q v) use {valid, kept, empty, some_left}

-- `next` gives the oldest entry that the kernel has posted and removes it, or `None` exactly when
-- there is none, although it mostly looks at an old copy of the kernel's tail. It keeps the
-- invariant.
pub next_refines :
    {k : ℕ} (q : CompletionQueue)
    → IsValid k q
    → ((available (next q).0, (next q).1) ≡ uncons (available q)) × IsValid k (next q).0
next_refines q v = (refines, valid)
  where
    open (next-Read q v) use {refines, valid}
