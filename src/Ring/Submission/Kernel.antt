-- ===== src/Ring/Submission/Kernel.antt =====
-- The submission ring between the process and the kernel, in any order of their steps.
use rust_io_uring.Prelude.{
  ℕ, ◌-◌, ◌^◌, ◌≡◌, ◌≢◌, refl, sym, ap, ◌∙◌, arith, List, [], ◌∷◌, ◌++◌, Result, ok, err,
  wrapping_add, wrapping_sub,
}
use mathlib.Core.List.{append-nil, append_assoc}
use rust_io_uring.Sys.Entry.{SubmissionEntry, zeroed}
use rust_io_uring.Ring.Window.{window, window_of_ne_zero}
use rust_io_uring.Ring.Submission.{
  SubmissionQueue, Filler, flush_tail, refresh_head, submit_with, entry_at, pending,
}
use rust_io_uring.Ring.Submission.Valid.{IsValid}
use rust_io_uring.Ring.Submission.Full.{refresh-IsValid}
use rust_io_uring.Ring.Submission.Submit.{submit_bounded, submit_with_refines}
use rust_io_uring.Ring.Submission.Pending.{flush_tail-IsValid, pending-flush_tail}

-- The kernel takes the entry at its head and moves the head on.
abbrev pub taken : SubmissionQueue → SubmissionQueue
taken q = record q { k_head = wrapping_add q.k_head 1 }

-- The ring, with what was ever accepted into it and what the kernel has taken out, in order.
pub record System : Type 0 where
  pub queue : SubmissionQueue
  pub accepted : List SubmissionEntry
  pub consumed : List SubmissionEntry

-- What a submission adds to the history: the entry, if the call returned `Ok`.
abbrev pub gained {ℓ} : {E : Type ℓ} → SubmissionEntry → Result E (Unit {0}) → List SubmissionEntry
gained entry (ok _) = entry ∷ []
gained entry (err _) = []

-- The kernel only takes what it sees: its step needs a head that has not reached `k_tail`.
pub data Step (E : Type 0) (s : System) : System → Type 0 where
  submit :
      (f : Filler E)
      → Step E s (record {
        queue = (submit_with f s.queue).0;
        accepted = s.accepted ++ gained (f zeroed).0 (submit_with f s.queue).1;
        consumed = s.consumed;
      })
  flush : Step E s (record s { queue = flush_tail s.queue })
  refresh : Step E s (record s { queue = (refresh_head s.queue).0 })
  take :
      s.queue.k_head ≢ s.queue.k_tail
      → Step E s (record {
        queue = taken s.queue;
        accepted = s.accepted;
        consumed = s.consumed ++ entry_at s.queue s.queue.k_head ∷ [];
      })

pub data Reach (E : Type 0) (q : SubmissionQueue) : System → Type 0 where
  start : Reach E q (record { queue = q; accepted = []; consumed = [] })
  later : {s t : System} → Reach E q s → Step E s t → Reach E q t

-- The entries taken, then those that wait, are those accepted.
record Inv (k : ℕ) (s : System) : Type 0 where
  valid : IsValid k s.queue
  history : s.consumed ++ pending s.queue ≡ s.accepted

pub taken-IsValid :
    {k : ℕ} {q : SubmissionQueue} → q.k_head ≢ q.k_tail → IsValid k q → IsValid k (taken q)
taken-IsValid {q} ne v = record {
  small = v.small;
  mask = v.mask;
  slots = v.slots;
  identity = v.identity;
  k_head_word = omega arith;
  cached_head_word = v.cached_head_word;
  k_tail_word = v.k_tail_word;
  local_tail_word = v.local_tail_word;
  bounded = v.bounded;
  stale = omega (
    arith, v.stale, v.published, v.k_head_word, v.k_tail_word, v.local_tail_word,
    v.cached_head_word,
  );
  published = omega (arith, v.stale, v.published, v.k_head_word, v.k_tail_word, v.local_tail_word);
}

pub pending-taken :
    {k : ℕ} {q : SubmissionQueue}
    → q.k_head ≢ q.k_tail
    → IsValid k q
    → pending q ≡ entry_at q q.k_head ∷ pending (taken q)
unfolding pending
pending-taken {q} ne v =
    window_of_ne_zero (entry_at q) q.k_head (wrapping_sub q.local_tail q.k_head) some_left
    ∙ ap (λ n. entry_at q q.k_head ∷ window (entry_at q) (wrapping_add q.k_head 1) n) one_less
  where
    some_left : wrapping_sub q.local_tail q.k_head ≢ 0
    some_left = omega (arith, v.published, v.k_head_word, v.k_tail_word, v.local_tail_word)

    one_less :
        wrapping_sub q.local_tail q.k_head - 1 ≡ wrapping_sub q.local_tail (wrapping_add q.k_head 1)
    one_less = omega (arith, v.published, v.k_head_word, v.k_tail_word, v.local_tail_word)

-- What `submit_bounded` adds is what the history gains.
submit_bounded-gained {ℓ} :
    {E : Type ℓ} (cap : ℕ) (f : Filler E) (l : List SubmissionEntry)
    → (submit_bounded cap f l).0 ≡ l ++ gained (f zeroed).0 (submit_bounded cap f l).1
unfolding submit_bounded
submit_bounded-gained cap f l = ground (arith, append-nil l)

submit-history :
    {E : Type 0} {k : ℕ} (f : Filler E) (s : System)
    → Inv k s
    → s.consumed ++ pending (submit_with f s.queue).0
      ≡ s.accepted ++ gained (f zeroed).0 (submit_with f s.queue).1
submit-history {k} f s inv =
    ap (λ l. s.consumed ++ l)
      (ap (λ r. r.0) refines
        ∙ submit_bounded-gained (2 ^ k) f (pending s.queue)
        ∙ ap (λ r. pending s.queue ++ gained (f zeroed).0 r.1) (sym refines))
    ∙ sym (append_assoc s.consumed (pending s.queue) _)
    ∙ ap (λ l. l ++ gained (f zeroed).0 (submit_with f s.queue).1) inv.history
  where
    refines :
        (pending (submit_with f s.queue).0, (submit_with f s.queue).1)
        ≡ submit_bounded (2 ^ k) f (pending s.queue)
    refines = (submit_with_refines f s.queue inv.valid).0

refresh_head-pending : (q : SubmissionQueue) → pending (refresh_head q).0 ≡ pending q
unfolding refresh_head pending
refresh_head-pending q = refl

refresh_head-IsValid : {k : ℕ} {q : SubmissionQueue} → IsValid k q → IsValid k (refresh_head q).0
unfolding refresh_head
refresh_head-IsValid v = refresh-IsValid v

Step-Inv : {E : Type 0} {k : ℕ} {s t : System} → Step E s t → Inv k s → Inv k t
Step-Inv {s} (submit f) inv = record {
  valid = (submit_with_refines f s.queue inv.valid).1;
  history = submit-history f s inv;
}
Step-Inv {s} flush inv = record {
  valid = flush_tail-IsValid inv.valid;
  history = ap (λ l. s.consumed ++ l) (pending-flush_tail s.queue) ∙ inv.history;
}
Step-Inv {s} refresh inv = record {
  valid = refresh_head-IsValid inv.valid;
  history = ap (λ l. s.consumed ++ l) (refresh_head-pending s.queue) ∙ inv.history;
}
Step-Inv {s} (take ne) inv = record {
  valid = taken-IsValid ne inv.valid;
  history =
      append_assoc s.consumed (entry_at s.queue s.queue.k_head ∷ []) (pending (taken s.queue))
      ∙ ap (λ l. s.consumed ++ l) (sym (pending-taken ne inv.valid))
      ∙ inv.history;
}

Reach-Inv :
    {E : Type 0} {k : ℕ} {q : SubmissionQueue} {s : System}
    → IsValid k q
    → pending q ≡ []
    → Reach E q s
    → Inv k s
Reach-Inv v none_left start = record { valid = v; history = none_left }
Reach-Inv v none_left (later r st) = Step-Inv st (Reach-Inv v none_left r)

-- However the process's submissions, flushes and reads of the head and the kernel's steps follow
-- one another, from an empty ring on: what the kernel has taken, and then what still waits, is what
-- was accepted, in order. Nothing is lost, repeated, overwritten or reordered, and the invariant
-- holds.
pub submission_fifo :
    {E : Type 0} {k : ℕ} {q : SubmissionQueue} {s : System}
    → IsValid k q
    → pending q ≡ []
    → Reach E q s
    → (s.consumed ++ pending s.queue ≡ s.accepted) × IsValid k s.queue
submission_fifo v none_left r = (history, valid)
  where
    open (Reach-Inv v none_left r) use {history, valid}
