-- ===== src/Uring/Bounds.antt =====
-- The slots of the rings lie in the mappings.
use rust_io_uring.Prelude.{
  ℕ, ◌+◌, ◌-◌, ◌*◌, ◌≤◌, ◌≡◌, refl, sym, ◌∙◌, ap, arith, Bool, true, false, Result, ok, err,
  Outcome, returned, panicked, undefined, out_of_fuel, bit_and, bit_and_le,
}
use mathlib.Core.Bool.{false≢true}
use rust_io_uring.Sys.Setup.{
  SubmissionQueueRingOffsets, CompletionQueueRingOffsets, size_of_u32, size_of_submission_entry,
  size_of_completion_entry,
}
use rust_io_uring.Ring.Submission.{SubmissionQueue}
use rust_io_uring.Ring.Completion.{CompletionQueue}
use rust_io_uring.Ring.Setup.{new_submission, new_completion}
use rust_io_uring.Ring.Setup.Sizes.{new_submission-sizes, new_completion-sizes}
use rust_io_uring.Uring.{
  MappedMemory, Process, Kernel, Call, attempt, map_memory, ring_length, completions_length,
  mapped_submissions, mapped_completions, get_field, OpenSubmissions, OpenCompletions, drop_map,
  read_submissions, open_submissions, read_completions, open_completions,
}

abbrev succeeds : {A : Type 0} → Outcome (Result ℕ A) → Bool
succeeds (returned (ok a)) = true
succeeds (returned (err e)) = false
succeeds panicked = false
succeeds undefined = false
succeeds out_of_fuel = false

abbrev value_or : {A : Type 0} → A → Outcome (Result ℕ A) → A
value_or d (returned (ok a)) = a
value_or d (returned (err e)) = d
value_or d panicked = d
value_or d undefined = d
value_or d out_of_fuel = d

-- A call that succeeds, and not with what fails.
failed :
    {A B : Type 0} {t : Process} {r : Outcome (Result ℕ A)} {c : Call A} (a : A) (p : Process)
    → succeeds r ≡ false
    → c ≡ (p, r)
    → c ≡ (t, returned (ok a))
    → B
failed a p f x y = absurd (false≢true (sym f ∙ ap (λ c. succeeds c.1) (sym x ∙ y)))

-- Where an attempt succeeds, its call has and what follows it has.
attempt-ok :
    {A B : Type 0} (c : Call A) (drop : Process → Process) (f : A → Process → Call B) (t : Process)
    (b : B)
    → attempt c drop f ≡ (t, returned (ok b))
    → (a : A) × (s : Process) × (c ≡ (s, returned (ok a))) × (f a s ≡ (t, returned (ok b)))
attempt-ok (s, returned (ok a)) drop f t b e = (a, s, refl, e)
attempt-ok (s, returned (err x)) drop f t b e = failed b (drop s) refl refl e
attempt-ok (s, panicked) drop f t b e = failed b (drop s) refl refl e
attempt-ok (s, undefined) drop f t b e = failed b (drop s) refl refl e
attempt-ok (s, out_of_fuel) drop f t b e = failed b (drop s) refl refl e

module _ (kernel : Kernel) where
  map_go :
      (fd offset len : ℕ) (s t : Process) (m : MappedMemory) (r : Result ℕ ℕ)
      → kernel.mmap fd offset len ≡ r
      → map_memory kernel fd offset len s ≡ (t, returned (ok m))
      → m.len ≡ len
  unfolding map_memory
  map_go fd offset len s t m (ok addr) e x =
      let asked : (value_or m (map_memory kernel fd offset len s).1).len ≡ len =
        rw (e, map_memory) refl in
      ap (λ c. (value_or m c.1).len) (sym x) ∙ asked
  map_go fd offset len s t m (err y) e x =
      let fails : succeeds (map_memory kernel fd offset len s).1 ≡ false =
        rw (e, map_memory) refl in
      absurd (false≢true (sym fails ∙ ap (λ c. succeeds c.1) x))

  read_submissions_go :
      (offsets : SubmissionQueueRingOffsets) (entries : ℕ) (m m' : MappedMemory) (s t : Process)
      (q : OpenSubmissions) (r : Outcome SubmissionQueue)
      → new_submission entries
          (mapped_submissions kernel offsets entries m m')
          (kernel.words (get_field m offsets.array) entries)
        ≡ r
      → read_submissions kernel offsets entries m m' s ≡ (t, returned (ok q))
      → (q.mmap ≡ m) × (q.mmap_entries ≡ m') × (1 ≤ entries) × (q.ring.ring_mask ≡ entries - 1)
  unfolding read_submissions
  read_submissions_go offsets entries m m' s t q (returned r) e x =
      let made : read_submissions kernel offsets entries m m' s
          ≡ (s, returned (ok (record { ring = r; mmap = m; mmap_entries = m' }))) =
        rw (e, read_submissions) refl in
      let same : q ≡ record { ring = r; mmap = m; mmap_entries = m' } =
        ap (λ c. value_or q c.1) (sym x ∙ made) in
      let (some_slot, mask) =
        new_submission-sizes entries (mapped_submissions kernel offsets entries m m')
          (kernel.words (get_field m offsets.array) entries) r e in
      (
        ap (λ (q : OpenSubmissions). q.mmap) same,
        ap (λ (q : OpenSubmissions). q.mmap_entries) same,
        some_slot,
        ap (λ (q : OpenSubmissions). q.ring.ring_mask) same ∙ mask,
      )
  read_submissions_go offsets entries m m' s t q panicked e x =
      failed {r = panicked} q (drop_map m (drop_map m' s)) refl (rw (e, read_submissions) refl) x
  read_submissions_go offsets entries m m' s t q undefined e x =
      failed {r = undefined} q (drop_map m (drop_map m' s)) refl (rw (e, read_submissions) refl) x
  read_submissions_go offsets entries m m' s t q out_of_fuel e x =
      failed {r = out_of_fuel} q (drop_map m (drop_map m' s)) refl (rw (e, read_submissions) refl) x

  read_completions_go :
      (offsets : CompletionQueueRingOffsets) (entries : ℕ) (m : MappedMemory) (s t : Process)
      (q : OpenCompletions) (r : Outcome CompletionQueue)
      → new_completion entries (mapped_completions kernel offsets entries m) ≡ r
      → read_completions kernel offsets entries m s ≡ (t, returned (ok q))
      → (q.mmap ≡ m) × (1 ≤ entries) × (q.ring.ring_mask ≡ entries - 1)
  unfolding read_completions
  read_completions_go offsets entries m s t q (returned r) e x =
      let made : read_completions kernel offsets entries m s
          ≡ (s, returned (ok (record { ring = r; mmap = m }))) =
        rw (e, read_completions) refl in
      let same : q ≡ record { ring = r; mmap = m } = ap (λ c. value_or q c.1) (sym x ∙ made) in
      let (some_slot, mask) =
        new_completion-sizes entries (mapped_completions kernel offsets entries m) r e in
      (
        ap (λ (q : OpenCompletions). q.mmap) same,
        some_slot,
        ap (λ (q : OpenCompletions). q.ring.ring_mask) same ∙ mask,
      )
  read_completions_go offsets entries m s t q panicked e x =
      failed {r = panicked} q (drop_map m s) refl (rw (e, read_completions) refl) x
  read_completions_go offsets entries m s t q undefined e x =
      failed {r = undefined} q (drop_map m s) refl (rw (e, read_completions) refl) x
  read_completions_go offsets entries m s t q out_of_fuel e x =
      failed {r = out_of_fuel} q (drop_map m s) refl (rw (e, read_completions) refl) x

  -- Where `SubmissionQueue::new` succeeds, the entry of every position and the index that stands for
  -- it lie in the two mappings: no masked position reaches beyond their lengths.
  pub submission_slots :
      (fd : ℕ) (offsets : SubmissionQueueRingOffsets) (entries : ℕ) (s t : Process)
      (q : OpenSubmissions) (position : ℕ)
      → open_submissions kernel fd offsets entries s ≡ (t, returned (ok q))
      → (size_of_submission_entry * bit_and position q.ring.ring_mask + size_of_submission_entry
          ≤ q.mmap_entries.len)
        × (offsets.array + size_of_u32 * bit_and position q.ring.ring_mask + size_of_u32
            ≤ q.mmap.len)
  unfolding open_submissions
  submission_slots fd offsets entries s t q p e =
      let (m, s1, e1, rest) = attempt-ok _ _ _ t q e in
      let (m', s2, e2, last) = attempt-ok _ _ _ t q rest in
      let (is_m, is_m', some_slot, mask) =
        read_submissions_go offsets entries m m' s2 t q _ refl last in
      let ring : m.len ≡ ring_length offsets entries = map_go fd _ _ s s1 m _ refl e1 in
      let slots : m'.len ≡ size_of_submission_entry * entries = map_go fd _ _ s1 s2 m' _ refl e2 in
      (
        omega (
          arith,
          bit_and_le p q.ring.ring_mask,
          mask,
          some_slot,
          slots,
          ap (λ (m : MappedMemory). m.len) is_m',
        ),
        omega (
          arith,
          bit_and_le p q.ring.ring_mask,
          mask,
          some_slot,
          ring,
          ap (λ (m : MappedMemory). m.len) is_m,
        ),
      )

  -- Likewise the entries of `CompletionQueue::new`.
  pub completion_slots :
      (fd : ℕ) (offsets : CompletionQueueRingOffsets) (entries : ℕ) (s t : Process)
      (q : OpenCompletions) (position : ℕ)
      → open_completions kernel fd offsets entries s ≡ (t, returned (ok q))
      → offsets.cqes
          + size_of_completion_entry * bit_and position q.ring.ring_mask
          + size_of_completion_entry
        ≤ q.mmap.len
  unfolding open_completions
  completion_slots fd offsets entries s t q p e =
      let (m, s1, e1, last) = attempt-ok _ _ _ t q e in
      let (is_m, some_slot, mask) = read_completions_go offsets entries m s1 t q _ refl last in
      let ring : m.len ≡ completions_length offsets entries = map_go fd _ _ s s1 m _ refl e1 in
      omega (
        arith,
        bit_and_le p q.ring.ring_mask,
        mask,
        some_slot,
        ring,
        ap (λ (m : MappedMemory). m.len) is_m,
      )
