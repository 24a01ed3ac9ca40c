-- ===== src/Uring/Release.antt =====
-- Whatever `Uring::new` comes to, nothing stays open once its result is dropped.
use rust_io_uring.Prelude.{
  ℕ, ◌*◌, ◌≡◌, ◌≢◌, refl, ◌∙◌, ap, Result, ok, err, Outcome, returned, panicked, undefined,
  out_of_fuel,
}
use rust_io_uring.Sys.Setup.{
  submission_queue_ring_offset, completion_queue_ring_offset, submission_queue_entries_offset,
  size_of_submission_entry, SetupParameters, SubmissionQueueRingOffsets, CompletionQueueRingOffsets,
}
use rust_io_uring.Ring.Submission.{SubmissionQueue}
use rust_io_uring.Ring.Completion.{CompletionQueue}
use rust_io_uring.Ring.Setup.{new_submission, new_completion}
use rust_io_uring.Uring.{
  Call, attempt, map_memory, ring_length, completions_length, MappedMemory, Process, Kernel,
  drop_file, drop_map, OpenSubmissions, OpenCompletions, Uring, drop_submissions, drop_completions,
  drop_uring, new_file, read_submissions, open_submissions, read_completions, open_completions,
  new_uring, mapped_submissions, mapped_completions, get_field,
}
use rust_io_uring.Uring.Resources.{
  drop_result, drop_file-open_file, drop_map-drop_map, drop_map-drop_file, drop_file-drop_file,
  attempt-drop, map_memory-drop,
}

pub drop_uring-drop_file :
    (u : Uring) (fd : ℕ) (s : Process)
    → drop_uring u (drop_file fd s) ≡ drop_file fd (drop_uring u s)
unfolding drop_uring drop_submissions drop_completions
drop_uring-drop_file u fd s =
    let m : MappedMemory = u.sq.mmap in
    let e : MappedMemory = u.sq.mmap_entries in
    let c : MappedMemory = u.cq.mmap in
    let f : Process = drop_file u.file s in
    ap (λ t. drop_map c (drop_map e (drop_map m t))) (drop_file-drop_file u.file fd s)
    ∙ ap (λ t. drop_map c (drop_map e t)) (drop_map-drop_file m fd f)
    ∙ ap (drop_map c) (drop_map-drop_file e fd (drop_map m f))
    ∙ drop_map-drop_file c fd (drop_map e (drop_map m f))

module _ (kernel : Kernel) where
  -- The ends of the constructors, by what reading the ring comes to.
  read_submissions_go :
      (offsets : SubmissionQueueRingOffsets) (entries : ℕ) (m m' : MappedMemory) (s s1 s2 : Process)
      (r : Outcome SubmissionQueue)
      → new_submission entries
          (mapped_submissions kernel offsets entries m m')
          (kernel.words (get_field m offsets.array) entries)
        ≡ r
      → drop_map m' s2 ≡ s1
      → drop_map m s1 ≡ s
      → drop_result drop_submissions (read_submissions kernel offsets entries m m' s2) ≡ s
  unfolding read_submissions drop_submissions
  read_submissions_go offsets entries m m' s s1 s2 (returned q) e a b =
      rw (e, read_submissions) (drop_map-drop_map m' m s2 ∙ ap (drop_map m) a ∙ b)
  read_submissions_go offsets entries m m' s s1 s2 panicked e a b =
      rw (e, read_submissions) (ap (drop_map m) a ∙ b)
  read_submissions_go offsets entries m m' s s1 s2 undefined e a b =
      rw (e, read_submissions) (ap (drop_map m) a ∙ b)
  read_submissions_go offsets entries m m' s s1 s2 out_of_fuel e a b =
      rw (e, read_submissions) (ap (drop_map m) a ∙ b)

  read_completions_go :
      (offsets : CompletionQueueRingOffsets) (entries : ℕ) (m : MappedMemory) (s s1 : Process)
      (r : Outcome CompletionQueue)
      → new_completion entries (mapped_completions kernel offsets entries m) ≡ r
      → drop_map m s1 ≡ s
      → drop_result drop_completions (read_completions kernel offsets entries m s1) ≡ s
  unfolding read_completions drop_completions
  read_completions_go offsets entries m s s1 (returned q) e a = rw (e, read_completions) a
  read_completions_go offsets entries m s s1 panicked e a = rw (e, read_completions) a
  read_completions_go offsets entries m s s1 undefined e a = rw (e, read_completions) a
  read_completions_go offsets entries m s s1 out_of_fuel e a = rw (e, read_completions) a

  abbrev pub close_setup : ℕ × SetupParameters → Process → Process
  close_setup r s = drop_file r.0 s

  new_file_go :
      (entries : ℕ) (params : SetupParameters) (s : Process) (r : Result ℕ (ℕ × SetupParameters))
      → kernel.setup entries params ≡ r
      → drop_result close_setup (new_file kernel entries params s) ≡ s
  unfolding new_file
  new_file_go entries params s (ok x) e = rw (e, new_file) (drop_file-open_file x.0 s)
  new_file_go entries params s (err x) e = rw (e, new_file) refl

  module _ (no_empty : (fd offset addr : ℕ) → kernel.mmap fd offset 0 ≢ ok addr) where
    open_submissions-drop :
        (fd : ℕ) (offsets : SubmissionQueueRingOffsets) (entries : ℕ) (s : Process)
        → drop_result drop_submissions (open_submissions kernel fd offsets entries s) ≡ s
    unfolding open_submissions
    open_submissions-drop fd offsets entries s =
        attempt-drop drop_map drop_submissions
          (map_memory kernel fd submission_queue_ring_offset (ring_length offsets entries) s)
          (λ s. s)
          (λ m s.
            attempt
              (map_memory kernel fd submission_queue_entries_offset
                (size_of_submission_entry * entries) s)
              (drop_map m) (λ m' s. read_submissions kernel offsets entries m m' s))
          s s
          (map_memory-drop kernel no_empty fd submission_queue_ring_offset
            (ring_length offsets entries) s)
          refl
          (λ m s1 a.
            attempt-drop drop_map drop_submissions
              (map_memory kernel fd submission_queue_entries_offset
                (size_of_submission_entry * entries) s1)
              (drop_map m) (λ m' s. read_submissions kernel offsets entries m m' s) s1 s
              (map_memory-drop kernel no_empty fd submission_queue_entries_offset
                (size_of_submission_entry * entries) s1)
              a (λ m' s2 b. read_submissions_go offsets entries m m' s s1 s2 _ refl b a))

    open_completions-drop :
        (fd : ℕ) (offsets : CompletionQueueRingOffsets) (entries : ℕ) (s : Process)
        → drop_result drop_completions (open_completions kernel fd offsets entries s) ≡ s
    unfolding open_completions
    open_completions-drop fd offsets entries s =
        attempt-drop drop_map drop_completions
          (map_memory kernel fd completion_queue_ring_offset (completions_length offsets entries) s)
          (λ s. s) (λ m s. read_completions kernel offsets entries m s) s s
          (map_memory-drop kernel no_empty fd completion_queue_ring_offset
            (completions_length offsets entries) s)
          refl (λ m s1 a. read_completions_go offsets entries m s s1 _ refl a)

    drop_uring_order :
        (u : Uring) (s : Process)
        → drop_uring u s ≡ drop_file u.file (drop_submissions u.sq (drop_completions u.cq s))
    unfolding drop_uring drop_submissions drop_completions
    drop_uring_order u s =
        let fd : ℕ = u.file in
        let m : MappedMemory = u.sq.mmap in
        let e : MappedMemory = u.sq.mmap_entries in
        let c : MappedMemory = u.cq.mmap in
        ap (λ t. drop_map c (drop_map e t)) (drop_map-drop_file m fd s)
        ∙ ap (drop_map c) (drop_map-drop_file e fd (drop_map m s))
        ∙ drop_map-drop_file c fd (drop_map e (drop_map m s))
        ∙ ap (drop_file fd) (drop_map-drop_map c e (drop_map m s))
        ∙ ap (λ t. drop_file fd (drop_map e t)) (drop_map-drop_map c m s)

    -- Whatever `Uring::new` comes to, a ring, an error at any of its system calls or a failed
    -- assertion: when its result is dropped as well, the process has the descriptors and the mappings
    -- that it had before. An `mmap` of length 0 is taken to fail.
    pub new_uring-drop :
        (entries : ℕ) (params : SetupParameters) (s : Process)
        → drop_result drop_uring (new_uring kernel entries params s) ≡ s
    unfolding new_uring
    new_uring-drop entries params s =
        attempt-drop close_setup drop_uring (new_file kernel entries params s) (λ s. s) after_file s
          s (new_file_go entries params s (kernel.setup entries params) refl) refl
          (λ r s1 a.
            attempt-drop drop_submissions drop_uring
              (open_submissions kernel r.0 r.1.sq_off r.1.sq_entries s1) (drop_file r.0)
              (after_submissions r) s1 s (open_submissions-drop r.0 r.1.sq_off r.1.sq_entries s1) a
              (λ sq s2 b.
                attempt-drop drop_completions drop_uring
                  (open_completions kernel r.0 r.1.cq_off r.1.cq_entries s2)
                  (λ s. drop_file r.0 (drop_submissions sq s)) (after_completions r sq) s2 s
                  (open_completions-drop r.0 r.1.cq_off r.1.cq_entries s2)
                  (ap (drop_file r.0) b ∙ a)
                  (λ cq s3 c.
                    drop_uring_order (record { file = r.0; sq = sq; cq = cq }) s3
                    ∙ ap (λ t. drop_file r.0 (drop_submissions sq t)) c
                    ∙ ap (drop_file r.0) b
                    ∙ a)))
      where
        after_completions :
            ℕ × SetupParameters → OpenSubmissions → OpenCompletions → Process → Call Uring
        after_completions r sq cq s = (s, returned (ok (record { file = r.0; sq = sq; cq = cq })))

        after_submissions : ℕ × SetupParameters → OpenSubmissions → Process → Call Uring
        after_submissions r sq s =
            attempt (open_completions kernel r.0 r.1.cq_off r.1.cq_entries s)
              (λ s. drop_file r.0 (drop_submissions sq s)) (after_completions r sq)

        after_file : ℕ × SetupParameters → Process → Call Uring
        after_file r s =
            attempt (open_submissions kernel r.0 r.1.sq_off r.1.sq_entries s) (drop_file r.0)
              (after_submissions r)
