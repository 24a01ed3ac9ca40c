-- ===== src/Uring/Fresh.antt =====
-- `Uring::new` on a kernel that serves it.
use rust_io_uring.Prelude.{ℕ, ◌*◌, ◌^◌, ◌≡◌, refl, sym, subst, [], length, ok, returned, suc, arith}
use rust_io_uring.Sys.Setup.{
  SetupParameters, SubmissionQueueRingOffsets, CompletionQueueRingOffsets,
  submission_queue_ring_offset, completion_queue_ring_offset, submission_queue_entries_offset,
  size_of_submission_entry,
}
use rust_io_uring.Ring.Submission.{SubmissionQueue, pending}
use rust_io_uring.Ring.Submission.Valid.{IsValid}
use rust_io_uring.Ring.Completion.{CompletionQueue, available}
use rust_io_uring.Ring.Completion.Valid
use rust_io_uring.Ring.Setup.{new_submission, new_completion}
use rust_io_uring.Ring.Setup.Fresh
use rust_io_uring.Ring.Setup.Submissions.{new_submission_lem}
use rust_io_uring.Ring.Setup.Completions.{new_completion_lem}
use rust_io_uring.Uring.{
  MappedMemory, Process, Kernel, Uring, get_field, open_file, add_map, ring_length,
  completions_length, mapped_submissions, mapped_completions, map_memory, new_file,
  read_submissions, open_submissions, read_completions, open_completions, new_uring,
}

abbrev pub mapping : ℕ → ℕ → MappedMemory
mapping addr len = record { addr = addr; len = len }

-- The answers of a kernel that sets up rings of 2 ^ k and 2 ^ l slots, as io_uring_setup(2) has it: a
-- descriptor and the parameters, three mappings, and in them fresh rings of the sizes that the
-- parameters give.
pub record IsServed (kernel : Kernel) (k l entries : ℕ) (params : SetupParameters) : Type 0 where
  pub fd : ℕ
  pub given : SetupParameters
  pub ring : ℕ
  pub slots : ℕ
  pub completions : ℕ
  pub set_up : kernel.setup entries params ≡ ok (fd, given)
  pub ring_mapped :
      kernel.mmap fd submission_queue_ring_offset (ring_length given.sq_off given.sq_entries)
      ≡ ok ring
  pub slots_mapped :
      kernel.mmap fd submission_queue_entries_offset (size_of_submission_entry * given.sq_entries)
      ≡ ok slots
  pub completions_mapped :
      kernel.mmap fd completion_queue_ring_offset (completions_length given.cq_off given.cq_entries)
      ≡ ok completions
  pub sq_size : given.sq_entries ≡ 2 ^ k
  pub cq_size : given.cq_entries ≡ 2 ^ l
  pub fresh_ring : Fresh.IsFresh k (
      mapped_submissions kernel given.sq_off given.sq_entries
        (record { addr = ring; len = ring_length given.sq_off given.sq_entries })
        (record { addr = slots; len = size_of_submission_entry * given.sq_entries }))
  pub index_array :
      length (
        kernel.words
          (get_field
            (record { addr = ring; len = ring_length given.sq_off given.sq_entries })
            given.sq_off.array)
          given.sq_entries)
      ≡ 2 ^ k
  pub fresh_completions : Fresh.IsFresh l (
      mapped_completions kernel given.cq_off given.cq_entries
        (record { addr = completions; len = completions_length given.cq_off given.cq_entries }))

-- Two queues that are valid and empty.
pub record IsEmpty (k l : ℕ) (u : Uring) : Type 0 where
  pub sq : IsValid k u.sq.ring
  pub nothing_pending : pending u.sq.ring ≡ []
  pub cq : Valid.IsValid l u.cq.ring
  pub nothing_available : available u.cq.ring ≡ []

module _ (kernel : Kernel) where
  new_file-ok :
      (entries : ℕ) (params : SetupParameters) (s : Process) (r : ℕ × SetupParameters)
      → kernel.setup entries params ≡ ok r
      → new_file kernel entries params s ≡ (open_file r.0 s, returned (ok r))
  unfolding new_file
  new_file-ok entries params s r e = rw (e, new_file) refl

  map_memory-ok :
      (fd offset len addr : ℕ) (s : Process)
      → kernel.mmap fd offset len ≡ ok addr
      → map_memory kernel fd offset len s
        ≡ (add_map (mapping addr len) s, returned (ok (mapping addr len)))
  unfolding map_memory
  map_memory-ok fd offset len addr s e = rw (e, map_memory) refl

  open_submissions-ok :
      (fd : ℕ) (offsets : SubmissionQueueRingOffsets) (entries a b : ℕ) (q : SubmissionQueue)
      (s : Process)
      → kernel.mmap fd submission_queue_ring_offset (ring_length offsets entries) ≡ ok a
      → kernel.mmap fd submission_queue_entries_offset (size_of_submission_entry * entries) ≡ ok b
      → new_submission entries
          (mapped_submissions kernel offsets entries
            (mapping a (ring_length offsets entries))
            (mapping b (size_of_submission_entry * entries)))
          (kernel.words (get_field (mapping a (ring_length offsets entries)) offsets.array) entries)
        ≡ returned q
      → open_submissions kernel fd offsets entries s ≡ (
        add_map
            (mapping b (size_of_submission_entry * entries))
            (add_map (mapping a (ring_length offsets entries)) s),
        returned (
            ok (record {
              ring = q;
              mmap = mapping a (ring_length offsets entries);
              mmap_entries = mapping b (size_of_submission_entry * entries);
            })),
      )
  unfolding open_submissions read_submissions
  open_submissions-ok fd offsets entries a b q s x y z =
      rw
        (
          map_memory-ok fd submission_queue_ring_offset (ring_length offsets entries) a s x,
          map_memory-ok fd submission_queue_entries_offset (size_of_submission_entry * entries) b
              (add_map (mapping a (ring_length offsets entries)) s) y,
          z,
          open_submissions,
          read_submissions,
        )
        refl

  open_completions-ok :
      (fd : ℕ) (offsets : CompletionQueueRingOffsets) (entries a : ℕ) (q : CompletionQueue)
      (s : Process)
      → kernel.mmap fd completion_queue_ring_offset (completions_length offsets entries) ≡ ok a
      → new_completion entries (
          mapped_completions kernel offsets entries
            (mapping a (completions_length offsets entries)))
        ≡ returned q
      → open_completions kernel fd offsets entries s ≡ (
        add_map (mapping a (completions_length offsets entries)) s,
        returned (ok (record { ring = q; mmap = mapping a (completions_length offsets entries) })),
      )
  unfolding open_completions read_completions
  open_completions-ok fd offsets entries a q s x z =
      rw
        (
          map_memory-ok fd completion_queue_ring_offset (completions_length offsets entries) a s x,
          z,
          open_completions,
          read_completions,
        )
        refl

module _ (kernel : Kernel) {k l : ℕ} (entries : ℕ) (params : SetupParameters) (s : Process)
    (v : IsServed kernel k l entries params) where
  abbrev m : MappedMemory
  m = mapping v.ring (ring_length v.given.sq_off v.given.sq_entries)

  abbrev m' : MappedMemory
  m' = mapping v.slots (size_of_submission_entry * v.given.sq_entries)

  abbrev c : MappedMemory
  c = mapping v.completions (completions_length v.given.cq_off v.given.cq_entries)

  -- From a kernel that serves it, `Uring::new` returns the descriptor with both queues valid and
  -- empty, and leaves open that descriptor and three mappings.
  pub new_uring_lem :
      (u : Uring) × (new_uring kernel entries params s
        ≡ (add_map c (add_map m' (add_map m (open_file v.fd s))), returned (ok u)))
      × IsEmpty k l u
  unfolding new_uring
  new_uring_lem =
      let ((q, e, valid, empty), _) =
        new_submission_lem {k = k}
          (mapped_submissions kernel v.given.sq_off v.given.sq_entries m m')
          (kernel.words (get_field m v.given.sq_off.array) v.given.sq_entries) (suc (2 ^ k))
          v.fresh_ring v.index_array (λ x. omega arith) in
      let ((r, e', valid', empty'), _) =
        new_completion_lem {k = l} (mapped_completions kernel v.given.cq_off v.given.cq_entries c)
          (suc (2 ^ l)) v.fresh_completions (λ x. omega arith) in
      (
        record {
          file = v.fd;
          sq = record { ring = q; mmap = m; mmap_entries = m' };
          cq = record { ring = r; mmap = c };
        },
        rw
            (
              new_file-ok kernel entries params s (v.fd, v.given) v.set_up,
              open_submissions-ok kernel v.fd v.given.sq_off v.given.sq_entries v.ring v.slots q
                  (open_file v.fd s) v.ring_mapped v.slots_mapped
                  (subst
                    (λ n.
                      new_submission n
                        (mapped_submissions kernel v.given.sq_off v.given.sq_entries m m')
                        (kernel.words (get_field m v.given.sq_off.array) v.given.sq_entries)
                      ≡ returned q)
                    (sym v.sq_size) e),
              open_completions-ok kernel v.fd v.given.cq_off v.given.cq_entries v.completions r
                  (add_map m' (add_map m (open_file v.fd s))) v.completions_mapped
                  (subst
                    (λ n.
                      new_completion n
                        (mapped_completions kernel v.given.cq_off v.given.cq_entries c)
                      ≡ returned r)
                    (sym v.cq_size) e'),
              new_uring,
            )
            refl,
        record { sq = valid; nothing_pending = empty; cq = valid'; nothing_available = empty' },
      )
