-- ===== src/Uring.antt =====
-- io-uring/src/lib.rs and mmap.rs: `Uring`, its file and its mapped memory. What the kernel answers is
-- a parameter; the process's open files and mappings are the state, so that what a call leaves open
-- can be told. A panic unwinds, and unwinding drops what an early return drops.
pub mod Resources
pub mod Release
pub mod Fresh
pub mod Bounds
pub mod File
pub mod Tests
use rust_io_uring.Prelude.{
  ℕ, zero, suc, ◌+◌, ◌*◌, ◌==◌, if◌then◌else◌, Bool, List, [], ◌∷◌, Option, none, some, Result, ok,
  err, Outcome, returned, panicked, undefined, out_of_fuel, ℤ, pos, negsuc, leb, ◌-◌, ◌^◌,
}
use rust_io_uring.Sys.Entry.{SubmissionEntry, CompletionEntry}
use rust_io_uring.Sys.Setup.{
  SetupParameters, SubmissionQueueRingOffsets, CompletionQueueRingOffsets,
  submission_queue_ring_offset, completion_queue_ring_offset, submission_queue_entries_offset,
  size_of_u32, size_of_submission_entry, size_of_completion_entry,
}
use rust_io_uring.Sys.Setup.RegisterOpCode
use rust_io_uring.Ring.Submission.{SubmissionQueue}
use rust_io_uring.Ring.Completion.{CompletionQueue}
use rust_io_uring.Ring.Setup.{Mapped, new_submission, new_completion}

pub record MappedMemory : Type 0 where
  pub addr : ℕ
  pub len : ℕ

-- How many descriptors of each number are open, and how many mappings of each address and length.
pub record Process : Type 0 where
  pub files : ℕ → ℕ
  pub maps : ℕ → ℕ → ℕ

-- What the kernel answers, an error by its number, and what its memory holds: numbers of 32 bits and
-- arrays of entries, by their addresses.
pub record Kernel : Type 0 where
  pub setup : ℕ → SetupParameters → Result ℕ (ℕ × SetupParameters)
  pub mmap : ℕ → ℕ → ℕ → Result ℕ ℕ
  pub word : ℕ → ℕ
  pub words : ℕ → ℕ → List ℕ
  pub submissions : ℕ → ℕ → List SubmissionEntry
  pub completions : ℕ → ℕ → List CompletionEntry

-- What a call does to the process, and what it comes to.
abbrev pub Call : Type 0 → Type 0
Call A = Process × Outcome (Result ℕ A)

-- The process with one more or one less of a resource.
abbrev pub one_at : ℕ → ℕ → ℕ
one_at x y = if x == y then 1 else 0

abbrev pub one_of : MappedMemory → ℕ → ℕ → ℕ
one_of m addr len = one_at m.addr addr * one_at m.len len

abbrev pub open_file : ℕ → Process → Process
open_file fd s = record s { files = λ x. s.files x + one_at fd x }

abbrev pub add_map : MappedMemory → Process → Process
add_map m s = record s { maps = λ x y. s.maps x y + one_of m x y }

-- The drop of a `UringFile`, and `MappedMemory::drop`.
unfoldable pub drop_file : ℕ → Process → Process
drop_file fd s = record s { files = λ x. s.files x - one_at fd x }

unfoldable pub drop_map : MappedMemory → Process → Process
drop_map m s = if m.len == 0 then s else record s { maps = λ x y. s.maps x y - one_of m x y }

-- `MappedMemory::get_field`
unfoldable pub get_field : MappedMemory → ℕ → ℕ
get_field m offset = m.addr + offset

-- The queues with the mappings that they own, and `Uring`.
pub record OpenSubmissions : Type 0 where
  pub ring : SubmissionQueue
  pub mmap : MappedMemory
  pub mmap_entries : MappedMemory

pub record OpenCompletions : Type 0 where
  pub ring : CompletionQueue
  pub mmap : MappedMemory

pub record Uring : Type 0 where
  pub file : ℕ
  pub sq : OpenSubmissions
  pub cq : OpenCompletions

-- The drops that the compiler puts in, field by field.
unfoldable pub drop_submissions : OpenSubmissions → Process → Process
drop_submissions q s = drop_map q.mmap_entries (drop_map q.mmap s)

unfoldable pub drop_completions : OpenCompletions → Process → Process
drop_completions q s = drop_map q.mmap s

unfoldable pub drop_uring : Uring → Process → Process
drop_uring u s = drop_completions u.cq (drop_submissions u.sq (drop_file u.file s))

-- What stands at the offsets of the two rings.
abbrev pub mapped_submissions :
    Kernel → SubmissionQueueRingOffsets → ℕ → MappedMemory → MappedMemory → Mapped SubmissionEntry
mapped_submissions kernel offsets entries m m' = record {
  head = kernel.word (get_field m offsets.head);
  tail = kernel.word (get_field m offsets.tail);
  ring_mask = kernel.word (get_field m offsets.ring_mask);
  ring_entries = kernel.word (get_field m offsets.ring_entries);
  flags = kernel.word (get_field m offsets.flags);
  lost = kernel.word (get_field m offsets.dropped);
  entries = kernel.submissions m'.addr entries;
}

abbrev pub mapped_completions :
    Kernel → CompletionQueueRingOffsets → ℕ → MappedMemory → Mapped CompletionEntry
mapped_completions kernel offsets entries m = record {
  head = kernel.word (get_field m offsets.head);
  tail = kernel.word (get_field m offsets.tail);
  ring_mask = kernel.word (get_field m offsets.ring_mask);
  ring_entries = kernel.word (get_field m offsets.ring_entries);
  flags = 0;
  lost = kernel.word (get_field m offsets.overflow);
  entries = kernel.completions (get_field m offsets.cqes) entries;
}

-- A call, and what follows if it succeeds; `drop` is what an early end of it gives up.
abbrev pub attempt : {A B : Type 0} → Call A → (Process → Process) → (A → Process → Call B) → Call B
attempt (s, returned (ok a)) drop f = f a s
attempt (s, returned (err e)) drop f = (drop s, returned (err e))
attempt (s, panicked) drop f = (drop s, panicked)
attempt (s, undefined) drop f = (drop s, undefined)
attempt (s, out_of_fuel) drop f = (drop s, out_of_fuel)

-- The lengths that the two rings are mapped with.
abbrev pub ring_length : SubmissionQueueRingOffsets → ℕ → ℕ
ring_length offsets entries = offsets.array + size_of_u32 * entries

abbrev pub completions_length : CompletionQueueRingOffsets → ℕ → ℕ
completions_length offsets entries = offsets.cqes + size_of_completion_entry * entries

module _ (kernel : Kernel) where
  -- `MappedMemory::map`
  unfoldable pub map_memory : ℕ → ℕ → ℕ → Process → Call MappedMemory
  map_memory fd offset len s = elim (kernel.mmap fd offset len) [
    | err e ↦ (s, returned (err e))
    | ok addr ↦
        (let m : MappedMemory = record { addr = addr; len = len } in (add_map m s, returned (ok m)))
  ]

  -- `UringFile::new`, with the parameters that the kernel gives back.
  unfoldable pub new_file : ℕ → SetupParameters → Process → Call (ℕ × SetupParameters)
  new_file entries params s = elim (kernel.setup entries params) [
    | err e ↦ (s, returned (err e))
    | ok r ↦ (open_file r.0 s, returned (ok r))
  ]

  -- The end of `SubmissionQueue::new`, with both mappings.
  unfoldable pub read_submissions :
      SubmissionQueueRingOffsets → ℕ → MappedMemory → MappedMemory → Process → Call OpenSubmissions
  read_submissions offsets entries m m' s =
      elim (new_submission entries (mapped_submissions kernel offsets entries m m')
        (kernel.words (get_field m offsets.array) entries)) [
          | returned q ↦ (s, returned (ok (record { ring = q; mmap = m; mmap_entries = m' })))
          | panicked ↦ (drop_map m (drop_map m' s), panicked)
          | undefined ↦ (drop_map m (drop_map m' s), undefined)
          | out_of_fuel ↦ (drop_map m (drop_map m' s), out_of_fuel)
        ]

  -- `SubmissionQueue::new`
  unfoldable pub open_submissions :
      ℕ → SubmissionQueueRingOffsets → ℕ → Process → Call OpenSubmissions
  open_submissions fd offsets entries s =
      attempt (map_memory fd submission_queue_ring_offset (ring_length offsets entries) s) (λ s. s)
        (λ m s.
          attempt
            (map_memory fd submission_queue_entries_offset (size_of_submission_entry * entries) s)
            (drop_map m) (λ m' s. read_submissions offsets entries m m' s))

  unfoldable pub read_completions :
      CompletionQueueRingOffsets → ℕ → MappedMemory → Process → Call OpenCompletions
  read_completions offsets entries m s =
      elim (new_completion entries (mapped_completions kernel offsets entries m)) [
        | returned q ↦ (s, returned (ok (record { ring = q; mmap = m })))
        | panicked ↦ (drop_map m s, panicked)
        | undefined ↦ (drop_map m s, undefined)
        | out_of_fuel ↦ (drop_map m s, out_of_fuel)
      ]

  -- `CompletionQueue::new`
  unfoldable pub open_completions :
      ℕ → CompletionQueueRingOffsets → ℕ → Process → Call OpenCompletions
  open_completions fd offsets entries s =
      attempt (map_memory fd completion_queue_ring_offset (completions_length offsets entries) s)
        (λ s. s) (λ m s. read_completions offsets entries m s)

  -- `Uring::new`
  unfoldable pub new_uring : ℕ → SetupParameters → Process → Call Uring
  new_uring entries params s =
      attempt (new_file entries params s) (λ s. s)
        (λ r s.
          let (fd, p) = r in
          attempt (open_submissions fd p.sq_off p.sq_entries s) (drop_file fd) (λ sq s.
            attempt (open_completions fd p.cq_off p.cq_entries s)
              (λ s. drop_file fd (drop_submissions sq s))
              (λ cq s. (s, returned (ok (record { file = fd; sq = sq; cq = cq }))))))
