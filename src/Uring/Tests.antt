-- ===== src/Uring/Tests.antt =====
-- The theorems about the mapped rings at a concrete kernel, which sets up rings of two slots.
use rust_io_uring.Prelude.{
  ℕ, ◌*◌, ◌+◌, ◌≡◌, ◌≢◌, ◌≤◌, bit_and, refl, arith, Bool, true, false, ap, [], ◌∷◌, Result, ok, err,
  returned, ◌==◌, ◌||◌, if◌then◌else◌,
}
use mathlib.Core.Bool.{false≢true}
use rust_io_uring.Sys.Entry.{zeroed, default_completion}
use rust_io_uring.Sys.Setup.{SetupParameters}
use rust_io_uring.Uring.{
  Process, Kernel, OpenSubmissions, OpenCompletions, open_submissions, open_completions, map_memory,
  read_submissions, read_completions, get_field, add_map,
}
use rust_io_uring.Ring.Setup.{new_submission, new_completion, sizes_agree, init_array}
use rust_io_uring.Uring.Bounds.{submission_slots, completion_slots}
use rust_io_uring.Uring.Fresh.{IsServed, mapping}

abbrev answer : SetupParameters
answer = record {
  sq_entries = 2;
  cq_entries = 2;
  flags = 0;
  sq_thread_cpu = 0;
  sq_thread_idle = 0;
  sq_off = record {
    head = 0;
    tail = 4;
    ring_mask = 8;
    ring_entries = 12;
    flags = 16;
    dropped = 20;
    array = 24;
  };
  cq_off = record {
    head = 0;
    tail = 4;
    ring_mask = 8;
    ring_entries = 12;
    overflow = 16;
    cqes = 32;
  };
}

abbrev pub kernel : Kernel
kernel = record {
  setup = λ entries params. ok (7, answer);
  mmap = λ fd offset len.
      if len == 0
      then err 22
      else if offset == 0
      then ok 1000
      else if offset == 0x8000000
      then ok 9000
      else ok 5000;
  word = λ a. if (a == 1008) || (a == 9008) then 1 else if (a == 1012) || (a == 9012) then 2 else 0;
  words = λ a n. 0 ∷ 0 ∷ [];
  submissions = λ a n. zeroed ∷ zeroed ∷ [];
  completions = λ a n. default_completion ∷ default_completion ∷ [];
}

-- A process that has two descriptors of its own.
abbrev pub process : Process
process = record { files = λ fd. if fd == 2 then 2 else 0; maps = λ a n. 0 }

abbrev is_ok : Result ℕ ℕ → Bool
is_ok (ok a) = true
is_ok (err e) = false

pub no_empty : (fd offset addr : ℕ) → kernel.mmap fd offset 0 ≢ ok addr
no_empty fd offset addr e = false≢true (ap is_ok e)

pub served : (entries : ℕ) (params : SetupParameters) → IsServed kernel 1 1 entries params
unfolding get_field
served entries params = record {
  fd = 7;
  given = answer;
  ring = 1000;
  slots = 5000;
  completions = 9000;
  set_up = refl;
  ring_mapped = refl;
  slots_mapped = refl;
  completions_mapped = refl;
  sq_size = refl;
  cq_size = refl;
  fresh_ring = record {
    small = omega arith;
    size = refl;
    mask = refl;
    slots = refl;
    head_word = omega arith;
    empty = refl;
  };
  index_array = refl;
  fresh_completions = record {
    small = omega arith;
    size = refl;
    mask = refl;
    slots = refl;
    head_word = omega arith;
    empty = refl;
  };
}

abbrev submissions : OpenSubmissions
submissions = record {
  ring = record {
    k_head = 0;
    cached_head = 0;
    k_tail = 0;
    local_tail = 0;
    ring_mask = 1;
    k_flags = 0;
    k_dropped = 0;
    k_array = 0 ∷ 1 ∷ [];
    sces = zeroed ∷ zeroed ∷ [];
  };
  mmap = mapping 1000 32;
  mmap_entries = mapping 5000 128;
}

submissions-open :
    open_submissions kernel 7 answer.sq_off 2 process
    ≡ (add_map (mapping 5000 128) (add_map (mapping 1000 32) process), returned (ok submissions))
unfolding open_submissions map_memory read_submissions new_submission get_field sizes_agree
    init_array
submissions-open = refl

submission_slots_example : (64 * bit_and 7 1 + 64 ≤ 128) × (24 + 4 * bit_and 7 1 + 4 ≤ 32)
submission_slots_example =
    submission_slots kernel 7 answer.sq_off 2 process
      (add_map (mapping 5000 128) (add_map (mapping 1000 32) process)) submissions 7
      submissions-open

abbrev completions : OpenCompletions
completions = record {
  ring = record {
    k_head = 0;
    local_head = 0;
    k_tail = 0;
    cached_tail = 0;
    ring_mask = 1;
    k_overflow = 0;
    k_cqes = default_completion ∷ default_completion ∷ [];
  };
  mmap = mapping 9000 64;
}

completions-open :
    open_completions kernel 7 answer.cq_off 2 process
    ≡ (add_map (mapping 9000 64) process, returned (ok completions))
unfolding open_completions map_memory read_completions new_completion get_field sizes_agree
completions-open = refl

completion_slots_example : 32 + 16 * bit_and 7 1 + 16 ≤ 64
completion_slots_example =
    completion_slots kernel 7 answer.cq_off 2 process (add_map (mapping 9000 64) process)
      completions 7 completions-open
