-- ===== src/Ring/Submission.antt =====
-- `SubmissionQueue` and `BulkSubmission` of io-uring/src/lib.rs. The record holds the struct's own
-- fields and, under the names of the pointers, the contents of the shared memory they point to:
-- `k_head`, `k_tail`, `k_flags`, `k_dropped`, the index array (whose pointer the struct drops after
-- `new`) and `sces`. A method returns the new queue beside its result.
pub mod Valid
pub mod Full
pub mod Write
pub mod Submit
pub mod Pending
pub mod Kernel
pub mod Bulk
pub mod Tests
use rust_io_uring.Prelude.{
  ℕ, ◌-◌, Bool, true, false, not, ◌&&◌, List, Option, none, some, ◌==◌, ltb, if◌then◌else◌, bit_and,
  bit_xor, set, get_or, wrapping_add, wrapping_sub, Result, ok, err,
}
use rust_io_uring.Sys.Entry.{SubmissionEntry, zeroed, clear}
use rust_io_uring.Sys.Flags.SubmissionQueueFlags
use rust_io_uring.Ring.Slots.{same_entry}
use rust_io_uring.Ring.Window.{window}

pub record SubmissionQueue : Type 0 where
  pub k_head : ℕ
  pub cached_head : ℕ
  pub k_tail : ℕ
  pub local_tail : ℕ
  pub ring_mask : ℕ
  pub k_flags : ℕ
  pub k_dropped : ℕ
  pub k_array : List ℕ
  pub sces : List SubmissionEntry

pub data SubmissionError {ℓ} (E : Type ℓ) : Type ℓ where
  queue_full : SubmissionError E
  fill_error : E → SubmissionError E

-- `Error::source` of `SubmissionError`
unfoldable pub source {ℓ} : {E : Type ℓ} → SubmissionError E → Option E
source queue_full = none
source (fill_error e) = some e

-- `F: FnOnce(&mut SubmissionEntry) -> Result<(), E>`: the entry as the closure leaves it, and the
-- result.
abbrev pub Filler {ℓ} : Type ℓ → Type ℓ
Filler E = SubmissionEntry → SubmissionEntry × Result E (Unit {0})

unfoldable pub flush_tail : SubmissionQueue → SubmissionQueue
flush_tail q = record q { k_tail = q.local_tail }

unfoldable pub refresh_head : SubmissionQueue → SubmissionQueue × ℕ
refresh_head q = (record q { cached_head = q.k_head }, q.k_head)

unfoldable pub head : SubmissionQueue → SubmissionQueue × ℕ
unfolding refresh_head
head q =
    let q' : SubmissionQueue =
      if not (q.cached_head == q.local_tail)
      then (if same_entry q.cached_head q.local_tail q.ring_mask then (refresh_head q).0 else q)
      else q in
    (q', q'.cached_head)

unfoldable pub is_full : SubmissionQueue → SubmissionQueue × Bool
unfolding head
is_full q =
    let (q', h) = head q in
    (q', not (h == q'.local_tail) && same_entry q'.cached_head q'.local_tail q'.ring_mask)

-- `flags`, truncated to the known flags, which are all bits.
unfoldable pub flags : SubmissionQueue → ℕ
flags q = bit_and q.k_flags SubmissionQueueFlags.all

unfoldable pub dropped : SubmissionQueue → ℕ
dropped q = q.k_dropped

unfoldable pub has_pending_submissions : SubmissionQueue → SubmissionQueue × Bool
unfolding refresh_head
has_pending_submissions q = let (q', h) = refresh_head q in (q', not (h == q'.local_tail))

-- `a - b` on `u32`: `none` is the panic of a build with overflow checks; without them it wraps.
unfoldable pub sub_u32 : Bool → ℕ → ℕ → Option ℕ
sub_u32 checks a b =
    if checks then (if ltb a b then none else some (a - b)) else some (wrapping_sub a b)

unfoldable pub pending_submissions : Bool → SubmissionQueue → SubmissionQueue × Option ℕ
unfolding refresh_head sub_u32
pending_submissions checks q =
    let tail : ℕ = q.local_tail in let (q', h) = refresh_head q in (q', sub_u32 checks tail h)

module _ {ℓ} {E : Type ℓ} where
  -- The part of `submit_with` behind the test: the slot is cleared and filled in place, and the tail
  -- moves on only if the closure succeeds.
  unfoldable pub fill_slot :
      Filler E → SubmissionQueue → SubmissionQueue × Result (SubmissionError E) (Unit {0})
  unfolding clear
  fill_slot f q =
      let ndx : ℕ = q.local_tail in
      let slot : ℕ = bit_and ndx q.ring_mask in
      let (entry, result) = f (clear (get_or q.sces slot zeroed)) in
      let q' : SubmissionQueue = record q { sces = set q.sces slot entry } in
      elim result [
        | ok _ ↦ (record q' { local_tail = wrapping_add ndx 1 }, ok tt)
        | err e ↦ (q', err (fill_error e))
      ]

  unfoldable pub submit_with :
      Filler E → SubmissionQueue → SubmissionQueue × Result (SubmissionError E) (Unit {0})
  submit_with f q =
      let (q', full) = is_full q in if full then (q', err queue_full) else fill_slot f q'

  -- `queue.bulk().submit_with(f)` as one statement: the temporary is dropped at its end, which
  -- flushes the tail, also after an error.
  unfoldable pub bulk_submit_with :
      Filler E → SubmissionQueue → SubmissionQueue × Result (SubmissionError E) (Unit {0})
  bulk_submit_with f q = let (q', result) = submit_with f q in (flush_tail q', result)

-- What the kernel finds at a position: it goes through the index array.
unfoldable pub entry_at : SubmissionQueue → ℕ → SubmissionEntry
entry_at q p = get_or q.sces (get_or q.k_array (bit_and p q.ring_mask) 0) zeroed

-- The entries that the kernel has not taken yet, oldest first, and those of them that it can see.
unfoldable pub pending : SubmissionQueue → List SubmissionEntry
unfolding entry_at
pending q = window (entry_at q) q.k_head (wrapping_sub q.local_tail q.k_head)

unfoldable pub visible : SubmissionQueue → List SubmissionEntry
unfolding entry_at
visible q = window (entry_at q) q.k_head (wrapping_sub q.k_tail q.k_head)
