-- ===== src/Ring/Completion.antt =====
-- `CompletionQueue` and `BulkCompletion` of io-uring/src/lib.rs. As for the submission ring, the
-- record holds the struct's fields and the contents of the memory shared with the kernel.
pub mod Valid
pub mod Next
pub mod Drain
pub mod Kernel
mod Tests
use rust_io_uring.Prelude.{
  ℕ, zero, suc, Bool, true, false, List, [], ◌∷◌, Option, none, some, ◌==◌, if◌then◌else◌, bit_and,
  get_or, wrapping_add, wrapping_sub,
}
use rust_io_uring.Sys.Entry.{CompletionEntry, default_completion}
use rust_io_uring.Ring.Window.{window}

pub record CompletionQueue : Type 0 where
  pub k_head : ℕ
  pub local_head : ℕ
  pub k_tail : ℕ
  pub cached_tail : ℕ
  pub ring_mask : ℕ
  pub k_overflow : ℕ
  pub k_cqes : List CompletionEntry

unfoldable pub flush_head : CompletionQueue → CompletionQueue
flush_head q = record q { k_head = q.local_head }

unfoldable pub refresh_tail : CompletionQueue → CompletionQueue × ℕ
refresh_tail q = (record q { cached_tail = q.k_tail }, q.k_tail)

unfoldable pub is_empty : CompletionQueue → CompletionQueue × Bool
unfolding refresh_tail
is_empty q =
    if q.cached_tail == q.local_head
    then (let (q', _) = refresh_tail q in (q', q'.cached_tail == q'.local_head))
    else (q, false)

unfoldable pub overflow : CompletionQueue → ℕ
overflow q = q.k_overflow

-- The entry at a position.
unfoldable pub cqe_at : CompletionQueue → ℕ → CompletionEntry
cqe_at q p = get_or q.k_cqes (bit_and p q.ring_mask) default_completion

-- The part of `next` behind the test.
unfoldable pub read_head : CompletionQueue → CompletionQueue × Option CompletionEntry
unfolding cqe_at
read_head q =
    let ndx : ℕ = q.local_head in
    let item : CompletionEntry = cqe_at q ndx in
    (record q { local_head = wrapping_add ndx 1 }, some item)

-- `Iterator::next` of `BulkCompletion`
unfoldable pub next : CompletionQueue → CompletionQueue × Option CompletionEntry
next q = let (q', empty) = is_empty q in if empty then (q', none) else read_head q'

-- `for cqe in queue.into_iter() { .. }`: the loop over a state `S` that the body changes, with fuel
-- for the number of rounds, and the drop of the iterator behind it. `none`: the fuel ran out.
unfoldable pub for_each {ℓ} :
    {S : Type ℓ}
    → ℕ
    → (CompletionEntry → S → S)
    → CompletionQueue
    → S
    → Option (CompletionQueue × S)
for_each zero body q s = none
for_each (suc fuel) body q s =
    let (q', item) = next q in
    elim item [ none ↦ some (flush_head q', s) | some c ↦ for_each fuel body q' (body c s) ]

-- The entries that the kernel has posted and the process has not read, oldest first.
unfoldable pub available : CompletionQueue → List CompletionEntry
unfolding cqe_at
available q = window (cqe_at q) q.local_head (wrapping_sub q.k_tail q.local_head)
