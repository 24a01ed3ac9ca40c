-- ===== src/Ring/Submission/Valid.antt =====
-- The invariant of the submission ring: going round, `cached_head`, `k_head`, `k_tail` and
-- `local_tail` stand in this order, within one ring's size.
use rust_io_uring.Prelude.{
  ℕ, ◌-◌, ◌%◌, ◌^◌, ◌≤◌, ◌<◌, ◌≡◌, arith, u32_mod, wrapping_sub, length, get_or, bit_and_mask,
}
use native.Mathlib.Nat.{mod-lt, one-le-pow}
use rust_io_uring.Ring.Window.{length-window}
use rust_io_uring.Sys.Entry.{zeroed}
use rust_io_uring.Ring.Submission.{SubmissionQueue, entry_at, pending, visible}

pub record IsValid (k : ℕ) (q : SubmissionQueue) : Type 0 where
  pub small : k ≤ 31
  pub mask : q.ring_mask ≡ 2 ^ k - 1
  pub slots : length q.sces ≡ 2 ^ k
  pub identity : (i : ℕ) → i < 2 ^ k → get_or q.k_array i 0 ≡ i
  pub k_head_word : q.k_head < u32_mod
  pub cached_head_word : q.cached_head < u32_mod
  pub k_tail_word : q.k_tail < u32_mod
  pub local_tail_word : q.local_tail < u32_mod
  pub bounded : wrapping_sub q.local_tail q.cached_head ≤ 2 ^ k
  pub stale : wrapping_sub q.local_tail q.k_head ≤ wrapping_sub q.local_tail q.cached_head
  pub published : wrapping_sub q.local_tail q.k_tail ≤ wrapping_sub q.local_tail q.k_head

-- Through the identity array the kernel reads the slot of the position.
pub entry_at-slot :
    {k : ℕ} {q : SubmissionQueue}
    → IsValid k q
    → (p : ℕ) → entry_at q p ≡ get_or q.sces (p % 2 ^ k) zeroed
unfolding entry_at
entry_at-slot {k} {q} v p =
    rw (v.mask, bit_and_mask k p, v.identity (p % 2 ^ k) (mod-lt p (one-le-pow k 2 (omega arith))))

pub length-pending : (q : SubmissionQueue) → length (pending q) ≡ wrapping_sub q.local_tail q.k_head
unfolding pending
length-pending q = length-window (entry_at q) q.k_head (wrapping_sub q.local_tail q.k_head)

pub length-visible : (q : SubmissionQueue) → length (visible q) ≡ wrapping_sub q.k_tail q.k_head
unfolding visible
length-visible q = length-window (entry_at q) q.k_head (wrapping_sub q.k_tail q.k_head)
