-- ===== src/Ring/Completion/Valid.antt =====
-- The invariant of the completion ring: going round, `k_head`, `local_head`, `cached_tail` and
-- `k_tail` stand in this order, within one ring's size.
use rust_io_uring.Prelude.{
  ℕ, ◌-◌, ◌%◌, ◌^◌, ◌≤◌, ◌<◌, ◌≡◌, u32_mod, wrapping_sub, length, get_or, bit_and_mask,
}
use rust_io_uring.Ring.Window.{length-window}
use rust_io_uring.Sys.Entry.{default_completion}
use rust_io_uring.Ring.Completion.{CompletionQueue, cqe_at, available}

pub record IsValid (k : ℕ) (q : CompletionQueue) : Type 0 where
  pub small : k ≤ 31
  pub mask : q.ring_mask ≡ 2 ^ k - 1
  pub slots : length q.k_cqes ≡ 2 ^ k
  pub k_head_word : q.k_head < u32_mod
  pub local_head_word : q.local_head < u32_mod
  pub k_tail_word : q.k_tail < u32_mod
  pub cached_tail_word : q.cached_tail < u32_mod
  pub bounded : wrapping_sub q.k_tail q.k_head ≤ 2 ^ k
  pub unread : wrapping_sub q.k_tail q.local_head ≤ wrapping_sub q.k_tail q.k_head
  pub stale : wrapping_sub q.k_tail q.cached_tail ≤ wrapping_sub q.k_tail q.local_head

pub cqe_at-slot :
    {k : ℕ} {q : CompletionQueue}
    → IsValid k q
    → (p : ℕ) → cqe_at q p ≡ get_or q.k_cqes (p % 2 ^ k) default_completion
unfolding cqe_at
cqe_at-slot {k} {q} v p = rw (v.mask, bit_and_mask k p)

pub length-available :
    (q : CompletionQueue) → length (available q) ≡ wrapping_sub q.k_tail q.local_head
unfolding available
length-available q = length-window (cqe_at q) q.local_head (wrapping_sub q.k_tail q.local_head)
