-- ===== src/Ring/Submission/Full.antt =====
-- The test for a full ring, which works on a stale copy of the kernel's head.
use rust_io_uring.Prelude.{
  ℕ, ◌-◌, ◌^◌, ◌≤◌, ◌<◌, ◌≡◌, ◌↔◌, inl, inr, refl, arith, Bool, true, false, not, ◌&&◌, ◌==◌,
  u32_mod, wrapping_sub, length, Bool-cases,
}
use native.Mathlib.Nat.{one-le-pow}
use rust_io_uring.Ring.Slots.{same_entry, same_entry_iff}
use rust_io_uring.Ring.Submission.{SubmissionQueue, is_full, pending, visible}
use rust_io_uring.Ring.Submission.Valid.{IsValid, length-pending}

-- Not empty and at the same entry: as far apart as the ring has slots.
pub full_test :
    (k h t : ℕ)
    → k ≤ 31
    → h < u32_mod
    → t < u32_mod
    → wrapping_sub t h ≤ 2 ^ k
    → ((not (h == t) && same_entry h t (2 ^ k - 1)) ≡ true) ↔ (wrapping_sub t h ≡ 2 ^ k)
full_test k h t small hh ht bound =
    ground (arith, same_entry_iff k h t small hh ht bound, one-le-pow k 2 (omega arith))

abbrev test : SubmissionQueue → ℕ → Bool
test q h = not (h == q.local_tail) && same_entry h q.local_tail q.ring_mask

is_full_keep : (q : SubmissionQueue) → test q q.cached_head ≡ false → is_full q ≡ (q, false)
unfolding is_full
is_full_keep q e = ground arith

is_full_refresh :
    (q : SubmissionQueue)
    → test q q.cached_head ≡ true
    → is_full q ≡ (record q { cached_head = q.k_head }, test q q.k_head)
unfolding is_full
is_full_refresh q e = ground arith

-- What a refreshed copy of the head leaves as it is.
pub refresh-IsValid :
    {k : ℕ} {q : SubmissionQueue} → IsValid k q → IsValid k (record q { cached_head = q.k_head })
refresh-IsValid v = record {
  small = v.small;
  mask = v.mask;
  slots = v.slots;
  identity = v.identity;
  k_head_word = v.k_head_word;
  cached_head_word = v.k_head_word;
  k_tail_word = v.k_tail_word;
  local_tail_word = v.local_tail_word;
  bounded = omega (arith, v.bounded, v.stale);
  stale = omega arith;
  published = v.published;
}

pub record Tested (k : ℕ) (q : SubmissionQueue) (r : SubmissionQueue × Bool) : Type 0 where
  pub exact : (r.1 ≡ true) ↔ (length (pending q) ≡ 2 ^ k)
  pub room : r.1 ≡ false → wrapping_sub r.0.local_tail r.0.cached_head < 2 ^ k
  pub tail_kept : r.0.local_tail ≡ q.local_tail
  pub valid : IsValid k r.0
  pub pending_kept : pending r.0 ≡ pending q
  pub visible_kept : visible r.0 ≡ visible q

test_iff :
    {k : ℕ} (q : SubmissionQueue) (h : ℕ)
    → IsValid k q
    → h < u32_mod
    → wrapping_sub q.local_tail h ≤ 2 ^ k
    → (test q h ≡ true) ↔ (wrapping_sub q.local_tail h ≡ 2 ^ k)
test_iff {k} q h v word bound =
    rw v.mask (full_test k h q.local_tail v.small word v.local_tail_word bound)

pub is_full-Tested : {k : ℕ} (q : SubmissionQueue) → IsValid k q → Tested k q (is_full q)
unfolding pending visible
is_full-Tested {k} q v = elim (Bool-cases (test q q.cached_head)) [
  | inl full ↦ rw (is_full_refresh q full) (record {
    exact =
        rw (length-pending q)
          (test_iff q q.k_head v v.k_head_word (omega (arith, v.bounded, v.stale)));
    room = λ e. ground (arith, test_iff q q.k_head v v.k_head_word, v.bounded, v.stale);
    tail_kept = refl;
    valid = refresh-IsValid v;
    pending_kept = refl;
    visible_kept = refl;
  })
  | inr room ↦ rw (is_full_keep q room) (record {
    exact = (
      λ e. cc,
      λ e. ground (
        arith,
        length-pending q,
        test_iff q q.cached_head v v.cached_head_word v.bounded,
        v.bounded,
        v.stale,
      ),
    );
    room = λ e. ground (arith, test_iff q q.cached_head v v.cached_head_word v.bounded, v.bounded);
    tail_kept = refl;
    valid = v;
    pending_kept = refl;
    visible_kept = refl;
  })
]

-- Although `is_full` mostly looks at an old copy of the kernel's head, it says that the ring is full
-- exactly when as many entries as the ring has slots wait for the kernel. The test keeps the
-- invariant and changes neither the waiting entries nor those that the kernel sees.
pub is_full_iff :
    {k : ℕ} (q : SubmissionQueue)
    → IsValid k q
    → (((is_full q).1 ≡ true) ↔ (length (pending q) ≡ 2 ^ k))
      × IsValid k (is_full q).0
      × (pending (is_full q).0 ≡ pending q)
      × (visible (is_full q).0 ≡ visible q)
is_full_iff q v = (exact, valid, pending_kept, visible_kept)
  where
    open (is_full-Tested q v) use {exact, valid, pending_kept, visible_kept}
