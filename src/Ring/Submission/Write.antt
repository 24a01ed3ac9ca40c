-- ===== src/Ring/Submission/Write.antt =====
-- An entry written at the tail of the submission ring: what the kernel will find, and what it does
-- not see.
use rust_io_uring.Prelude.{
  ℕ, suc, ◌-◌, ◌%◌, ◌^◌, ◌≤◌, ◌<◌, ◌≡◌, ◌≢◌, sym, ap, ap₂, ◌∙◌, arith, wrapping_add, wrapping_sub,
  ◌∷◌, [], ◌++◌, set, get_or, get_or-set_self, get_or-set_ne, length-set, bit_and_mask, bit_and,
}
use native.Mathlib.Nat.{mod-lt, one-le-pow, pow-le-pow_right}
use rust_io_uring.Sys.Entry.{SubmissionEntry, zeroed}
use rust_io_uring.Ring.Slots.{slot_ne}
use rust_io_uring.Ring.Window.{window, window_congr, window_snoc}
use rust_io_uring.Ring.Submission.{SubmissionQueue, entry_at, pending, visible}
use rust_io_uring.Ring.Submission.Valid.{IsValid, entry_at-slot}

-- The queue with `entry` written at the slot of its tail.
abbrev pub written : SubmissionQueue → SubmissionEntry → SubmissionQueue
written q entry = record q { sces = set q.sces (bit_and q.local_tail q.ring_mask) entry }

pub written-IsValid :
    {k : ℕ} {q : SubmissionQueue} (entry : SubmissionEntry)
    → IsValid k q
    → IsValid k (written q entry)
written-IsValid {q} entry v = record {
  small = v.small;
  mask = v.mask;
  slots = length-set q.sces (bit_and q.local_tail q.ring_mask) entry ∙ v.slots;
  identity = v.identity;
  k_head_word = v.k_head_word;
  cached_head_word = v.cached_head_word;
  k_tail_word = v.k_tail_word;
  local_tail_word = v.local_tail_word;
  bounded = v.bounded;
  stale = v.stale;
  published = v.published;
}

module _ {k : ℕ} {q : SubmissionQueue} (v : IsValid k q) (entry : SubmissionEntry) where
  slot_lt : (p : ℕ) → p % 2 ^ k < 2 ^ k
  slot_lt p = mod-lt p (one-le-pow k 2 (omega arith))

  tail_slot : bit_and q.local_tail q.ring_mask ≡ q.local_tail % 2 ^ k
  tail_slot = rw v.mask (bit_and_mask k q.local_tail)

  -- The kernel will find the new entry at the tail, and at every other slot what was there.
  entry_at-written_self : entry_at (written q entry) q.local_tail ≡ entry
  entry_at-written_self =
      entry_at-slot (written-IsValid entry v) q.local_tail
      ∙ ap (λ (i : ℕ). get_or (set q.sces i entry) (q.local_tail % 2 ^ k) zeroed) tail_slot
      ∙ get_or-set_self q.sces (q.local_tail % 2 ^ k) entry zeroed
          (omega (arith, slot_lt q.local_tail, v.slots))

  entry_at-written_ne :
      (p : ℕ) → q.local_tail % 2 ^ k ≢ p % 2 ^ k → entry_at (written q entry) p ≡ entry_at q p
  entry_at-written_ne p ne =
      entry_at-slot (written-IsValid entry v) p
      ∙ ap (λ (i : ℕ). get_or (set q.sces i entry) (p % 2 ^ k) zeroed) tail_slot
      ∙ get_or-set_ne q.sces (q.local_tail % 2 ^ k) (p % 2 ^ k) entry zeroed ne
      ∙ sym (entry_at-slot v p)

  -- While there is room, no entry that waits for the kernel is overwritten.
  window-written :
      (n : ℕ)
      → n ≤ wrapping_sub q.local_tail q.k_head
      → wrapping_sub q.local_tail q.k_head < 2 ^ k
      → window (entry_at (written q entry)) q.k_head n ≡ window (entry_at q) q.k_head n
  window-written n le room =
      window_congr (entry_at (written q entry)) (entry_at q) q.k_head n
        (λ i lt. entry_at-written_ne (wrapping_add q.k_head i) (apart i lt)) v.k_head_word
    where
      meet :
          (i : ℕ)
          → i < n
          → wrapping_add (wrapping_add q.k_head i) (wrapping_sub q.local_tail q.k_head - i)
            ≡ q.local_tail
      meet i lt = omega (arith, v.k_head_word, v.local_tail_word)

      apart : (i : ℕ) → i < n → q.local_tail % 2 ^ k ≢ wrapping_add q.k_head i % 2 ^ k
      apart i lt e =
          slot_ne k (wrapping_add q.k_head i) (wrapping_sub q.local_tail q.k_head - i)
            (omega (arith, v.small)) (omega arith) (omega arith)
            (ap (λ (t : ℕ). t % 2 ^ k) (meet i lt) ∙ e)

  -- The queue after the tail has moved over the new entry.
  abbrev extended : SubmissionQueue
  extended = record (written q entry) { local_tail = wrapping_add q.local_tail 1 }

  size_lt : 2 ^ k ≤ 2 ^ 31
  size_lt = pow-le-pow_right (omega arith) v.small

  pub extended-IsValid : wrapping_sub q.local_tail q.cached_head < 2 ^ k → IsValid k extended
  extended-IsValid room = record {
    small = v.small;
    mask = v.mask;
    slots = (written-IsValid entry v).slots;
    identity = v.identity;
    k_head_word = v.k_head_word;
    cached_head_word = v.cached_head_word;
    k_tail_word = v.k_tail_word;
    local_tail_word = omega arith;
    bounded = omega (arith, size_lt, v.stale, v.published, v.local_tail_word, v.cached_head_word);
    stale = omega (
      arith, size_lt, v.stale, v.published, v.local_tail_word, v.cached_head_word, v.k_head_word,
    );
    published = omega (
      arith, size_lt, v.stale, v.published, v.local_tail_word, v.cached_head_word, v.k_head_word,
      v.k_tail_word,
    );
  }

  pub pending-extended :
      wrapping_sub q.local_tail q.cached_head < 2 ^ k → pending extended ≡ pending q ++ entry ∷ []
  unfolding pending
  pending-extended room =
      ap (window (entry_at (written q entry)) q.k_head) one_more
      ∙ window_snoc (entry_at (written q entry)) q.k_head waiting v.k_head_word
      ∙ ap₂ ◌++◌ (window-written waiting (omega arith) (omega (arith, v.stale)))
          (ap (λ e. e ∷ []) (ap (entry_at (written q entry)) at_tail ∙ entry_at-written_self))
    where
      waiting : ℕ
      waiting = wrapping_sub q.local_tail q.k_head

      one_more : wrapping_sub (wrapping_add q.local_tail 1) q.k_head ≡ suc waiting
      one_more = omega (arith, size_lt, v.stale, v.local_tail_word, v.k_head_word)

      at_tail : wrapping_add q.k_head waiting ≡ q.local_tail
      at_tail = omega (arith, v.k_head_word, v.local_tail_word)

  pub visible-written :
      wrapping_sub q.local_tail q.cached_head < 2 ^ k → visible (written q entry) ≡ visible q
  unfolding visible
  visible-written room =
      window-written (wrapping_sub q.k_tail q.k_head)
        (omega (arith, v.published, v.k_tail_word, v.k_head_word, v.local_tail_word))
        (omega (arith, v.stale))

  pub visible-extended :
      wrapping_sub q.local_tail q.cached_head < 2 ^ k → visible extended ≡ visible q
  unfolding visible
  visible-extended room = visible-written room

  pub pending-written :
      wrapping_sub q.local_tail q.cached_head < 2 ^ k → pending (written q entry) ≡ pending q
  unfolding pending
  pending-written room =
      window-written (wrapping_sub q.local_tail q.k_head) (omega arith) (omega (arith, v.stale))
