-- ===== src/Ring/Completion/Kernel.antt =====
-- The completion ring between the kernel and the process, in any order of their steps.
use rust_io_uring.Prelude.{
  ℕ, suc, ◌-◌, ◌%◌, ◌^◌, ◌≤◌, ◌<◌, ◌≡◌, ◌≢◌, refl, sym, ap, ap₂, ◌∙◌, arith, List, [], ◌∷◌, ◌++◌,
  length, Option, none, some, wrapping_add, wrapping_sub, set, get_or, get_or-set_self,
  get_or-set_ne, length-set, bit_and, bit_and_mask,
}
use mathlib.Core.List.{append_assoc}
use native.Mathlib.Nat.{mod-lt, one-le-pow, pow-le-pow_right}
use rust_io_uring.Sys.Entry.{CompletionEntry, default_completion}
use rust_io_uring.Ring.Slots.{slot_ne}
use rust_io_uring.Ring.Window.{window, window_congr, window_snoc}
use rust_io_uring.Ring.Completion.{CompletionQueue, flush_head, next, cqe_at, available}
use rust_io_uring.Ring.Completion.Valid.{IsValid, cqe_at-slot}
use rust_io_uring.Ring.Completion.Next.{uncons, next_refines}
use rust_io_uring.Ring.Completion.Drain.{flush_head-IsValid, available-flush_head}

-- The kernel writes an entry at its tail and moves the tail on, or counts one that has no room.
abbrev pub posted : CompletionEntry → CompletionQueue → CompletionQueue
posted c q = record q {
  k_cqes = set q.k_cqes (bit_and q.k_tail q.ring_mask) c;
  k_tail = wrapping_add q.k_tail 1;
}

abbrev pub overflowed : CompletionQueue → CompletionQueue
overflowed q = record q { k_overflow = wrapping_add q.k_overflow 1 }

pub record System : Type 0 where
  pub queue : CompletionQueue
  pub sent : List CompletionEntry
  pub received : List CompletionEntry

abbrev pub read_by : Option CompletionEntry → List CompletionEntry
read_by none = []
read_by (some c) = c ∷ []

-- The kernel has room while the head that the process has published is less than the ring's size
-- behind its tail.
pub data Step (s : System) : System → Type 0 where
  post :
      (c : CompletionEntry)
      → wrapping_sub s.queue.k_tail s.queue.k_head < length s.queue.k_cqes
      → Step s (record s { queue = posted c s.queue; sent = s.sent ++ c ∷ [] })
  lose : Step s (record s { queue = overflowed s.queue })
  read :
      Step s
        (record s { queue = (next s.queue).0; received = s.received ++ read_by (next s.queue).1 })
  flush : Step s (record s { queue = flush_head s.queue })

pub data Reach (q : CompletionQueue) : System → Type 0 where
  start : Reach q (record { queue = q; sent = []; received = [] })
  later : {s t : System} → Reach q s → Step s t → Reach q t

module _ {k : ℕ} {q : CompletionQueue} (v : IsValid k q) (c : CompletionEntry)
    (room : wrapping_sub q.k_tail q.k_head < length q.k_cqes) where
  size_lt : 2 ^ k ≤ 2 ^ 31
  size_lt = pow-le-pow_right (omega arith) v.small

  pub posted-IsValid : IsValid k (posted c q)
  posted-IsValid = record {
    small = v.small;
    mask = v.mask;
    slots = length-set q.k_cqes (bit_and q.k_tail q.ring_mask) c ∙ v.slots;
    k_head_word = v.k_head_word;
    local_head_word = v.local_head_word;
    k_tail_word = omega arith;
    cached_tail_word = v.cached_tail_word;
    bounded = omega (arith, size_lt, v.slots, v.k_tail_word, v.k_head_word);
    unread =
        omega (arith, size_lt, v.slots, v.unread, v.k_tail_word, v.k_head_word, v.local_head_word);
    stale = omega (
      arith, size_lt, v.slots, v.unread, v.stale, v.k_tail_word, v.k_head_word, v.local_head_word,
      v.cached_tail_word,
    );
  }

  tail_slot : bit_and q.k_tail q.ring_mask ≡ q.k_tail % 2 ^ k
  tail_slot = rw v.mask (bit_and_mask k q.k_tail)

  cqe_at-posted_self : cqe_at (posted c q) q.k_tail ≡ c
  cqe_at-posted_self =
      cqe_at-slot posted-IsValid q.k_tail
      ∙ ap (λ (i : ℕ). get_or (set q.k_cqes i c) (q.k_tail % 2 ^ k) default_completion) tail_slot
      ∙ get_or-set_self q.k_cqes (q.k_tail % 2 ^ k) c default_completion
          (omega (arith, mod-lt q.k_tail (one-le-pow k 2 (omega arith)), v.slots))

  cqe_at-posted_ne : (p : ℕ) → q.k_tail % 2 ^ k ≢ p % 2 ^ k → cqe_at (posted c q) p ≡ cqe_at q p
  cqe_at-posted_ne p ne =
      cqe_at-slot posted-IsValid p
      ∙ ap (λ (i : ℕ). get_or (set q.k_cqes i c) (p % 2 ^ k) default_completion) tail_slot
      ∙ get_or-set_ne q.k_cqes (q.k_tail % 2 ^ k) (p % 2 ^ k) c default_completion ne
      ∙ sym (cqe_at-slot v p)

  -- A post overwrites no entry that the process has not read.
  window-posted :
      window (cqe_at (posted c q)) q.local_head (wrapping_sub q.k_tail q.local_head) ≡ available q
  unfolding available
  window-posted =
      window_congr (cqe_at (posted c q)) (cqe_at q) q.local_head
        (wrapping_sub q.k_tail q.local_head)
        (λ i lt. cqe_at-posted_ne (wrapping_add q.local_head i) (apart i lt)) v.local_head_word
    where
      meet :
          (i : ℕ)
          → i < wrapping_sub q.k_tail q.local_head
          → wrapping_add (wrapping_add q.local_head i) (wrapping_sub q.k_tail q.local_head - i)
            ≡ q.k_tail
      meet i lt = omega (arith, v.local_head_word, v.k_tail_word)

      apart :
          (i : ℕ)
          → i < wrapping_sub q.k_tail q.local_head
          → q.k_tail % 2 ^ k ≢ wrapping_add q.local_head i % 2 ^ k
      apart i lt e =
          slot_ne k (wrapping_add q.local_head i) (wrapping_sub q.k_tail q.local_head - i)
            (omega (arith, v.small)) (omega arith) (omega (arith, v.unread, v.slots))
            (ap (λ (t : ℕ). t % 2 ^ k) (meet i lt) ∙ e)

  pub available-posted : available (posted c q) ≡ available q ++ c ∷ []
  unfolding available
  available-posted =
      ap (window (cqe_at (posted c q)) q.local_head) one_more
      ∙ window_snoc (cqe_at (posted c q)) q.local_head (wrapping_sub q.k_tail q.local_head)
          v.local_head_word
      ∙ ap₂ ◌++◌ window-posted
          (ap (λ e. e ∷ []) (ap (cqe_at (posted c q)) at_tail ∙ cqe_at-posted_self))
    where
      one_more :
          wrapping_sub (wrapping_add q.k_tail 1) q.local_head
          ≡ suc (wrapping_sub q.k_tail q.local_head)
      one_more = omega (arith, size_lt, v.slots, v.unread, v.k_tail_word, v.local_head_word)

      at_tail : wrapping_add q.local_head (wrapping_sub q.k_tail q.local_head) ≡ q.k_tail
      at_tail = omega (arith, v.k_tail_word, v.local_head_word)

-- The completions read, then those unread, are those posted.
record Inv (k : ℕ) (s : System) : Type 0 where
  valid : IsValid k s.queue
  history : s.received ++ available s.queue ≡ s.sent

pub overflowed-IsValid : {k : ℕ} {q : CompletionQueue} → IsValid k q → IsValid k (overflowed q)
overflowed-IsValid v = record {
  small = v.small;
  mask = v.mask;
  slots = v.slots;
  k_head_word = v.k_head_word;
  local_head_word = v.local_head_word;
  k_tail_word = v.k_tail_word;
  cached_tail_word = v.cached_tail_word;
  bounded = v.bounded;
  unread = v.unread;
  stale = v.stale;
}

pub available-overflowed : (q : CompletionQueue) → available (overflowed q) ≡ available q
unfolding available
available-overflowed q = refl

uncons-read_by : (l : List CompletionEntry) → read_by (uncons l).1 ++ (uncons l).0 ≡ l
unfolding uncons
uncons-read_by [] = refl
uncons-read_by (c ∷ l) = refl

available-next :
    {k : ℕ} (q : CompletionQueue)
    → IsValid k q
    → read_by (next q).1 ++ available (next q).0 ≡ available q
available-next q v =
    ap (λ r. read_by r.1 ++ r.0) (next_refines q v).0 ∙ uncons-read_by (available q)

Step-Inv : {k : ℕ} {s t : System} → Step s t → Inv k s → Inv k t
Step-Inv {s} (post c room) inv = record {
  valid = posted-IsValid inv.valid c room;
  history =
      ap (λ l. s.received ++ l) (available-posted inv.valid c room)
      ∙ sym (append_assoc s.received (available s.queue) (c ∷ []))
      ∙ ap (λ l. l ++ c ∷ []) inv.history;
}
Step-Inv {s} lose inv = record {
  valid = overflowed-IsValid inv.valid;
  history = ap (λ l. s.received ++ l) (available-overflowed s.queue) ∙ inv.history;
}
Step-Inv {s} read inv = record {
  valid = (next_refines s.queue inv.valid).1;
  history =
      append_assoc s.received (read_by (next s.queue).1) (available (next s.queue).0)
      ∙ ap (λ l. s.received ++ l) (available-next s.queue inv.valid)
      ∙ inv.history;
}
Step-Inv {s} flush inv = record {
  valid = flush_head-IsValid inv.valid;
  history = ap (λ l. s.received ++ l) (available-flush_head s.queue) ∙ inv.history;
}

Reach-Inv :
    {k : ℕ} {q : CompletionQueue} {s : System}
    → IsValid k q
    → available q ≡ []
    → Reach q s
    → Inv k s
Reach-Inv v nothing start = record { valid = v; history = nothing }
Reach-Inv v nothing (later r st) = Step-Inv st (Reach-Inv v nothing r)

-- However the kernel's posts and the process's reads and flushes follow one another, from an empty
-- ring on: what the process has read, and then what is still unread, is what the kernel has posted,
-- in order; no post overwrites an unread completion, and the invariant holds.
pub completion_fifo :
    {k : ℕ} {q : CompletionQueue} {s : System}
    → IsValid k q
    → available q ≡ []
    → Reach q s
    → (s.received ++ available s.queue ≡ s.sent) × IsValid k s.queue
completion_fifo v nothing r = (history, valid)
  where
    open (Reach-Inv v nothing r) use {history, valid}
