-- ===== src/Ring/Completion/Drain.antt =====
-- The loop over the completions, and the flush behind it.
use rust_io_uring.Prelude.{
  ℕ, zero, suc, ◌<◌, ◌≡◌, refl, sym, ap, ◌∙◌, arith, List, [], ◌∷◌, length, Option, none, some,
}
use rust_io_uring.Sys.Entry.{CompletionEntry}
use rust_io_uring.Ring.Completion.{CompletionQueue, flush_head, next, for_each, available}
use rust_io_uring.Ring.Completion.Valid.{IsValid, length-available}
use rust_io_uring.Ring.Completion.Next.{uncons, next-Read}

pub flush_head-IsValid : {k : ℕ} {q : CompletionQueue} → IsValid k q → IsValid k (flush_head q)
unfolding flush_head
flush_head-IsValid v = record {
  small = v.small;
  mask = v.mask;
  slots = v.slots;
  k_head_word = v.local_head_word;
  local_head_word = v.local_head_word;
  k_tail_word = v.k_tail_word;
  cached_tail_word = v.cached_tail_word;
  bounded = omega (arith, v.bounded, v.unread);
  unread = omega arith;
  stale = v.stale;
}

pub available-flush_head : (q : CompletionQueue) → available (flush_head q) ≡ available q
unfolding flush_head available
available-flush_head q = refl

-- The body run over a list of completions, first to last.
unfoldable pub run_all {ℓ} : {S : Type ℓ} → (CompletionEntry → S → S) → List CompletionEntry → S → S
run_all body [] s = s
run_all body (c ∷ cs) s = run_all body cs (body c s)

module _ {ℓ} {S : Type ℓ} (body : CompletionEntry → S → S) where
  -- What a finished loop leaves, where `cs` were the unread completions.
  abbrev pub Drained : ℕ → List CompletionEntry → S → Option (CompletionQueue × S) → Type ℓ
  Drained k cs s r =
      (q' : CompletionQueue) × (r ≡ some (q', run_all body cs s))
      × IsValid k q'
      × (available q' ≡ [])
      × (q'.k_head ≡ q'.k_tail)

  for_each_stop :
      (fuel : ℕ) (q : CompletionQueue) (s : S)
      → (next q).1 ≡ none
      → for_each (suc fuel) body q s ≡ some (flush_head (next q).0, s)
  unfolding for_each
  for_each_stop fuel q s e = rw (e, for_each)

  for_each_step :
      (fuel : ℕ) (q : CompletionQueue) (s : S) (c : CompletionEntry)
      → (next q).1 ≡ some c
      → for_each (suc fuel) body q s ≡ for_each fuel body (next q).0 (body c s)
  unfolding for_each
  for_each_step fuel q s c e = rw (e, for_each)

  flushed :
      {k : ℕ} (q : CompletionQueue) (s : S)
      → IsValid k q
      → available q ≡ []
      → Drained k [] s (some (flush_head q, s))
  unfolding run_all flush_head
  flushed q s v e = (
    flush_head q,
    refl,
    flush_head-IsValid v,
    available-flush_head q ∙ e,
    omega (arith, v.local_head_word, v.k_tail_word, sym (length-available q) ∙ ap length e),
  )

  loop :
      {k : ℕ} (fuel : ℕ) (q : CompletionQueue) (s : S) (cs : List CompletionEntry)
      → IsValid k q
      → available q ≡ cs
      → length cs < fuel
      → Drained k cs s (for_each fuel body q s)
  unfolding run_all uncons
  loop zero q s cs v e lt = absurd (omega arith)
  loop {k} (suc fuel) q s [] v e lt =
      let r = next-Read q v in
      let nothing : (available (next q).0, (next q).1) ≡ ([], none) = r.refines ∙ ap uncons e in
      let stop : (next q).1 ≡ none = ap (λ p. p.1) nothing in
      rw (for_each_stop fuel q s stop) (flushed (next q).0 s r.valid (ap (λ p. p.0) nothing))
  loop {k} (suc fuel) q s (c ∷ cs) v e lt =
      let r = next-Read q v in
      let first : (available (next q).0, (next q).1) ≡ (cs, some c) = r.refines ∙ ap uncons e in
      let more : (next q).1 ≡ some c = ap (λ p. p.1) first in
      let left : available (next q).0 ≡ cs = ap (λ p. p.0) first in
      let shorter : length cs < fuel = omega arith in
      rw (for_each_step fuel q s c more)
        (loop {k = k} fuel (next q).0 (body c s) cs r.valid left shorter)

  -- With fuel for more rounds than there are unread completions the loop ends. It has run its body
  -- over exactly those, oldest first, and has told the kernel: the ring is empty, its published head
  -- at the tail, and still valid.
  pub for_each_drains :
      {k : ℕ} (fuel : ℕ) (q : CompletionQueue) (s : S)
      → IsValid k q
      → length (available q) < fuel
      → Drained k (available q) s (for_each fuel body q s)
  for_each_drains fuel q s v lt = loop fuel q s (available q) v refl lt
