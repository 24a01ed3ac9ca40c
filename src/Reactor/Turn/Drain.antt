-- ===== src/Reactor/Turn/Drain.antt =====
-- `check_completions` handles every completion that is there.
use rust_io_uring.Prelude.{
  ℕ, ◌<◌, ◌≡◌, refl, ◌∙◌, ap, Bool, true, false, List, [], ◌∷◌, length, returned,
}
use rust_io_uring.Sys.Entry.{CompletionEntry}
use rust_io_uring.Ring.Completion.{CompletionQueue, available}
use rust_io_uring.Ring.Completion.Valid
use rust_io_uring.Ring.Completion.Drain.{run_all, for_each_drains}
use rust_io_uring.Reactor.Registration.{UringResult}
use rust_io_uring.Reactor.State.{CompletionState, handle_completion}
use rust_io_uring.Reactor.State.InFlight.{InFlight, Inv, Completes}
use rust_io_uring.Reactor.State.Complete.{completion_safe}
use rust_io_uring.Reactor.Queue.{Inner}
use rust_io_uring.Reactor.Turn.{handle_entry, check_completions}

-- Completions that may come one after another.
pub data CompletesAll : InFlight → List CompletionEntry → InFlight → Type 0 where
  done : {f : InFlight} → CompletesAll f [] f
  first :
      {f g h : InFlight} {c : CompletionEntry} {cs : List CompletionEntry}
      → Completes f c.user_data g
      → CompletesAll g cs h
      → CompletesAll f (c ∷ cs) h

abbrev pub nonempty : List CompletionEntry → Bool
nonempty [] = false
nonempty (_ ∷ _) = true

abbrev seen : Bool → List CompletionEntry → Bool
seen b [] = b
seen b (_ ∷ _) = true

seen-true : (cs : List CompletionEntry) → seen true cs ≡ true
seen-true [] = refl
seen-true (c ∷ cs) = refl

seen-false : (cs : List CompletionEntry) → seen false cs ≡ nonempty cs
seen-false [] = refl
seen-false (c ∷ cs) = refl

-- What holds of every completion of a list.
abbrev pub Each : (ℕ → UringResult → Type 0) → List CompletionEntry → Type 0
Each Q [] = Unit
Each Q (c ∷ cs) = Q c.user_data (record { result = c.res; flags = c.flags }) × Each Q cs

Each-any : (cs : List CompletionEntry) → Each (λ u r. Unit) cs
Each-any [] = tt
Each-any (c ∷ cs) = (tt, Each-any cs)

module _ {D : Type 0} (checks : Bool) where
  -- What every completion that may come preserves.
  abbrev pub Keeps : (CompletionState D → InFlight → Type 0) → Type 0
  Keeps P =
      (s : CompletionState D) (f g : InFlight) (u : ℕ) (r : UringResult)
      → Completes f u g
      → P s f
      → (t : CompletionState D) × (handle_completion checks u r s ≡ returned t) × P t g

  -- What every such completion that is one of `Q` preserves.
  abbrev pub KeepsAmong :
      (ℕ → UringResult → Type 0) → (CompletionState D → InFlight → Type 0) → Type 0
  KeepsAmong Q P =
      (s : CompletionState D) (f g : InFlight) (u : ℕ) (r : UringResult)
      → Q u r
      → Completes f u g
      → P s f
      → (t : CompletionState D) × (handle_completion checks u r s ≡ returned t) × P t g

  module _ (Q : ℕ → UringResult → Type 0) (P : CompletionState D → InFlight → Type 0)
      (keep : KeepsAmong Q P) where
    handled :
        {f g : InFlight} {cs : List CompletionEntry} (s : CompletionState D) (received : Bool)
        → Each Q cs
        → CompletesAll f cs g
        → P s f
        → (t : CompletionState D) × (run_all (handle_entry checks) cs (received, returned s)
            ≡ (seen received cs, returned t))
          × P t g
    unfolding run_all handle_entry
    handled s received all done v = (s, refl, v)
    handled s received all (first {f = f} {g = g} {c = c} {cs = cs} x xs) v =
        let (t, e, w) =
          keep s f g c.user_data (record { result = c.res; flags = c.flags }) all.0 x v in
        let (t', e', w') = handled t true all.1 xs w in
        rw (e) (t', e' ∙ ap (λ b. (b, returned t')) (seen-true cs), w')

    -- The outcome of `check_completions`, for any such property.
    pub drain_among :
        {f g : InFlight} {k : ℕ} (fuel : ℕ) (i : Inner D)
        → Valid.IsValid k i.cq
        → P i.completion_state f
        → Each Q (available i.cq)
        → CompletesAll f (available i.cq) g
        → length (available i.cq) < fuel
        → (q : CompletionQueue) × (t : CompletionState D) × (check_completions checks fuel i
            ≡ returned (record i { cq = q; completion_state = t }, nonempty (available i.cq)))
          × Valid.IsValid k q
          × (available q ≡ [])
          × P t g
    unfolding check_completions
    drain_among {k = k} fuel i ring v all x lt =
        let (q, e, valid, empty, published) =
          for_each_drains (handle_entry checks) {k = k} fuel i.cq
            (false, returned i.completion_state) ring lt in
        let (t, h, w) = handled i.completion_state false all x v in
        (q, t, rw (e, h, seen-false (available i.cq), check_completions) refl, valid, empty, w)

  pub drain_lem :
      (P : CompletionState D → InFlight → Type 0)
      → Keeps P
      → {f g : InFlight} {k : ℕ} (fuel : ℕ) (i : Inner D) → Valid.IsValid k i.cq
      → P i.completion_state f
      → CompletesAll f (available i.cq) g
      → length (available i.cq) < fuel
      → (q : CompletionQueue) × (t : CompletionState D) × (check_completions checks fuel i
          ≡ returned (record i { cq = q; completion_state = t }, nonempty (available i.cq)))
        × Valid.IsValid k q
        × (available q ≡ [])
        × P t g
  drain_lem P keep {k = k} fuel i ring v x lt =
      drain_among (λ u r. Unit) P (λ s f g u r _ x v. keep s f g u r x v) {k = k} fuel i ring v
        (Each-any (available i.cq)) x lt

  -- What `check_completions` leaves of a ring of 2 ^ k slots.
  pub record Checked (k : ℕ) (i j : Inner D) (g : InFlight) : Type 0 where
    pub valid : Valid.IsValid k j.cq
    pub drained : available j.cq ≡ []
    pub inv : Inv j.completion_state g
    pub sq : j.sq ≡ i.sq

  -- Where the unread completions may come in their order, with fuel for more rounds than there are,
  -- `check_completions` returns and tells whether there was one. Every completion has been handled,
  -- the ring is empty, and what is still in flight is what the reactor counts.
  pub check_completions_lem :
      {f g : InFlight} {k : ℕ} (fuel : ℕ) (i : Inner D)
      → Valid.IsValid k i.cq
      → Inv i.completion_state f
      → CompletesAll f (available i.cq) g
      → length (available i.cq) < fuel
      → (j : Inner D) × (check_completions checks fuel i ≡ returned (j, nonempty (available i.cq)))
        × Checked k i j g
  check_completions_lem {k = k} fuel i ring v x lt =
      let (q, t, e, valid, empty, w) =
        drain_lem Inv (λ s f g u r c p. completion_safe checks r s f p u g c) {k = k} fuel i ring v
          x lt in
      (
        record i { cq = q; completion_state = t },
        e,
        record { valid = valid; drained = empty; inv = w; sq = refl },
      )
