-- ===== src/Reactor/World/Cells.antt =====
-- What a poll or a drop of a future does to its cell.
use rust_io_uring.Prelude.{
  ℕ, ◌≤◌, ◌≡◌, ◌⊎◌, inl, inr, refl, sym, ◌∙◌, ap, subst, Bool, true, false, List, [], ◌∷◌, Option,
  none, some, returned, count, count_self, count_other, arith, ℕ_discrete, Result,
}
use mathlib.Core.Bool.{false≢true}
use rust_io_uring.Reactor.Registration.{
  CompatWaker, UringResult, Shared, Async, ready, not_ready, drop_raw, track,
}
use rust_io_uring.Reactor.Registration
use rust_io_uring.Reactor.State.{store, release}
use rust_io_uring.Reactor.State.InFlight.{InProgress, NotIn, Live, store_same, store_other}
use rust_io_uring.Reactor.Transfer.{
  Context, TransferError, pending_at, closed, outcome, settle, poll,
}

abbrev cell_or : {D : Type 0} → Shared D → Option (Shared D) → Shared D
cell_or d none = d
cell_or d (some c) = c

pub some_injective : {D : Type 0} (c c' : Shared D) → some c ≡ some c' → c ≡ c'
some_injective c c' e = ap (cell_or c) e

pub NotIn-count : (u : ℕ) (us : List ℕ) → NotIn u us → count u us ≡ 0
NotIn-count u [] n = refl
NotIn-count u (x ∷ us) n = omega (arith, count_other x u (λ e. n.0 (sym e)), NotIn-count u us n.1)

pub count-NotIn : (u : ℕ) (us : List ℕ) → count u us ≡ 0 → NotIn u us
count-NotIn u [] e = tt
count-NotIn u (x ∷ us) e = (
  (λ s. omega (arith, subst (λ y. count u (y ∷ us) ≡ 0) (sym s) e, count_self u)),
  count-NotIn u us (omega (arith, e)),
)

module _ {D : Type 0} (h : ℕ → Option (Shared D)) (a : ℕ) (c : Shared D) (at : h a ≡ some c) where
  same_cell : (p : InProgress h a) → p.cell ≡ c
  same_cell p = some_injective p.cell c (sym p.at ∙ at)

  -- A cell that is finished is of no operation in flight.
  pub finished-NotIn : (ops : List ℕ) → c.inner.finished ≡ true → Live h ops → NotIn a ops
  finished-NotIn [] e l = tt
  finished-NotIn (u ∷ us) e l = (
    (λ s.
        let p : InProgress h a = subst (InProgress h) (sym s) l.0 in
        false≢true (sym p.unfinished ∙ ap (λ (x : Shared D). x.inner.finished) (same_cell p) ∙ e)),
    finished-NotIn us e l.2,
  )

  -- What a change at `a` must leave there if an operation in flight needs it.
  abbrev pub StillThere : Option (Shared D) → Type 0
  StillThere o =
      (c' : Shared D) × (o ≡ some c') × (c'.inner.finished ≡ c.inner.finished) × (1 ≤ c'.strong)

  InProgress-update :
      (o : Option (Shared D)) (u : ℕ)
      → (a ≡ u → StillThere o)
      → InProgress h u
      → InProgress (store h a o) u
  InProgress-update o u still p = elim (ℕ_discrete a u) [
    | no n ↦ record {
      cell = p.cell;
      nonzero = p.nonzero;
      even = p.even;
      at = store_other h a u o n ∙ p.at;
      unfinished = p.unfinished;
      owned = p.owned;
    }
    | yes e ↦
        let (c', is, same, owned) = still e in
        let q : InProgress h a = subst (InProgress h) (sym e) p in
        record {
          cell = c';
          nonzero = p.nonzero;
          even = p.even;
          at = subst (λ x. store h a o x ≡ some c') e (store_same h a o ∙ is);
          unfinished =
              same ∙ sym (ap (λ (x : Shared D). x.inner.finished) (same_cell q)) ∙ q.unfinished;
          owned = owned;
        }
  ]

  pub Live-update :
      (o : Option (Shared D)) (ops : List ℕ)
      → (1 ≤ count a ops → StillThere o)
      → Live h ops
      → Live (store h a o) ops
  Live-update o [] still l = tt
  Live-update o (u ∷ us) still l = (
    InProgress-update o u
        (λ e. still (subst (λ x. 1 ≤ count a (x ∷ us)) e (omega (arith, count_self a)))) l.0,
    l.1,
    Live-update o us (λ n. still (omega arith)) l.2,
  )

module _ {T F : Type 0} (x : CompatWaker) (a : ℕ) (h : ℕ → Option (Shared (Context T F)))
    (c : Shared (Context T F)) (at : h a ≡ some c) where
  -- The two outcomes of a poll of a future whose cell is alive.
  unfoldable pub Again : Type 0
  Again =
      (c' : Shared (Context T F)) × (poll x (pending_at a) h
        ≡ returned (pending_at a, store h a (some c'), not_ready))
      × (c'.strong ≡ c.strong)
      × (c'.inner.finished ≡ c.inner.finished)
      × (c'.inner.payload ≡ c.inner.payload)

  unfoldable pub Finished : Type 0
  Finished =
      (c' : Shared (Context T F)) × (o : Result (TransferError T F) (ℕ × T × F)) × (poll x
          (pending_at a) h
        ≡ returned (closed, store h a (release c'), ready o))
      × (c'.strong ≡ c.strong)
      × (c'.inner.finished ≡ true)
      × (c.inner.finished ≡ true)

  poll_go :
      (p : Option (Context T F)) (b : Bool)
      → c.inner.payload ≡ p
      → c.inner.finished ≡ b
      → Again ⊎ Finished
  unfolding Again Finished poll Registration.poll track settle
  poll_go none b e f = inl (c, rw (at, e, poll) refl, refl, refl, refl)
  poll_go (some d) false e f =
      inl (record c { inner = track x c.inner }, rw (at, e, f, poll) refl, refl, refl, refl)
  poll_go (some d) true e f = inr (
    record c { inner = record c.inner { payload = none } },
    outcome c.inner.result.result d,
    rw (at, e, f, poll) refl,
    refl,
    f,
    f,
  )

  pub poll_cases : Again ⊎ Finished
  poll_cases = poll_go c.inner.payload c.inner.finished refl refl
