-- ===== src/Reactor/World/Way.antt =====
-- The way of one completion through the loop of `check_completions` (tokio-uring-reactor/src/reactor.rs):
-- before it its cell is as it was, after it the cell is finished and its waker woken.
use rust_io_uring.Prelude.{
  ℕ, ◌≤◌, ◌≡◌, ◌≢◌, ◌⊎◌, inl, inr, refl, sym, ◌∙◌, ap, subst, Bool, List, [], ◌∷◌, ◌++◌, Option,
  some, arith, count, count_self, count_other, ℕ_discrete,
}
use mathlib.Core.List.{append_assoc, append-nil, Memᴰ}
use rust_io_uring.Sys.Entry.{CompletionEntry}
use rust_io_uring.Reactor.Registration.{CompatWaker, UringResult, Shared, wake}
use rust_io_uring.Reactor.State.{CompletionState, store, release}
use rust_io_uring.Reactor.State.InFlight.{
  InFlight, Inv, InProgress, Remove, NotIn, Live, store_same, store_other,
}
use rust_io_uring.Reactor.State.Tokens.{count-Remove}
use rust_io_uring.Reactor.State.Complete.{finish}
use rust_io_uring.Reactor.Turn.Drain.{Each, KeepsAmong}
use rust_io_uring.Reactor.World.Cells.{some_injective, NotIn-count}
use rust_io_uring.Reactor.World.Effect.{Effect, Effected, effect_lem}

-- The result of one of the completions `cs`.
abbrev pub Among : List CompletionEntry → ℕ → UringResult → Type 0
Among cs u r =
    (e : CompletionEntry) × Memᴰ e cs
    × (e.user_data ≡ u)
    × (r ≡ record { result = e.res; flags = e.flags })

Each-Among :
    (all cs : List CompletionEntry)
    → ((e : CompletionEntry) → Memᴰ e cs → Memᴰ e all)
    → Each (Among all) cs
Each-Among all [] within = tt
Each-Among all (c ∷ cs) within =
    ((c, within c (Memᴰ.head refl), refl, refl), Each-Among all cs (λ e m. within e (Memᴰ.tail m)))

pub Each-own : (cs : List CompletionEntry) → Each (Among cs) cs
Each-own cs = Each-Among cs cs (λ e m. m)

pub Live-count :
    {D : Type 0} (h : ℕ → Option (Shared D)) (a : ℕ) (us : List ℕ) → Live h us → count a us ≤ 1
Live-count h a [] l = omega arith
Live-count h a (u ∷ us) (p, n, l) = elim (ℕ_discrete u a) [
  | yes e ↦ omega (
    arith,
    NotIn-count a us (subst (λ x. NotIn x us) e n),
    count_self a,
    ap (λ x. count a (x ∷ [])) e,
  )
  | no n ↦ omega (arith, Live-count h a us l, count_other u a n)
]

module _ {D : Type 0} (checks : Bool) (cs : List CompletionEntry) (a : ℕ) (c : Shared D) where
  -- Not yet completed: the cell is as it was.
  abbrev pub Waits : CompletionState D → InFlight → Type 0
  Waits s f = (count a f.ops ≡ 1) × (s.heap a ≡ some c)

  -- Completed: by one of `cs`, and the waker that waited in the cell has been woken.
  abbrev pub Delivered : CompletionState D → InFlight → Type 0
  Delivered s f =
      (count a f.ops ≡ 0)
      × (r : UringResult) × Among cs a r
      × (s.heap a ≡ release (finish checks r c))
      × (before after : List CompatWaker) × (s.woken ≡ before ++ (wake c.inner.waker).1 ++ after)

  abbrev pub Way : CompletionState D → InFlight → Type 0
  Way s f = Inv s f × (Waits s f ⊎ Delivered s f)

  module _ (s t : CompletionState D) (f g : InFlight) (u : ℕ) (r : UringResult) where
    apart_from :
        u ≢ a
        → Remove u f.ops g.ops
        → (p : InProgress s.heap u) → t.heap ≡ store s.heap u (release (finish checks r p.cell))
        → (t.heap a ≡ s.heap a) × (count a g.ops ≡ count a f.ops)
    apart_from n x p h = (
      ap (λ k. k a) h ∙ store_other s.heap u a (release (finish checks r p.cell)) n,
      omega (arith, count-Remove x a, count_other u a n),
    )

    way_on :
        Among cs u r
        → Effect checks u r s f t g
        → Waits s f ⊎ Delivered s f
        → Waits t g ⊎ Delivered t g
    unfolding Effect
    way_on q (inl (h, w, o)) (inl (one, at)) = inl (ap (count a) o ∙ one, ap (λ k. k a) h ∙ at)
    way_on q (inl (h, w, o)) (inr (none_left, r', among, at, before, after, woken)) =
        inr (ap (count a) o ∙ none_left, r', among, ap (λ k. k a) h ∙ at, before, after, w ∙ woken)
    way_on q (inr (p, h, w, x, gone)) (inl (one, at)) = elim (ℕ_discrete u a) [
      | yes e ↦
          let same : p.cell ≡ c = some_injective p.cell c (sym p.at ∙ ap s.heap e ∙ at) in
          let left : Option (Shared D) = release (finish checks r p.cell) in
          inr (
            subst (λ b. count b g.ops ≡ 0) e (NotIn-count u g.ops gone),
            r,
            subst (λ b. Among cs b r) e q,
            ap (λ k. k a) h
                ∙ subst (λ b. store s.heap u left b ≡ left) e (store_same s.heap u left)
                ∙ ap (λ x. release (finish checks r x)) same,
            s.woken,
            [],
            w
                ∙ ap (λ (x : Shared D). s.woken ++ (wake x.inner.waker).1) same
                ∙ sym (append-nil (s.woken ++ (wake c.inner.waker).1)),
          )
      | no n ↦ let (h', o) = apart_from n x p h in inl (o ∙ one, h' ∙ at)
    ]
    way_on q (inr (p, h, w, x, gone)) (inr (none_left, r', among, at, before, after, woken)) =
        elim (ℕ_discrete u a) [
          | yes e ↦ absurd (
              omega (
                arith,
                none_left,
                count-Remove x a,
                subst (λ b. count b (u ∷ []) ≡ 1) e (count_self u),
              ))
          | no n ↦
              let (h', o) = apart_from n x p h in
              inr (
                o ∙ none_left,
                r',
                among,
                h' ∙ at,
                before,
                after ++ (wake p.cell.inner.waker).1,
                w
                    ∙ ap (λ l. l ++ (wake p.cell.inner.waker).1) woken
                    ∙ append_assoc (before ++ (wake c.inner.waker).1) after _,
              )
        ]

  pub Keeps-Way : KeepsAmong checks (Among cs) Way
  unfolding Effected
  Keeps-Way s f g u r q x (v, on) =
      let (t, e, w, effect) = effect_lem checks s f g u r v x in
      (t, e, (w, way_on s t f g u r q effect on))
