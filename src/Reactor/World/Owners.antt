-- ===== src/Reactor/World/Owners.antt =====
-- A cell is on the heap exactly while it has an owner: its future, the kernel, or both.
use rust_io_uring.Prelude.{
  ℕ, Bool, true, false, ◌+◌, ◌-◌, ◌≤◌, ◌≡◌, ◌≢◌, refl, sym, ◌∙◌, ap, subst, List, Option, none,
  some, Outcome, returned, panicked, undefined, out_of_fuel, count, count_self, count_other, arith,
  ℕ_discrete, length, ◌==◌, if◌then◌else◌,
}
use rust_io_uring.Reactor.Registration.{UringResult, Shared, drop_raw}
use rust_io_uring.Reactor.State.{CompletionState, store, release, handle_completion}
use rust_io_uring.Reactor.State.InFlight.{
  InFlight, Inv, Remove, Completes, detached, timer, park, op, one_if, Live-Remove, length-Remove,
  store_same, store_other,
}
use rust_io_uring.Reactor.State.Tokens.{count-Remove}
use rust_io_uring.Reactor.State.Complete.{
  completion_safe, handle_op, handle_timer, handle_park, finish,
}
use rust_io_uring.Reactor.Turn.Drain.{Keeps}

-- The buffer and the file stay in a cell as long as it is there.
abbrev pub Filled : {D : Type 0} → Shared D → Type 0
Filled {D = D} c = (d : D) × (c.inner.payload ≡ some d)

-- `n` owners of what an address of the heap holds.
abbrev pub Owned : {D : Type 0} → Option (Shared D) → ℕ → Type 0
Owned none n = n ≡ 0
Owned (some c) n = (c.strong ≡ n) × (1 ≤ n) × Filled c

abbrev pub Owners : {D : Type 0} → (ℕ → Option (Shared D)) → List ℕ → List ℕ → Type 0
Owners h futures ops = (a : ℕ) → Owned (h a) (count a futures + count a ops)

module _ {D : Type 0} where
  Owned-if :
      (b : Bool) (c : Shared D) (n : ℕ)
      → (b ≡ true → n ≡ 0)
      → (b ≡ false → (c.strong ≡ n) × (1 ≤ n) × Filled c)
      → Owned (if b then none else some c) n
  Owned-if true c n z p = z refl
  Owned-if false c n z p = p refl

  pub Owned-release :
      (c : Shared D) (n : ℕ) → c.strong ≡ n + 1 → (1 ≤ n → Filled c) → Owned (release c) n
  unfolding release drop_raw
  Owned-release c n e f =
      Owned-if (c.strong - 1 == 0) (drop_raw c) n (λ z. ground arith)
        (λ p. let more : 1 ≤ n = ground arith in (omega arith, more, f more))

  -- The heap after a change at `a`, where the owners of all other addresses stay.
  pub Owners-store :
      (h : ℕ → Option (Shared D)) (futures ops futures' ops' : List ℕ) (a : ℕ)
      (c : Option (Shared D))
      → Owners h futures ops
      → Owned c (count a futures' + count a ops')
      → ((b : ℕ) → a ≢ b → count b futures' + count b ops' ≡ count b futures + count b ops)
      → Owners (store h a c) futures' ops'
  Owners-store h futures ops futures' ops' a c o at rest b = elim (ℕ_discrete a b) [
    | yes e ↦
        subst (λ (x : ℕ). Owned (store h a c x) (count x futures' + count x ops')) e
          (subst (λ x. Owned x (count a futures' + count a ops')) (sym (store_same h a c)) at)
    | no n ↦
        subst (λ x. Owned x (count b futures' + count b ops')) (sym (store_other h a b c n))
          (subst (Owned (h b)) (sym (rest b n)) (o b))
  ]

  abbrev heap_of : Outcome (CompletionState D) → ℕ → Option (Shared D)
  heap_of (returned s) = s.heap
  heap_of panicked = λ _. none
  heap_of undefined = λ _. none
  heap_of out_of_fuel = λ _. none

  strong_of :
      (h : ℕ → Option (Shared D)) (a n : ℕ) (c : Shared D)
      → h a ≡ some c
      → Owned (h a) n
      → (c.strong ≡ n) × (1 ≤ n) × Filled c
  strong_of h a n c e o = subst (λ x. Owned x n) e o

  module _ (checks : Bool) (r : UringResult) (futures : List ℕ) (s t : CompletionState D)
      (f : InFlight) (v : Inv s f) (o : Owners s.heap futures f.ops) where
    moved :
        (u : ℕ) (ops : List ℕ) (t' : CompletionState D)
        → handle_completion checks u r s ≡ returned t'
        → handle_completion checks u r s ≡ returned t
        → Owners t'.heap futures ops
        → Owners t.heap futures ops
    moved u ops t' e' e o' = subst (λ h. Owners h futures ops) (ap heap_of (sym e' ∙ e)) o'

    owned_op :
        (u : ℕ) (vs : List ℕ)
        → Remove u f.ops vs
        → handle_completion checks u r s ≡ returned t
        → Owners t.heap futures vs
    owned_op u vs x e =
        let (p, _, _) = Live-Remove x v.live in
        let m : ℕ = length vs + one_if f.timer_out + one_if f.park_out in
        let counted : s.active_wait ≡ m + 1 = omega (arith, v.counted, length-Remove x) in
        let (strong, _, filled) =
          strong_of s.heap u (count u futures + count u f.ops) p.cell p.at (o u) in
        moved u vs _ (handle_op checks r u m s p counted) e (
          Owners-store s.heap futures f.ops futures vs u (release (finish checks r p.cell)) o
            (Owned-release (finish checks r p.cell) (count u futures + count u vs)
              (omega (arith, strong, count-Remove x u, count_self u)) (λ _. filled))
            (λ b n. omega (arith, count-Remove x b, count_other u b n)))

    owned_after :
        {u : ℕ} {g : InFlight}
        → Completes f u g
        → handle_completion checks u r s ≡ returned t
        → Owners t.heap futures g.ops
    unfolding handle_completion
    owned_after detached e = moved 0 f.ops s refl e o
    owned_after (timer out) e =
        moved 1 f.ops _
          (handle_timer checks r (length f.ops + one_if f.park_out) s
            (omega (arith, v.counted, ap one_if out)))
          e o
    owned_after (park out) e =
        moved 3 f.ops _
          (handle_park checks r (length f.ops + one_if f.timer_out) s
            (omega (arith, v.counted, ap one_if out)))
          e o
    owned_after (op {u = u} {vs = vs} x) e = owned_op u vs x e

  -- Every completion keeps the state sound and its cells owned.
  pub Keeps-owned :
      (checks : Bool) (futures : List ℕ)
      → Keeps checks (λ (s : CompletionState D) f. Inv s f × Owners s.heap futures f.ops)
  Keeps-owned checks futures s f g u r x (v, o) =
      let (t, e, w) = completion_safe checks r s f v u g x in
      (t, e, (w, owned_after checks r futures s t f v o x e))
