-- ===== src/Reactor/World/Futures.antt =====
-- The futures' own steps keep the invariant.
use rust_io_uring.Prelude.{
  ℕ, ◌+◌, ◌-◌, ◌≤◌, ◌≡◌, ◌≢◌, ◌⊎◌, inl, inr, refl, sym, ◌∙◌, ap, subst, Bool, true, false, List,
  Option, none, some, arith, count, count_self, count_other, returned, Result, ◌==◌, ℕ_discrete,
}
use rust_io_uring.Reactor.Registration.{CompatWaker, Shared, Async, ready, not_ready, drop_raw}
use rust_io_uring.Reactor.State.{store, release}
use rust_io_uring.Reactor.State.InFlight.{InFlight, Remove}
use rust_io_uring.Reactor.State.Tokens.{count-Remove}
use rust_io_uring.Reactor.Transfer.{Context, TransferError, pending_at, closed, poll}
use rust_io_uring.Reactor.World.{World, with_heap}
use rust_io_uring.Reactor.World.Owners.{Filled, Owned, Owners-store, Owned-release}
use rust_io_uring.Reactor.World.Cells.{
  some_injective, Again, Finished, poll_cases, finished-NotIn, NotIn-count, StillThere, Live-update,
}
use rust_io_uring.Reactor.World.Good.{Good, Inv-heap}

-- A cell with an owner is there.
alive :
    {D : Type 0} (o : Option (Shared D)) (n : ℕ)
    → Owned o n
    → 1 ≤ n
    → (c : Shared D) × (o ≡ some c) × (c.strong ≡ n) × Filled c
alive none n z one = absurd (omega (arith, z))
alive (some c) n o one = (c, refl, o.0, o.2)

pub release-some :
    {D : Type 0} (c : Shared D)
    → 2 ≤ c.strong
    → release c ≡ some (record c { strong = c.strong - 1 })
unfolding release drop_raw
release-some c two = rw (apart) refl
  where
    apart : (c.strong - 1 == 0) ≡ false
    apart = ground arith

pub release-none : {D : Type 0} (c : Shared D) → c.strong ≡ 1 → release c ≡ none
unfolding release drop_raw
release-none c one = rw (one) refl

still-Filled :
    {D : Type 0} (c c' : Shared D) → c'.inner.payload ≡ c.inner.payload → Filled c → Filled c'
still-Filled c c' payload (d, e) = (d, payload ∙ e)

abbrev pub is_ready : {A : Type 0} → Async A → Bool
is_ready (ready _) = true
is_ready not_ready = false

module _ {T F : Type 0} {k l : ℕ} (w : World T F) {g : InFlight} (good : Good k l w g) where
  -- A future that waits has a cell, with the kernel's owner if the operation is in flight.
  pub waiting_cell :
      (a : ℕ) (futures : List ℕ)
      → Remove a w.futures futures
      → (c : Shared (Context T F)) × (w.reactor.completion_state.heap a ≡ some c)
        × (c.strong ≡ count a futures + count a g.ops + 1)
        × Filled c
  waiting_cell a futures r =
      let (c, at, n, filled) =
        alive (w.reactor.completion_state.heap a) (count a w.futures + count a g.ops)
          (good.owners a) (omega (arith, count-Remove r a, count_self a)) in
      (c, at, omega (arith, n, count-Remove r a, count_self a), filled)

  -- A change of the heap at `a` that serves what is in flight, with its owners.
  heap-Good :
      (a : ℕ) (futures : List ℕ) (c : Shared (Context T F)) (o : Option (Shared (Context T F)))
      → (at : w.reactor.completion_state.heap a ≡ some c)
      → (1 ≤ count a g.ops → StillThere w.reactor.completion_state.heap a c at o)
      → Owned o (count a futures + count a g.ops)
      → ((b : ℕ) → a ≢ b → count b futures ≡ count b w.futures)
      → count a futures ≤ 1
      → Good k l
          (record w {
            reactor = with_heap (store w.reactor.completion_state.heap a o) w.reactor;
            futures = futures;
          })
          g
  heap-Good a futures c o at still owned others one = record {
    sound = record {
      ring = good.sound.ring;
      inv =
          Inv-heap (store w.reactor.completion_state.heap a o) good.sound.inv
            (Live-update w.reactor.completion_state.heap a c at o g.ops still good.sound.inv.live);
    };
    cring = good.cring;
    owners =
        Owners-store w.reactor.completion_state.heap w.futures g.ops futures g.ops a o good.owners
          owned (λ b n. omega (arith, others b n));
    balance = good.balance;
    single = λ b. elim (ℕ_discrete a b) [
      | yes e ↦ subst (λ x. count x futures ≤ 1) e one
      | no n ↦ omega (arith, others b n, good.single b)
    ];
  }

  -- A future that is dropped gives up its owner of the cell.
  pub drop-Good :
      (a : ℕ) (futures : List ℕ) (c : Shared (Context T F))
      → Remove a w.futures futures
      → w.reactor.completion_state.heap a ≡ some c
      → Good k l
          (record w {
            reactor = with_heap (store w.reactor.completion_state.heap a (release c)) w.reactor;
            futures = futures;
          })
          g
  drop-Good a futures c r at =
      let (c', at', strong, filled) = waiting_cell a futures r in
      let owners : c.strong ≡ count a futures + count a g.ops + 1 =
        ap (λ (x : Shared (Context T F)). x.strong) (some_injective c c' (sym at ∙ at')) ∙ strong in
      heap-Good a futures c (release c) at
        (λ one. (
          record c { strong = c.strong - 1 },
          release-some c (omega (arith, owners)),
          refl,
          omega (arith, owners),
        ))
        (Owned-release c (count a futures + count a g.ops) owners
          (λ _. subst Filled (sym (some_injective c c' (sym at ∙ at'))) filled))
        (λ b n. omega (arith, count-Remove r b, count_other a b n))
        (omega (arith, good.single a, count-Remove r a))

  -- A poll of a future that waits returns, and leaves the invariant.
  pub polled-Good :
      (x : CompatWaker) (a : ℕ) (futures : List ℕ)
      → Remove a w.futures futures
      → ((h : ℕ → Option (Shared (Context T F))) × (poll x
              (pending_at a)
              w.reactor.completion_state.heap
            ≡ returned (pending_at a, h, not_ready))
          × Good k l (record w { reactor = with_heap h w.reactor }) g)
        ⊎ ((h : ℕ → Option (Shared (Context T F))) × (o : Result (TransferError T F) (ℕ × T × F))
            × (poll x (pending_at a) w.reactor.completion_state.heap
                ≡ returned (closed, h, ready o))
            × Good k l (record w { reactor = with_heap h w.reactor; futures = futures }) g)
  unfolding Again Finished
  polled-Good x a futures r =
      let (c, at, strong, filled) = waiting_cell a futures r in
      elim (poll_cases x a w.reactor.completion_state.heap c at) [
        | inl (c', e, same, unchanged, payload) ↦
            let n : c'.strong ≡ count a w.futures + count a g.ops =
              omega (arith, same, strong, count-Remove r a, count_self a) in
            inl (
              _,
              e,
              heap-Good a w.futures c (some c') at (λ one. (c', refl, unchanged, omega (arith, n)))
                  (n, omega (arith, same, strong), still-Filled c c' payload filled) (λ b n. refl)
                  (good.single a),
            )
        | inr (c', o, e, same, over, finished) ↦
            let gone : count a g.ops ≡ 0 = NotIn-count a g.ops (
              finished-NotIn w.reactor.completion_state.heap a c at g.ops finished
                good.sound.inv.live) in
            let alone : count a futures ≡ 0 =
              omega (arith, good.single a, count-Remove r a, count_self a) in
            inr (
              _,
              o,
              e,
              heap-Good a futures c (release c') at (λ one. absurd (omega (arith, gone)))
                  (Owned-release c' (count a futures + count a g.ops) (same ∙ strong)
                    (λ more. absurd (omega (arith, more, gone, alone))))
                  (λ b n. omega (arith, count-Remove r b, count_other a b n))
                  (omega (arith, alone)),
            )
      ]
