-- ===== src/Reactor/World/Turns.antt =====
-- The reactor's own turns keep the invariant.
use rust_io_uring.Prelude.{
  ℕ, ◌<◌, ◌≡◌, ◌⊎◌, sym, ◌∙◌, ap, subst, Bool, false, Option, length, arith, count, Outcome,
  returned, panicked, undefined, out_of_fuel,
}
use rust_io_uring.Ring.Completion.{available}
use rust_io_uring.Ring.Completion.Valid
use rust_io_uring.Reactor.Park
use rust_io_uring.Reactor.State.InFlight.{InFlight, Inv}
use rust_io_uring.Reactor.State.Tokens.{Live-AllEven}
use rust_io_uring.Reactor.Queue.{Inner}
use rust_io_uring.Reactor.Turn.{check_completions, prepare, leave_park}
use rust_io_uring.Reactor.Turn.Drain.{CompletesAll, nonempty, drain_lem}
use rust_io_uring.Reactor.Turn.Extends.{Extends}
use rust_io_uring.Reactor.Turn.Honest.{keys, keys-CompletesAll}
use rust_io_uring.Reactor.Turn.Sound.{Sound}
use rust_io_uring.Reactor.Turn.Wait.{Alert, Prepared, prepare_lem}
use rust_io_uring.Reactor.Transfer.{Context}
use rust_io_uring.Reactor.World.{World}
use rust_io_uring.Reactor.World.Owners.{Owners, Keeps-owned}
use rust_io_uring.Reactor.World.Good.{Good, Inv-park}

-- The value of an outcome that returns.
abbrev pub value_or {ℓ} : {A : Type ℓ} → A → Outcome A → A
value_or d (returned a) = a
value_or d panicked = d
value_or d undefined = d
value_or d out_of_fuel = d

pub returned_injective {ℓ} :
    {A : Type ℓ} {r : Outcome A} (a b : A) → r ≡ returned a → r ≡ returned b → a ≡ b
returned_injective a b x y = ap (value_or a) (sym x ∙ y)

module _ {T F : Type 0} {k l : ℕ} (w : World T F) {g : InFlight} (good : Good k l w g) where
  -- What the reactor is after its completions.
  pub checked-Good :
      (fuel : ℕ)
      → length (available w.reactor.cq) < fuel
      → (i : Inner (Context T F)) × (h : InFlight) × CompletesAll g (available w.reactor.cq) h
        × (check_completions false fuel w.reactor ≡ returned (i, nonempty (available w.reactor.cq)))
        × Good k l (record w { reactor = i }) h
  checked-Good fuel lt =
      let (h, x, less) =
        keys-CompletesAll (available w.reactor.cq) g
          (Live-AllEven w.reactor.completion_state.heap g.ops good.sound.inv.live)
          (λ u. omega (arith, good.balance u)) in
      let (q, t, e, valid, empty, (inv, owners)) =
        drain_lem false (λ s f. Inv s f × Owners s.heap w.futures f.ops)
          (Keeps-owned false w.futures) {k = l} fuel w.reactor good.cring
          (good.sound.inv, good.owners) x lt in
      (
        record w.reactor { cq = q; completion_state = t },
        h,
        x,
        e,
        record {
          sound = record { ring = good.sound.ring; inv = inv };
          cring = valid;
          owners = owners;
          balance = λ u. omega (arith, good.balance u, less u, ap (λ cs. count u (keys cs)) empty);
          single = good.single;
        },
      )

  pub check-Good :
      (fuel : ℕ) (j : Inner (Context T F)) (received : Bool)
      → length (available w.reactor.cq) < fuel
      → check_completions false fuel w.reactor ≡ returned (j, received)
      → (h : InFlight) × Good k l (record w { reactor = j }) h
  check-Good fuel j received lt e =
      let (i, h, x, e', better) = checked-Good fuel lt in
      (
        h,
        subst (λ (i : Inner (Context T F)). Good k l (record w { reactor = i }) h)
            (ap (λ r. r.0) (returned_injective _ _ e' e)) better,
      )

  Extends-Good :
      (i j : Inner (Context T F)) (f h : InFlight)
      → Good k l (record w { reactor = i }) f
      → Sound k j h
      → Extends i f j h
      → Good k l (record w { reactor = j }) h
  Extends-Good i j f h before s x = record {
    sound = s;
    cring = subst (Valid.IsValid l) (sym x.cq) before.cring;
    owners =
        subst (λ ops. Owners j.completion_state.heap w.futures ops) (sym x.ops)
          (subst (λ heap. Owners heap w.futures f.ops) (sym x.heap) before.owners);
    balance = λ u.
        omega (arith, before.balance u, x.balance u, ap (λ q. count u (keys (available q))) x.cq);
    single = before.single;
  }

  -- `prepare` from a good world, with why it may wait.
  pub prepared-Good :
      (fuel : ℕ) (wait : Bool) (timeout : Option ℕ)
      → length (available w.reactor.cq) < fuel
      → (j : Inner (Context T F)) × (n : ℕ) × (waits : Bool) × (h : InFlight) × (prepare false fuel
            wait timeout w.reactor
          ≡ returned (j, n, waits))
        × ((waits ≡ false) ⊎ Alert wait w.reactor j h)
        × Good k l (record w { reactor = j }) h
  unfolding Prepared
  prepared-Good fuel wait timeout lt =
      let (i, f, x, e, better) = checked-Good fuel lt in
      let (i1, e1, _, (j, n, waits, h, out, s, extends, _, _, alert)) =
        prepare_lem {k = k} {l = l} {g = f} fuel wait timeout w.reactor good.sound good.cring x
          lt in
      let same : i1 ≡ i = ap (λ r. r.0) (returned_injective _ _ e1 e) in
      (
        j,
        n,
        waits,
        h,
        out,
        alert,
        Extends-Good i j f h better s (subst (λ i. Extends i f j h) same extends),
      )

  pub enter-Good :
      (fuel : ℕ) (wait : Bool) (timeout : Option ℕ) (j : Inner (Context T F)) (n : ℕ) (waits : Bool)
      → length (available w.reactor.cq) < fuel
      → prepare false fuel wait timeout w.reactor ≡ returned (j, n, waits)
      → (h : InFlight) × Good k l (record w { reactor = j }) h
  enter-Good fuel wait timeout j n waits lt e =
      let (j', n', waits', h, e', _, better) = prepared-Good fuel wait timeout lt in
      (
        h,
        subst (λ (i : Inner (Context T F)). Good k l (record w { reactor = i }) h)
            (ap (λ r. r.0) (returned_injective _ _ e' e)) better,
      )

  pub others-Good :
      (shared : Park.Shared)
      → Good k l
          (record w {
            reactor = record w.reactor {
              completion_state = record w.reactor.completion_state { park = shared };
            };
          })
          g
  others-Good shared = record {
    sound = record { ring = good.sound.ring; inv = Inv-park shared good.sound.inv };
    cring = good.cring;
    owners = good.owners;
    balance = good.balance;
    single = good.single;
  }

  pub leave-Good : Good k l (record w { reactor = leave_park w.reactor }) g
  unfolding leave_park
  leave-Good = others-Good _
