-- ===== src/Runtime/Calls/Blocking.antt =====
-- What the calls of a runtime run, and what `block_on_all` waits for.
use rust_io_uring.Prelude.{true, false, ◌≡◌, ◌↔◌, refl, sym, ◌∙◌, ap, none, some, Result, ok, err}
use mathlib.Core.Bool.{false≢true}
use rust_io_uring.Reactor.Handle
use rust_io_uring.Reactor.Handle.{with_default}
use rust_io_uring.Runtime.{
  Exit, left_with, unwound, Call, Tokio, Here, reset, with_reactor_handle, reactor_handle,
  timer_handle,
}
use rust_io_uring.Runtime.Entered
use rust_io_uring.Runtime.Entered.{scope, block_then_run, run_rest, unwrap_run}
use rust_io_uring.Runtime.Calls.{entered, block_on_all}

module _ (k : Tokio) where
  -- The thread inside of a call, and the one behind it.
  abbrev pub inside : k.Rest → Here k → Here k
  inside r t = record t { current_reactor = some (reactor_handle k t); rest = r }

  abbrev pub behind : (k.Rest → k.Rest) → Here k → Here k
  behind after u = record u { current_reactor = none; rest = k.leave (after u.rest) }

  abbrev pub timed : (k.Rest → k.Rest) → {A : Type 0} → Here k × Exit A → Here k × Exit A
  timed after p = (record p.0 { rest = after p.0.rest }, p.1)

  left_with_injective : {A : Type 0} (a b : A) → left_with a ≡ left_with b → a ≡ b
  left_with_injective a b e = ap (λ x. elim x [ left_with c ↦ c | unwound ↦ a ]) e

  unwound_ne : {A B : Type 0} (a : A) → ◌≡◌ {A = Exit A} unwound (left_with a) → B
  unwound_ne a e =
      absurd (false≢true (sym (ap (λ x. elim x [ left_with c ↦ false | unwound ↦ true ]) e)))

  unwrap_run_iff :
      {A : Type 0} (a b : A) (p : Here k × Exit (Result k.RunError (Unit {0})))
      → ((unwrap_run k a p).1 ≡ left_with b)
        ↔ ((a ≡ b) × (v : Here k) × (p ≡ (v, left_with (ok tt))))
  unfolding unwrap_run
  unwrap_run_iff a b (u, unwound) =
      (λ e. unwound_ne b e, λ r. unwound_ne (ok tt) (ap (λ p. p.1) r.2))
  unwrap_run_iff a b (u, left_with (ok _)) =
      (λ e. (left_with_injective a b e, u, refl), λ r. ap left_with r.0)
  unwrap_run_iff a b (u, left_with (err x)) = (
    λ e. unwound_ne b e,
    λ r. absurd (
        false≢true (
          ap (λ x. elim x [ ok _ ↦ true | err _ ↦ false ])
            (left_with_injective (err x) (ok tt) (ap (λ p. p.1) r.2)))),
  )

  run_rest_iff :
      {A : Type 0} (p : Here k × Exit A) (b : A)
      → ((run_rest k p).1 ≡ left_with b)
        ↔ ((u v : Here k) × (p ≡ (u, left_with b)) × (k.run u ≡ (v, left_with (ok tt))))
  unfolding run_rest
  run_rest_iff (u, unwound) b = (λ e. unwound_ne b e, λ r. unwound_ne b (ap (λ p. p.1) r.2))
  run_rest_iff (u, left_with a) b = (
    λ e.
        let (same, v, ran) = (unwrap_run_iff a b (k.run u)).0 e in
        (u, v, ap (λ a. (u, left_with a)) same, ran),
    λ r.
        let (w, v, same, ran) = r in
        (unwrap_run_iff a b (k.run u)).1
          (left_with_injective a b (ap (λ p. p.1) same), v, ap (λ p. k.run p.0) same ∙ ran),
  )

module _ (k : Tokio) (t : Here k) (entering before : k.Rest) (after : k.Rest → k.Rest)
    (enters : k.enter t.rest ≡ some entering)
    (timer : (A : Type 0) (f : Call (Here k) A)
      → k.with_timer (timer_handle k t) f (inside k entering t)
        ≡ timed k after (f (inside k before t))) where
  pub entered-scope :
      {A : Type 0} (f : Call (Here k) A)
      → entered k (scope k f) t
        ≡ (behind k after (f (inside k before t)).0, (f (inside k before t)).1)
  unfolding scope with_reactor_handle reset reactor_handle timer_handle entered Handle.handle
      with_default
  entered-scope f = rw (enters, entered, timer _ f) refl

  -- On such a thread, `block_on_all` returns an answer exactly if the future comes to that answer and the
  -- run of all other tasks behind it ends without an error. It panics otherwise.
  pub block_on_all_iff :
      (future : k.Block) (answer : Result k.BlockError k.Item)
      → ((block_on_all k future t).1 ≡ left_with answer) ↔ (
          (u v : Here k) × (k.block_on future (inside k before t) ≡ (u, left_with answer))
          × (k.run u ≡ (v, left_with (ok tt))))
  unfolding block_on_all Entered.block_on_all block_then_run
  block_on_all_iff future answer =
      rw (ap (λ p. p.1) (entered-scope (block_then_run k future)))
        (run_rest_iff k (k.block_on future (inside k before t)) answer)
