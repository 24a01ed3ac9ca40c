-- ===== src/Reactor/State/InFlight.antt =====
-- What the kernel still has to complete, beside the state that counts it: the polls of the timer
-- and of the park event, and the addresses of the registrations of operations.
use rust_io_uring.Prelude.{
  ℕ, ◌+◌, ◌≤◌, ◌≡◌, ◌≢◌, refl, sym, ◌∙◌, Bool, true, false, not, List, [], ◌∷◌, Option, some,
  bit_and, length, arith, ℕ_discrete,
}
use mathlib.Core.Logic.{if_pos, if_neg}
use rust_io_uring.Reactor.Registration.{Shared}
use rust_io_uring.Reactor.State.{CompletionState, store}

pub record InFlight : Type 0 where
  pub timer_out : Bool
  pub park_out : Bool
  pub ops : List ℕ

-- `Remove u us vs`: `vs` is `us` less one `u`.
pub data Remove (u : ℕ) : List ℕ → List ℕ → Type 0 where
  here : {us : List ℕ} → Remove u (u ∷ us) us
  there : {x : ℕ} {us vs : List ℕ} → Remove u us vs → Remove u (x ∷ us) (x ∷ vs)

abbrev pub NotIn : ℕ → List ℕ → Type 0
NotIn u [] = Unit
NotIn u (x ∷ xs) = (u ≢ x) × NotIn u xs

abbrev pub one_if : Bool → ℕ
one_if true = 1
one_if false = 0

-- A completion that may come: one that answers nothing, an event, or an operation in flight.
pub data Completes : InFlight → ℕ → InFlight → Type 0 where
  detached : {f : InFlight} → Completes f 0 f
  timer : {f : InFlight} → f.timer_out ≡ true → Completes f 1 (record f { timer_out = false })
  park : {f : InFlight} → f.park_out ≡ true → Completes f 3 (record f { park_out = false })
  op :
      {f : InFlight} {u : ℕ} {vs : List ℕ}
      → Remove u f.ops vs
      → Completes f u (record f { ops = vs })

-- An address that `into_user_data` takes, of a cell that is alive and still to be finished.
pub record InProgress {D : Type 0} (h : ℕ → Option (Shared D)) (u : ℕ) : Type 0 where
  pub cell : Shared D
  pub nonzero : u ≢ 0
  pub even : bit_and u 1 ≡ 0
  pub at : h u ≡ some cell
  pub unfinished : cell.inner.finished ≡ false
  pub owned : 1 ≤ cell.strong

abbrev pub Live : {D : Type 0} → (ℕ → Option (Shared D)) → List ℕ → Type 0
Live h [] = Unit
Live h (u ∷ us) = InProgress h u × NotIn u us × Live h us

pub record Inv {D : Type 0} (s : CompletionState D) (f : InFlight) : Type 0 where
  pub counted : s.active_wait ≡ length f.ops + one_if f.timer_out + one_if f.park_out
  pub timer_known : s.requeue_timer ≡ not f.timer_out
  pub park_known : s.requeue_park ≡ not f.park_out
  pub live : Live s.heap f.ops

pub length-Remove : {u : ℕ} {us vs : List ℕ} → Remove u us vs → length us ≡ length vs + 1
length-Remove here = omega arith
length-Remove (there r) = omega (arith, length-Remove r)

pub NotIn-Remove :
    {u : ℕ} {us vs : List ℕ} (x : ℕ) → Remove u us vs → NotIn x us → (x ≢ u) × NotIn x vs
NotIn-Remove x here n = n
NotIn-Remove x (there r) n = (let p = NotIn-Remove x r n.1 in (p.0, (n.0, p.1)))

pub Live-Remove :
    {D : Type 0} {h : ℕ → Option (Shared D)} {u : ℕ} {us vs : List ℕ}
    → Remove u us vs
    → Live h us
    → InProgress h u × NotIn u vs × Live h vs
Live-Remove here l = l
Live-Remove (there r) (c, n, l) =
    let (away, out) = NotIn-Remove _ r n in
    let (found, gone, rest) = Live-Remove r l in
    (found, ((λ e. away (sym e)), gone), (c, out, rest))

pub store_other :
    {D : Type 0} (h : ℕ → Option (Shared D)) (a b : ℕ) (c : Option (Shared D))
    → a ≢ b
    → store h a c b ≡ h b
store_other h a b c n = if_neg (ℕ_discrete a b) n c (h b)

pub store_same :
    {D : Type 0} (h : ℕ → Option (Shared D)) (a : ℕ) (c : Option (Shared D)) → store h a c a ≡ c
store_same h a c = if_pos (ℕ_discrete a a) refl c (h a)

pub Live-store :
    {D : Type 0} (h : ℕ → Option (Shared D)) (u : ℕ) (c : Option (Shared D)) (us : List ℕ)
    → NotIn u us
    → Live h us
    → Live (store h u c) us
Live-store h u c [] n l = tt
Live-store h u c (x ∷ us) n (p, m, l) = (
  record {
    cell = p.cell;
    nonzero = p.nonzero;
    even = p.even;
    at = store_other h u x c n.0 ∙ p.at;
    unfinished = p.unfinished;
    owned = p.owned;
  },
  m,
  Live-store h u c us n.1 l,
)
