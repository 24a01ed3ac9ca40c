-- ===== src/Reactor/State/Tokens.antt =====
-- What is in flight as a collection of `user_data`, each as often as it is in flight.
use rust_io_uring.Prelude.{
  ℕ, ◌+◌, ◌≤◌, ◌≡◌, ◌≢◌, refl, sym, ◌∙◌, ap, Bool, true, false, List, [], ◌∷◌, ◌++◌, bit_and, arith,
  count, count-append, count_other, ℕ_discrete, Option,
}
use mathlib.Core.Bool.{false≢true}
use rust_io_uring.Reactor.Registration.{Shared}
use rust_io_uring.Reactor.State.InFlight.{
  InFlight, Remove, here, there, Live, Completes, timer, park, op,
}

abbrev pub event_if : Bool → ℕ → List ℕ
event_if true u = u ∷ []
event_if false u = []

abbrev pub tokens : InFlight → List ℕ
tokens f = event_if f.timer_out 1 ++ event_if f.park_out 3 ++ f.ops

-- Registrations lie at even addresses, so that no operation looks like an event.
abbrev pub AllEven : List ℕ → Type 0
AllEven [] = Unit
AllEven (u ∷ us) = (bit_and u 1 ≡ 0) × AllEven us

pub count-tokens :
    (u : ℕ) (f : InFlight)
    → count u (tokens f)
      ≡ count u (event_if f.timer_out 1) + count u (event_if f.park_out 3) + count u f.ops
count-tokens u f = omega (
  arith,
  count-append u (event_if f.timer_out 1 ++ event_if f.park_out 3) f.ops,
  count-append u (event_if f.timer_out 1) (event_if f.park_out 3),
)

pub count-Remove :
    {u : ℕ} {us vs : List ℕ} → Remove u us vs → (v : ℕ) → count v us ≡ count v vs + count v (u ∷ [])
count-Remove here v = omega arith
count-Remove (there r) v = omega (arith, count-Remove r v)

pub AllEven-Remove : {u : ℕ} {us vs : List ℕ} → Remove u us vs → AllEven us → AllEven vs
AllEven-Remove here e = e.1
AllEven-Remove (there r) e = (e.0, AllEven-Remove r e.1)

pub Remove-one : (u : ℕ) (us : List ℕ) → 1 ≤ count u us → (vs : List ℕ) × Remove u us vs
Remove-one u [] h = absurd (omega arith)
Remove-one u (x ∷ us) h = elim (ℕ_discrete x u) [
  | yes e ↦ (us, rw e here)
  | no n ↦ (let (vs, r) = Remove-one u us (omega (arith, count_other x u n)) in (x ∷ vs, there r))
]

odd_absent : (u : ℕ) (us : List ℕ) → bit_and u 1 ≢ 0 → AllEven us → count u us ≡ 0
odd_absent u [] odd e = refl
odd_absent u (x ∷ us) odd e = elim (ℕ_discrete x u) [
  | yes s ↦ absurd (odd (ap (λ (y : ℕ). bit_and y 1) (sym s) ∙ e.0))
  | no n ↦ omega (arith, count_other x u n, odd_absent u us odd e.1)
]

one_odd : bit_and 1 1 ≢ 0
one_odd e = omega arith

three_odd : bit_and 3 1 ≢ 0
three_odd e = omega arith

pub Live-AllEven : {D : Type 0} (h : ℕ → Option (Shared D)) (us : List ℕ) → Live h us → AllEven us
Live-AllEven h [] l = tt
Live-AllEven h (u ∷ us) l = (l.0.even, Live-AllEven h us l.2)

event_if_out : (b : Bool) (u : ℕ) → 1 ≤ count u (event_if b u) → b ≡ true
event_if_out true u h = refl
event_if_out false u h = absurd (omega arith)

event_if_other : (b : Bool) (u v : ℕ) → u ≢ v → count v (event_if b u) ≡ 0
event_if_other true u v h = count_other u v h
event_if_other false u v h = refl

event_if_clear :
    (b : Bool) (u v : ℕ)
    → b ≡ true
    → count v (event_if b u) ≡ count v (event_if false u) + count v (u ∷ [])
event_if_clear true u v e = omega arith
event_if_clear false u v e = absurd (false≢true e)

-- What `u` in flight may become.
abbrev pub OneLess : ℕ → InFlight → Type 0
OneLess u f =
    (g : InFlight) × Completes f u g
    × AllEven g.ops
    × ((v : ℕ) → count v (tokens f) ≡ count v (tokens g) + count v (u ∷ []))

timer_one : (f : InFlight) → AllEven f.ops → 1 ≤ count 1 (tokens f) → OneLess 1 f
timer_one f even h =
    let out : f.timer_out ≡ true = event_if_out f.timer_out 1 (
      omega (
        arith,
        count-tokens 1 f,
        event_if_other f.park_out 3 1 (λ e. omega arith),
        odd_absent 1 f.ops one_odd even,
      )) in
    let g : InFlight = record f { timer_out = false } in
    (
      g,
      timer out,
      even,
      λ v. omega (arith, count-tokens v f, count-tokens v g, event_if_clear f.timer_out 1 v out),
    )

park_one : (f : InFlight) → AllEven f.ops → 1 ≤ count 3 (tokens f) → OneLess 3 f
park_one f even h =
    let out : f.park_out ≡ true = event_if_out f.park_out 3 (
      omega (
        arith,
        count-tokens 3 f,
        event_if_other f.timer_out 1 3 (λ e. omega arith),
        odd_absent 3 f.ops three_odd even,
      )) in
    let g : InFlight = record f { park_out = false } in
    (
      g,
      park out,
      even,
      λ v. omega (arith, count-tokens v f, count-tokens v g, event_if_clear f.park_out 3 v out),
    )

op_one :
    (u : ℕ) (f : InFlight) → u ≢ 1 → u ≢ 3 → AllEven f.ops → 1 ≤ count u (tokens f) → OneLess u f
op_one u f n m even h =
    let there_is : 1 ≤ count u f.ops = omega (
      arith,
      count-tokens u f,
      event_if_other f.timer_out 1 u (λ e. n (sym e)),
      event_if_other f.park_out 3 u (λ e. m (sym e)),
    ) in
    let (vs, r) = Remove-one u f.ops there_is in
    let g : InFlight = record f { ops = vs } in
    (
      g,
      op r,
      AllEven-Remove r even,
      λ v. omega (arith, count-tokens v f, count-tokens v g, count-Remove r v),
    )

-- A `user_data` of which one is in flight may complete, and then there is one less of it.
pub completes_one : (u : ℕ) (f : InFlight) → AllEven f.ops → 1 ≤ count u (tokens f) → OneLess u f
completes_one u f even h = elim (ℕ_discrete u 1) [
  | yes e ↦ rw e (timer_one f even (rw e at h))
  | no n ↦ elim (ℕ_discrete u 3) [
    | yes e ↦ rw e (park_one f even (rw e at h))
    | no m ↦ op_one u f n m even h
  ]
]

-- What is in flight under an even `user_data` is operations.
pub count-tokens_even :
    (u : ℕ) (f : InFlight) → bit_and u 1 ≡ 0 → count u (tokens f) ≡ count u f.ops
count-tokens_even u f even = omega (
  arith,
  count-tokens u f,
  event_if_other f.timer_out 1 u (λ e. one_odd (ap (λ (x : ℕ). bit_and x 1) e ∙ even)),
  event_if_other f.park_out 3 u (λ e. three_odd (ap (λ (x : ℕ). bit_and x 1) e ∙ even)),
)

pub op_there : (u : ℕ) (f : InFlight) → bit_and u 1 ≡ 0 → 1 ≤ count u (tokens f) → 1 ≤ count u f.ops
op_there u f even h = omega (arith, count-tokens_even u f even)
