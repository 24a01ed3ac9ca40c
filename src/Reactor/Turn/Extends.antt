-- ===== src/Reactor/Turn/Extends.antt =====
-- What the reactor's own submissions change: entries are added to the ring and polls to what is in
-- flight, and nothing else of what the two share with the operations.
use rust_io_uring.Prelude.{
  ℕ, ◌+◌, ◌≡◌, refl, sym, ◌∙◌, ap, Bool, true, false, List, [], ◌∷◌, ◌++◌, map, count, count-append,
  arith,
}
use mathlib.Core.Bool.{false≢true}
use mathlib.Core.List.{map-append}
use rust_io_uring.Sys.Entry.{SubmissionEntry}
use rust_io_uring.Ring.Submission.{pending}
use rust_io_uring.Reactor.State.InFlight.{InFlight}
use rust_io_uring.Reactor.State.Tokens.{tokens, event_if, count-tokens}
use rust_io_uring.Reactor.Queue.{Inner}

abbrev pub entry_keys : List SubmissionEntry → List ℕ
entry_keys es = map (λ (e : SubmissionEntry). e.user_data) es

pub record Extends {D : Type 0} (i : Inner D) (g : InFlight) (j : Inner D) (h : InFlight)
    : Type 0 where
  pub heap : j.completion_state.heap ≡ i.completion_state.heap
  pub ops : h.ops ≡ g.ops
  pub cq : j.cq ≡ i.cq
  pub balance :
      (u : ℕ)
      → count u (entry_keys (pending j.sq)) + count u (tokens g)
        ≡ count u (entry_keys (pending i.sq)) + count u (tokens h)

pub Extends-same :
    {D : Type 0} (i j : Inner D) (g : InFlight)
    → j.completion_state.heap ≡ i.completion_state.heap
    → j.cq ≡ i.cq
    → pending j.sq ≡ pending i.sq
    → Extends i g j g
Extends-same i j g heap cq same = record {
  heap = heap;
  ops = refl;
  cq = cq;
  balance = λ u. ap (λ es. count u (entry_keys es) + count u (tokens g)) same;
}

pub Extends-trans :
    {D : Type 0} {i j l : Inner D} {f g h : InFlight}
    → Extends i f j g
    → Extends j g l h
    → Extends i f l h
Extends-trans a b = record {
  heap = b.heap ∙ a.heap;
  ops = b.ops ∙ a.ops;
  cq = b.cq ∙ a.cq;
  balance = λ u. omega (arith, a.balance u, b.balance u);
}

pub count-entry_keys_snoc :
    (u : ℕ) (es : List SubmissionEntry) (e : SubmissionEntry)
    → count u (entry_keys (es ++ e ∷ [])) ≡ count u (entry_keys es) + count u (e.user_data ∷ [])
count-entry_keys_snoc u es e =
    ap (count u) (map-append (λ (e : SubmissionEntry). e.user_data) es (e ∷ []))
    ∙ count-append u (entry_keys es) (e.user_data ∷ [])

event_if_set :
    (b : Bool) (u v : ℕ)
    → b ≡ false
    → count v (event_if true u) ≡ count v (event_if b u) + count v (u ∷ [])
event_if_set false u v e = omega arith
event_if_set true u v e = absurd (false≢true (sym e))

pub tokens_timer_out :
    (u : ℕ) (g : InFlight)
    → g.timer_out ≡ false
    → count u (tokens (record g { timer_out = true })) ≡ count u (tokens g) + count u (1 ∷ [])
tokens_timer_out u g e = omega (
  arith,
  count-tokens u g,
  count-tokens u (record g { timer_out = true }),
  event_if_set g.timer_out 1 u e,
)

pub tokens_park_out :
    (u : ℕ) (g : InFlight)
    → g.park_out ≡ false
    → count u (tokens (record g { park_out = true })) ≡ count u (tokens g) + count u (3 ∷ [])
tokens_park_out u g e = omega (
  arith,
  count-tokens u g,
  count-tokens u (record g { park_out = true }),
  event_if_set g.park_out 3 u e,
)
