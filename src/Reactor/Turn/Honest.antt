-- ===== src/Reactor/Turn/Honest.antt =====
-- Completions that answer what is in flight, each no more often than it is, may come in any order.
use rust_io_uring.Prelude.{
  ℕ, ◌+◌, ◌≤◌, ◌≡◌, ap, ◌∙◌, ◌++◌, count-append, List, [], ◌∷◌, map, count, count_self, arith,
}
use mathlib.Core.List.{map-append}
use rust_io_uring.Sys.Entry.{CompletionEntry}
use rust_io_uring.Reactor.State.InFlight.{InFlight}
use rust_io_uring.Reactor.State.Tokens.{tokens, AllEven, completes_one}
use rust_io_uring.Reactor.Turn.Drain.{CompletesAll, done, first}

abbrev pub keys : List CompletionEntry → List ℕ
keys cs = map (λ (c : CompletionEntry). c.user_data) cs

pub keys-CompletesAll :
    (cs : List CompletionEntry) (f : InFlight)
    → AllEven f.ops
    → ((u : ℕ) → count u (keys cs) ≤ count u (tokens f))
    → (g : InFlight) × CompletesAll f cs g
      × ((u : ℕ) → count u (tokens f) ≡ count u (tokens g) + count u (keys cs))
keys-CompletesAll [] f even h = (f, done, λ u. omega arith)
keys-CompletesAll (c ∷ cs) f even h =
    let some_out : 1 ≤ count c.user_data (tokens f) =
      omega (arith, h c.user_data, count_self c.user_data) in
    let (g, x, still, less) = completes_one c.user_data f even some_out in
    let (g', xs, less') = keys-CompletesAll cs g still (λ u. omega (arith, h u, less u)) in
    (g', first x xs, λ u. omega (arith, less u, less' u))

pub count-keys_snoc :
    (u : ℕ) (cs : List CompletionEntry) (c : CompletionEntry)
    → count u (keys (cs ++ c ∷ [])) ≡ count u (keys cs) + count u (c.user_data ∷ [])
count-keys_snoc u cs c =
    ap (count u) (map-append (λ (c : CompletionEntry). c.user_data) cs (c ∷ []))
    ∙ count-append u (keys cs) (c.user_data ∷ [])
