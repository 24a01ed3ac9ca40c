-- ===== src/Reactor/Net/Wakers.antt =====
-- tokio-uring-reactor/src/net.rs: `poll_next` of `Incoming`, which takes a `Waker`. What the future of
-- readiness answers, but for pending, are its errors and its events.
use rust_io_uring.Prelude.{
  ℕ, zero, suc, ◌≡◌, refl, Bool, true, false, List, [], ◌∷◌, map, Option, some, Result, ok, err,
  Outcome, returned, out_of_fuel, ◌>>=◌,
}
use rust_io_uring.Reactor.Registration.{Async, ready, not_ready}
use rust_io_uring.Reactor.Registration.Wakers.{Poll, poll_ready, pending}
use rust_io_uring.Reactor.Net.{
  Accept, accepted, interrupted, would_block, accept_error, Event, event, poll_error, Incoming,
  Answer, wait_round, poll_round, poll_incoming,
}

pub record Listening (A E : Type 0) : Type 0 where
  pub accepts : List (Accept A E)
  pub blocked : Bool
  pub events : List (Result E (Unit {0}))

abbrev pub NextAnswer : Type 0 → Type 0 → Type 0
NextAnswer A E = Outcome (Listening A E × Poll (Option (Result E A)))

abbrev pub event_of : {E : Type 0} → Result E (Unit {0}) → Event E
event_of (ok _) = event
event_of (err e) = poll_error e

module _ {A E : Type 0} where
  unfoldable pub wait_next : (Listening A E → NextAnswer A E) → Listening A E → NextAnswer A E
  wait_next again i = elim i.events [
    | [] ↦ returned (i, pending)
    | ok _ ∷ es ↦ again (record i { events = es; blocked = false })
    | err e ∷ es ↦ returned (record i { events = es }, poll_ready (some (err e)))
  ]

  -- A round of the loop.
  unfoldable pub round_next : (Listening A E → NextAnswer A E) → Listening A E → NextAnswer A E
  round_next again i = elim i.blocked [
    | true ↦ wait_next again i
    | false ↦ elim i.accepts [
      | [] ↦ wait_next again (record i { blocked = true })
      | accepted a ∷ rest ↦ returned (record i { accepts = rest }, poll_ready (some (ok a)))
      | interrupted ∷ rest ↦ again (record i { accepts = rest })
      | would_block ∷ rest ↦ wait_next again (record i { accepts = rest; blocked = true })
      | accept_error e ∷ rest ↦ returned (record i { accepts = rest }, poll_ready (some (err e)))
    ]
  ]

  -- `poll_next`, with fuel for the rounds of the loop.
  unfoldable pub poll_next : ℕ → Listening A E → NextAnswer A E
  poll_next zero i = out_of_fuel
  poll_next (suc fuel) i = round_next (poll_next fuel) i

  -- The same answers from the stream of readiness, and the answer of `poll` as that of `poll_next`.
  abbrev pub streamed : Listening A E → Incoming A E
  streamed i = record { accepts = i.accepts; blocked = i.blocked; events = map event_of i.events }

  abbrev pub next_of : Result E (Async A) → Poll (Option (Result E A))
  next_of (ok (ready a)) = poll_ready (some (ok a))
  next_of (ok not_ready) = pending
  next_of (err e) = poll_ready (some (err e))

  -- The outcome of `poll` and that of `poll_next`, as the same type.
  abbrev pub from_poll : Answer A E → Outcome (Incoming A E × Poll (Option (Result E A)))
  from_poll x = (do p ← x; returned (p.0, next_of p.1))

  abbrev pub from_next : NextAnswer A E → Outcome (Incoming A E × Poll (Option (Result E A)))
  from_next y = (do p ← y; returned (streamed p.0, p.1))

  abbrev pub Agree : Answer A E → NextAnswer A E → Type 0
  Agree x y = from_poll x ≡ from_next y

  module _ (f : Incoming A E → Answer A E) (g : Listening A E → NextAnswer A E)
      (agree : (i : Listening A E) → Agree (f (streamed i)) (g i)) where
    wait-Agree :
        (accepts : List (Accept A E)) (blocked : Bool) (events : List (Result E (Unit {0})))
        → Agree
            (wait_round f
              (streamed (record { accepts = accepts; blocked = blocked; events = events })))
            (wait_next g (record { accepts = accepts; blocked = blocked; events = events }))
    unfolding wait_round wait_next
    wait-Agree as' b [] = refl
    wait-Agree as' b (ok _ ∷ es) = agree (record { accepts = as'; blocked = false; events = es })
    wait-Agree as' b (err e ∷ es) = refl

    round-Agree :
        (accepts : List (Accept A E)) (blocked : Bool) (events : List (Result E (Unit {0})))
        → Agree
            (poll_round f
              (streamed (record { accepts = accepts; blocked = blocked; events = events })))
            (round_next g (record { accepts = accepts; blocked = blocked; events = events }))
    unfolding poll_round round_next
    round-Agree as' true es = wait-Agree as' true es
    round-Agree [] false es = wait-Agree [] true es
    round-Agree (accepted a ∷ rest) false es = refl
    round-Agree (interrupted ∷ rest) false es =
        agree (record { accepts = rest; blocked = false; events = es })
    round-Agree (would_block ∷ rest) false es = wait-Agree rest true es
    round-Agree (accept_error e ∷ rest) false es = refl

  pub poll_next_lem :
      (fuel : ℕ) (i : Listening A E)
      → from_poll (poll_incoming fuel (streamed i)) ≡ from_next (poll_next fuel i)
  unfolding poll_incoming poll_next
  poll_next_lem zero i = refl
  poll_next_lem (suc fuel) i =
      round-Agree (poll_incoming fuel) (poll_next fuel) (poll_next_lem fuel) i.accepts i.blocked
        i.events
