-- ===== src/Reactor/Net/Poll.antt =====
-- What a poll of the stream of connections comes to.
use rust_io_uring.Prelude.{
  ℕ, zero, suc, ◌+◌, ◌<◌, ◌≡◌, refl, arith, Bool, true, false, List, [], ◌∷◌, ◌++◌, Result, ok, err,
  Outcome, returned, length,
}
use rust_io_uring.Reactor.Registration.{Async, ready, not_ready}
use rust_io_uring.Reactor.Net.{
  Accept, accepted, interrupted, would_block, accept_error, Event, event, end_of_stream, poll_error,
  Incoming, poll_incoming, poll_round, wait_round,
}

-- The stream of readiness does not end.
abbrev pub NeverEnds : {E : Type 0} → List (Event E) → Type 0
NeverEnds [] = Unit
NeverEnds (event ∷ es) = NeverEnds es
NeverEnds (end_of_stream ∷ es) = ⊥
NeverEnds (poll_error e ∷ es) = NeverEnds es

module _ {A E : Type 0} where
  -- The connections among the answers of `accept`, and in the answer of a poll.
  abbrev pub connections : List (Accept A E) → List A
  connections [] = []
  connections (accepted a ∷ rest) = a ∷ connections rest
  connections (interrupted ∷ rest) = connections rest
  connections (would_block ∷ rest) = connections rest
  connections (accept_error e ∷ rest) = connections rest

  abbrev pub given : Result E (Async A) → List A
  given (ok (ready a)) = a ∷ []
  given (ok not_ready) = []
  given (err e) = []

  -- A task that is told to wait is registered for the next event.
  abbrev pub Waits : Result E (Async A) → Incoming A E → Type 0
  Waits (ok (ready a)) j = Unit
  Waits (ok not_ready) j = (j.blocked ≡ true) × (j.events ≡ [])
  Waits (err e) j = Unit

  -- What a poll from `i` comes to.
  pub Polled : Incoming A E → Outcome (Incoming A E × Result E (Async A)) → Type 0
  Polled i r =
      (j : Incoming A E) × (a : Result E (Async A)) × (r ≡ returned (j, a))
      × (connections i.accepts ≡ given a ++ connections j.accepts)
      × Waits a j

  poll_go :
      (fuel : ℕ) (accepts : List (Accept A E)) (blocked : Bool) (events : List (Event E))
      → NeverEnds events
      → length accepts + length events < fuel
      → Polled
          (record { accepts = accepts; blocked = blocked; events = events })
          (poll_incoming fuel (record { accepts = accepts; blocked = blocked; events = events }))
  unfolding Polled poll_incoming poll_round wait_round
  poll_go zero accepts blocked events n lt = absurd (omega arith)
  poll_go (suc fuel) accepts true [] n lt = (_, ok not_ready, refl, refl, (refl, refl))
  poll_go (suc fuel) accepts true (event ∷ es) n lt = poll_go fuel accepts false es n (omega arith)
  poll_go (suc fuel) accepts true (end_of_stream ∷ es) n lt = absurd n
  poll_go (suc fuel) accepts true (poll_error e ∷ es) n lt = (_, err e, refl, refl, tt)
  poll_go (suc fuel) [] false [] n lt = (_, ok not_ready, refl, refl, (refl, refl))
  poll_go (suc fuel) [] false (event ∷ es) n lt = poll_go fuel [] false es n (omega arith)
  poll_go (suc fuel) [] false (end_of_stream ∷ es) n lt = absurd n
  poll_go (suc fuel) [] false (poll_error e ∷ es) n lt = (_, err e, refl, refl, tt)
  poll_go (suc fuel) (accepted a ∷ rest) false events n lt = (_, ok (ready a), refl, refl, tt)
  poll_go (suc fuel) (interrupted ∷ rest) false events n lt =
      poll_go fuel rest false events n (omega arith)
  poll_go (suc fuel) (accept_error e ∷ rest) false events n lt = (_, err e, refl, refl, tt)
  poll_go (suc fuel) (would_block ∷ rest) false [] n lt =
      (_, ok not_ready, refl, refl, (refl, refl))
  poll_go (suc fuel) (would_block ∷ rest) false (event ∷ es) n lt =
      poll_go fuel rest false es n (omega arith)
  poll_go (suc fuel) (would_block ∷ rest) false (end_of_stream ∷ es) n lt = absurd n
  poll_go (suc fuel) (would_block ∷ rest) false (poll_error e ∷ es) n lt =
      (_, err e, refl, refl, tt)

  -- Where the stream of readiness does not end, and with fuel for more rounds than there are answers of
  -- the system, a poll of the stream of connections returns. It gives the next connection that the
  -- system has accepted, or none, and loses no connection. Where it tells the task to wait, it will
  -- poll for readiness first next time, and the stream of readiness has just told the task to wait.
  pub poll_incoming_lem :
      (fuel : ℕ) (i : Incoming A E)
      → NeverEnds i.events
      → length i.accepts + length i.events < fuel
      → (j : Incoming A E) × (a : Result E (Async A)) × (poll_incoming fuel i ≡ returned (j, a))
        × (connections i.accepts ≡ given a ++ connections j.accepts)
        × Waits a j
  unfolding Polled
  poll_incoming_lem fuel i n lt = poll_go fuel i.accepts i.blocked i.events n lt
