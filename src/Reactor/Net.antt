-- ===== src/Reactor/Net.antt =====
-- tokio-uring-reactor/src/net.rs: the stream of a listener's connections. What `accept` and the
-- stream of readiness answer, call by call, are lists that stand for the system; past their ends
-- `accept` blocks and no event comes. Wakers has the loop for wakers.
pub mod Poll
pub mod Wakers
mod Tests
use rust_io_uring.Prelude.{
  ℕ, zero, suc, Bool, true, false, not, List, [], ◌∷◌, Result, ok, err, Outcome, returned, panicked,
  out_of_fuel,
}
use rust_io_uring.Reactor.Registration.{Async, ready, not_ready}

-- The answers of `accept` to a listener that does not block.
pub data Accept (A E : Type 0) : Type 0 where
  accepted : A → Accept A E
  interrupted : Accept A E
  would_block : Accept A E
  accept_error : E → Accept A E

-- The answers of the stream of readiness but `NotReady`.
pub data Event (E : Type 0) : Type 0 where
  event : Event E
  end_of_stream : Event E
  poll_error : E → Event E

pub record Incoming (A E : Type 0) : Type 0 where
  pub accepts : List (Accept A E)
  pub blocked : Bool
  pub events : List (Event E)

abbrev pub Answer : Type 0 → Type 0 → Type 0
Answer A E = Outcome (Incoming A E × Result E (Async A))

module _ {A E : Type 0} where
  -- `TcpListener::incoming`
  unfoldable pub incoming : List (Accept A E) → List (Event E) → Incoming A E
  incoming accepts events = record { accepts = accepts; blocked = true; events = events }

  -- The second half of a round: the stream of readiness, and `again` for the next round.
  unfoldable pub wait_round : (Incoming A E → Answer A E) → Incoming A E → Answer A E
  wait_round again i = elim i.events [
    | [] ↦ returned (i, ok not_ready)
    | event ∷ es ↦ again (record i { events = es; blocked = false })
    | end_of_stream ∷ es ↦ panicked
    | poll_error e ∷ es ↦ returned (record i { events = es }, err e)
  ]

  -- A round of the loop.
  unfoldable pub poll_round : (Incoming A E → Answer A E) → Incoming A E → Answer A E
  poll_round again i = elim i.blocked [
    | true ↦ wait_round again i
    | false ↦ elim i.accepts [
      | [] ↦ wait_round again (record i { blocked = true })
      | accepted a ∷ rest ↦ returned (record i { accepts = rest }, ok (ready a))
      | interrupted ∷ rest ↦ again (record i { accepts = rest })
      | would_block ∷ rest ↦ wait_round again (record i { accepts = rest; blocked = true })
      | accept_error e ∷ rest ↦ returned (record i { accepts = rest }, err e)
    ]
  ]

  -- `Incoming::poll`, with fuel for the rounds of the loop.
  unfoldable pub poll_incoming : ℕ → Incoming A E → Answer A E
  poll_incoming zero i = out_of_fuel
  poll_incoming (suc fuel) i = poll_round (poll_incoming fuel) i
