-- ===== src/Reactor/Net/Tests.antt =====
-- The theorem about the stream of connections at a listener that is interrupted before a connection.
use rust_io_uring.Prelude.{ℕ, ◌≡◌, arith, true, [], ◌∷◌, ◌++◌, Result, returned}
use rust_io_uring.Reactor.Registration.{Async}
use rust_io_uring.Reactor.Net.{accepted, interrupted, would_block, event, Incoming, poll_incoming}
use rust_io_uring.Reactor.Net.Poll.{connections, given, Waits, poll_incoming_lem}

abbrev listener : Incoming ℕ ℕ
listener = record {
  accepts = would_block ∷ interrupted ∷ accepted 7 ∷ accepted 8 ∷ [];
  blocked = true;
  events = event ∷ event ∷ [];
}

poll_incoming_lem_example :
    (j : Incoming ℕ ℕ) × (a : Result ℕ (Async ℕ)) × (poll_incoming 7 listener ≡ returned (j, a))
    × (7 ∷ 8 ∷ [] ≡ given a ++ connections j.accepts)
    × Waits a j
poll_incoming_lem_example = poll_incoming_lem 7 listener tt (omega arith)
