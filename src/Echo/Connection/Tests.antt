-- ===== src/Echo/Connection/Tests.antt =====
-- A connection whose second write is short, and that the peer closes.
use rust_io_uring.Prelude.{ℕ, ◌≡◌, [], ◌∷◌, List, ok}
use rust_io_uring.Echo.Connection.{Round, read, handle_connection}
use rust_io_uring.Echo.Connection.Prefix.{echoes, handle_connection-echoes}

abbrev rounds : List (Round ℕ)
rounds = read (1 ∷ 2 ∷ 3 ∷ []) (ok 3) ∷ read (4 ∷ 5 ∷ []) (ok 1) ∷ read [] (ok 0) ∷ []

handle_connection-echoes_example : handle_connection (9 ∷ 9 ∷ []) rounds ≡ echoes rounds
handle_connection-echoes_example = handle_connection-echoes (9 ∷ 9 ∷ []) rounds
