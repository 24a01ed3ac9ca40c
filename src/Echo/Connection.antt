-- ===== src/Echo/Connection.antt =====
-- echo-async/src/main.rs: `handle_connection`, the loop over the reads and writes of one connection.
-- What the reads and writes come to is the system's, a list with an entry for each round; past its end
-- the connection waits. A byte is a number.
pub mod Prefix
mod Tests
use rust_io_uring.Prelude.{
  ℕ, zero, suc, List, [], ◌∷◌, ◌++◌, Option, none, some, Result, ok, err, length,
}

-- The answers to the read and the write of a round. A read puts its bytes at the start of the buffer and
-- answers with their number; a time-out is an error of the read. A write takes some bytes.
pub data Round (E : Type 0) : Type 0 where
  read_error : E → Round E
  read : List ℕ → Result E ℕ → Round E

pub data Progress (E : Type 0) : Type 0 where
  waiting : Progress E
  ended : Result E (Unit {0}) → Progress E

-- `Vec::resize_with(n, Default::default)` and `Vec::truncate`
unfoldable pub resize : ℕ → List ℕ → List ℕ
resize zero xs = []
resize (suc n) [] = 0 ∷ resize n []
resize (suc n) (x ∷ xs) = x ∷ resize n xs

unfoldable pub take : ℕ → List ℕ → List ℕ
take zero xs = []
take (suc n) [] = []
take (suc n) (x ∷ xs) = x ∷ take n xs

abbrev pub drop : ℕ → List ℕ → List ℕ
drop zero xs = xs
drop (suc n) [] = []
drop (suc n) (x ∷ xs) = drop n xs

-- The system writes the bytes over the start of the buffer.
abbrev pub overwrite : List ℕ → List ℕ → List ℕ
overwrite bytes buf = bytes ++ drop (length bytes) buf

module _ {E : Type 0} where
  -- The loop, with the buffer of the round before (`storage`): the chunks that the writes have taken,
  -- and how it ends.
  unfoldable pub handle_connection : List ℕ → List (Round E) → List (List ℕ) × Progress E
  unfolding resize take
  handle_connection storage [] = ([], waiting)
  handle_connection storage (read_error e ∷ rest) = ([], ended (err e))
  handle_connection storage (read [] written ∷ rest) = ([], ended (ok tt))
  handle_connection storage (read (b ∷ bs) (err e) ∷ rest) = ([], ended (err e))
  handle_connection storage (read (b ∷ bs) (ok n) ∷ rest) =
      let buf : List ℕ = take (length (b ∷ bs)) (overwrite (b ∷ bs) (resize 512 storage)) in
      let (chunks, end) = handle_connection buf rest in (take n buf ∷ chunks, end)
