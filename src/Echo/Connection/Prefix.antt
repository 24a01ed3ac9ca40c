-- ===== src/Echo/Connection/Prefix.antt =====
-- What a connection sends back.
use rust_io_uring.Prelude.{ℕ, ◌≡◌, refl, ap, ap₂, List, [], ◌∷◌, ◌++◌, ok, err, length}
use rust_io_uring.Echo.Connection.{
  Round, read_error, read, Progress, waiting, ended, take, resize, drop, overwrite,
  handle_connection,
}

take-overwrite : (bytes buf : List ℕ) → take (length bytes) (bytes ++ buf) ≡ bytes
unfolding take
take-overwrite [] buf = refl
take-overwrite (b ∷ bs) buf = ap (λ l. b ∷ l) (take-overwrite bs buf)

module _ {E : Type 0} where
  -- What each round sends back if the bytes of the round's read are sent as far as its write goes.
  unfoldable pub echoes : List (Round E) → List (List ℕ) × Progress E
  echoes [] = ([], waiting)
  echoes (read_error e ∷ rest) = ([], ended (err e))
  echoes (read [] written ∷ rest) = ([], ended (ok tt))
  echoes (read (b ∷ bs) (err e) ∷ rest) = ([], ended (err e))
  echoes (read (b ∷ bs) (ok n) ∷ rest) =
      let (chunks, end) = echoes rest in (take n (b ∷ bs) ∷ chunks, end)

  -- Whatever the buffer of the last round holds, each write sends bytes of the read before it only, in
  -- their order from the first on, as many as it takes, and the connection ends with the first read
  -- of nothing or the first error.
  pub handle_connection-echoes :
      (storage : List ℕ) (rounds : List (Round E))
      → handle_connection storage rounds ≡ echoes rounds
  unfolding handle_connection echoes
  handle_connection-echoes storage [] = refl
  handle_connection-echoes storage (read_error e ∷ rest) = refl
  handle_connection-echoes storage (read [] written ∷ rest) = refl
  handle_connection-echoes storage (read (b ∷ bs) (err e) ∷ rest) = refl
  handle_connection-echoes storage (read (b ∷ bs) (ok n) ∷ rest) =
      let kept : take (length (b ∷ bs)) (overwrite (b ∷ bs) (resize 512 storage)) ≡ b ∷ bs =
        take-overwrite (b ∷ bs) (drop (length (b ∷ bs)) (resize 512 storage)) in
      ap₂ (λ buf p. (take n buf ∷ p.0, p.1)) kept (handle_connection-echoes _ rest)
