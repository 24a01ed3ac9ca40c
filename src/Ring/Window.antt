-- ===== src/Ring/Window.antt =====
-- The entries of a ring from a position on: `window at p n` is what `at` gives at `p` and the
-- `n - 1` positions behind it, going round at 2 ^ 32.
use rust_io_uring.Prelude.{
  ℕ, zero, suc, ◌-◌, ◌<◌, ◌≡◌, ◌≢◌, refl, sym, ap, ap₂, ◌∙◌, arith, List, [], ◌∷◌, ◌++◌, length,
  wrapping_add, u32_mod,
}

next_position : (p n : ℕ) → wrapping_add (wrapping_add p 1) n ≡ wrapping_add p (suc n)
next_position p n = omega arith

module _ {ℓ} {A : Type ℓ} where
  unfoldable pub window : (ℕ → A) → ℕ → ℕ → List A
  window at p zero = []
  window at p (suc n) = at p ∷ window at (wrapping_add p 1) n

  pub length-window : (at : ℕ → A) (p n : ℕ) → length (window at p n) ≡ n
  unfolding window
  length-window at p zero = refl
  length-window at p (suc n) = ap suc (length-window at (wrapping_add p 1) n)

  pub window_of_ne_zero :
      (at : ℕ → A) (p n : ℕ) → n ≢ 0 → window at p n ≡ at p ∷ window at (wrapping_add p 1) (n - 1)
  unfolding window
  window_of_ne_zero at p zero h = absurd (h refl)
  window_of_ne_zero at p (suc n) h = ap (λ k. at p ∷ window at (wrapping_add p 1) k) (omega arith)

  -- One more position at the end.
  pub window_snoc :
      (at : ℕ → A) (p n : ℕ)
      → p < u32_mod
      → window at p (suc n) ≡ window at p n ++ at (wrapping_add p n) ∷ []
  unfolding window
  window_snoc at p zero h = ap (λ q. at q ∷ []) (omega arith)
  window_snoc at p (suc n) h =
      ap (λ l. at p ∷ l)
        (window_snoc at (wrapping_add p 1) n (omega arith)
          ∙ ap (λ q. window at (wrapping_add p 1) n ++ at q ∷ []) (next_position p n))

  pub window_congr :
      (at at' : ℕ → A) (p n : ℕ)
      → ((i : ℕ) → i < n → at (wrapping_add p i) ≡ at' (wrapping_add p i))
      → p < u32_mod
      → window at p n ≡ window at' p n
  unfolding window
  window_congr at at' p zero h b = refl
  window_congr at at' p (suc n) h b =
      ap₂ ◌∷◌ (ap at zero_on ∙ h 0 (omega arith) ∙ ap at' (sym zero_on)) (
        window_congr at at' (wrapping_add p 1) n
          (λ i lt.
            ap at (next_position p i) ∙ h (suc i) (omega arith) ∙ ap at' (sym (next_position p i)))
          (omega arith))
    where
      zero_on : p ≡ wrapping_add p 0
      zero_on = omega arith
