-- ===== src/Prelude/Bits.antt =====
-- Masks of low bits, as remainders by a power of two, at every width.
use Prim.Native.Nat.{ℕ, zero, suc, ◌+◌, ◌-◌, ◌*◌, ◌/◌, ◌%◌, ◌^◌, ◌≤◌, ◌<◌, min}
use Prim.Native.Nat.{bit_and, bit_xor, digits, differ, bit_and-bitwise, bit_xor-bitwise}
use mathlib.Core.Path.{◌≡◌, sym, ap, ◌∙◌, subst}
use mathlib.Core.Logic.{◌↔◌}
use native.Mathlib.Nat.{
  pow-suc, one-le-pow, div-add-mod, add-mul-mod_self_left, mod-eq_of_lt, mod-lt, zero-mod,
}
use native.Mathlib.Omega.{arith}

-- The last digit of a remainder by `p * 2`.
mod-double : (m p : ℕ) → 0 < p → m % (p * 2) ≡ m / 2 % p * 2 + m % 2
mod-double m p h =
    ap (λ (x : ℕ). x % (p * 2)) split
    ∙ add-mul-mod_self_left (m / 2 % p * 2 + m % 2) (p * 2) (m / 2 / p)
    ∙ mod-eq_of_lt (omega (arith, mod-lt (m / 2) h))
  where
    split : m ≡ m / 2 % p * 2 + m % 2 + p * 2 * (m / 2 / p)
    split = omega (arith, div-add-mod (m / 2) p)

mod-pow-suc : (m k : ℕ) → m % 2 ^ suc k ≡ m / 2 % 2 ^ k * 2 + m % 2
mod-pow-suc m k =
    ap (λ (x : ℕ). m % x) (pow-suc 2 k) ∙ mod-double m (2 ^ k) (one-le-pow k 2 (omega arith))

and_digits-mask : (n k a : ℕ) → a ≤ n → digits (λ b. 0) min n a (2 ^ k - 1) ≡ a % 2 ^ k
and_digits-mask zero k zero h = sym (zero-mod (2 ^ k))
and_digits-mask zero k (suc a) h = absurd (omega arith)
and_digits-mask (suc n) k zero h = sym (zero-mod (2 ^ k))
and_digits-mask (suc n) zero (suc a) h =
    omega (arith, and_digits-mask n zero (suc a / 2) (omega arith))
and_digits-mask (suc n) (suc k) (suc a) h =
    ground
      (arith, pow-suc 2 k, one-le-pow k 2, mod-pow-suc (suc a) k, and_digits-mask n k (suc a / 2))

-- `a & (2 ^ k - 1)` is the remainder by `2 ^ k`.
pub bit_and_mask : (k a : ℕ) → bit_and a (2 ^ k - 1) ≡ a % 2 ^ k
bit_and_mask k a = bit_and-bitwise a (2 ^ k - 1) ∙ and_digits-mask a k a (omega arith)

and_digits_le : (n a b : ℕ) → digits (λ b. 0) min n a b ≤ b
and_digits_le zero a b = omega arith
and_digits_le (suc n) zero b = omega arith
and_digits_le (suc n) (suc a) zero = omega (arith, and_digits_le n (suc a / 2) 0)
and_digits_le (suc n) (suc a) (suc b) = ground (arith, and_digits_le n (suc a / 2) (suc b / 2))

-- A mask bounds what it lets through.
pub bit_and_le : (a b : ℕ) → bit_and a b ≤ b
bit_and_le a b = subst (λ (x : ℕ). x ≤ b) (sym (bit_and-bitwise a b)) (and_digits_le a a b)

differ_cases : (x y : ℕ) → x < 2 → y < 2 → (differ x y < 2) × ((differ x y ≡ 0) ↔ (x ≡ y))
differ_cases zero zero p q = grind arith
differ_cases zero (suc y) p q = grind arith
differ_cases (suc x) zero p q = grind arith
differ_cases (suc zero) (suc zero) p q = grind arith
differ_cases (suc zero) (suc (suc y)) p q = absurd (omega arith)
differ_cases (suc (suc x)) (suc y) p q = absurd (omega arith)

-- One more low digit on both sides of the equivalence.
low_digit :
    (k x d a b : ℕ)
    → d < 2
    → (d ≡ 0) ↔ (a % 2 ≡ b % 2)
    → (x % 2 ^ k ≡ 0) ↔ (a / 2 % 2 ^ k ≡ b / 2 % 2 ^ k)
    → ((x * 2 + d) % 2 ^ suc k ≡ 0) ↔ (a % 2 ^ suc k ≡ b % 2 ^ suc k)
low_digit k x d a b small last rest =
    rw (mod-pow-suc a k, mod-pow-suc b k, mod-pow-suc (x * 2 + d) k, halve)
      (
        λ e. omega (arith, last.0 (omega arith), rest.0 (omega arith)),
        λ e. omega (arith, last.1 (omega arith), rest.1 (omega arith)),
      )
  where
    halve : (x * 2 + d) / 2 ≡ x
    halve = omega arith

xor_digits-low :
    (n k a b : ℕ) → a ≤ n → (digits (λ y. y) differ n a b % 2 ^ k ≡ 0) ↔ (a % 2 ^ k ≡ b % 2 ^ k)
xor_digits-low zero k zero b h = rw (zero-mod (2 ^ k)) (sym, sym)
xor_digits-low zero k (suc a) b h = absurd (omega arith)
xor_digits-low (suc n) k zero b h = rw (zero-mod (2 ^ k)) (sym, sym)
xor_digits-low (suc n) zero (suc a) b h = (λ _. omega arith, λ _. omega arith)
xor_digits-low (suc n) (suc k) (suc a) b h =
    low_digit k _ _ (suc a) b last.0 last.1 (xor_digits-low n k (suc a / 2) (b / 2) (omega arith))
  where
    last :
        (differ (suc a % 2) (b % 2) < 2) × ((differ (suc a % 2) (b % 2) ≡ 0) ↔ (suc a % 2 ≡ b % 2))
    last = differ_cases (suc a % 2) (b % 2) (omega arith) (omega arith)

-- The test `(a ^ b) & (2 ^ k - 1) == 0` says that `a` and `b` agree in their `k` low bits.
pub xor_mask : (k a b : ℕ) → (bit_and (bit_xor a b) (2 ^ k - 1) ≡ 0) ↔ (a % 2 ^ k ≡ b % 2 ^ k)
xor_mask k a b =
    rw (bit_and_mask k (bit_xor a b), bit_xor-bitwise a b) (xor_digits-low a k a b (omega arith))
