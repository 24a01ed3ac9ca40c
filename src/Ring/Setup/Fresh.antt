-- ===== src/Ring/Setup/Fresh.antt =====
-- Rings as the kernel sets them up.
use rust_io_uring.Prelude.{
  ℕ, zero, suc, ◌-◌, ◌^◌, ◌≤◌, ◌<◌, ◌≡◌, ◌≢◌, refl, sym, ◌∙◌, ap, arith, true, false, List, length,
  set, get_or, u32_mod, bit_and, bit_and_mask, length-set, get_or-set_self, get_or-set_ne,
  ℕ_discrete,
}
use native.Mathlib.Nat.{one-le-pow, mod_self}
use rust_io_uring.Ring.Setup.{Mapped, sizes_agree, init_array}

pub length-init_array : (n : ℕ) (array : List ℕ) → length (init_array n array) ≡ length array
unfolding init_array
length-init_array zero array = refl
length-init_array (suc n) array = length-set (init_array n array) n n ∙ length-init_array n array

pub get_or-init_array :
    (n : ℕ) (array : List ℕ) (i : ℕ)
    → i < n
    → n ≤ length array
    → get_or (init_array n array) i 0 ≡ i
unfolding init_array
get_or-init_array zero array i lt le = absurd (omega arith)
get_or-init_array (suc n) array i lt le = elim (ℕ_discrete n i) [
  | yes e ↦
      ap (λ (j : ℕ). get_or (set (init_array n array) n n) j 0) (sym e)
      ∙ get_or-set_self (init_array n array) n n 0 (omega (arith, length-init_array n array))
      ∙ e
  | no ne ↦
      get_or-set_ne (init_array n array) n i n 0 ne
      ∙ get_or-init_array n array i (omega arith) (omega arith)
]

power_low : (k : ℕ) → bit_and (2 ^ k) (2 ^ k - 1) ≡ 0
power_low k = bit_and_mask k (2 ^ k) ∙ mod_self (2 ^ k)

-- The memory of a fresh ring of 2 ^ k slots: empty, with the mask of its size.
pub record IsFresh {E : Type 0} (k : ℕ) (m : Mapped E) : Type 0 where
  pub small : k ≤ 31
  pub size : m.ring_entries ≡ 2 ^ k
  pub mask : m.ring_mask ≡ 2 ^ k - 1
  pub slots : length m.entries ≡ 2 ^ k
  pub head_word : m.head < u32_mod
  pub empty : m.tail ≡ m.head

pub sizes_agree-IsFresh :
    {E : Type 0} {k : ℕ} (m : Mapped E) → IsFresh k m → sizes_agree (2 ^ k) m ≡ true
unfolding sizes_agree
sizes_agree-IsFresh {k = k} m f = rw (f.size, f.mask, power_low k) (ground (arith, one-le-pow k 2))

pub sizes_agree-other :
    {E : Type 0} {k : ℕ} (m : Mapped E) (n : ℕ) → IsFresh k m → n ≢ 2 ^ k → sizes_agree n m ≡ false
unfolding sizes_agree
sizes_agree-other m n f other = rw (f.size) (ground arith)
