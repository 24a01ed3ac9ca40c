-- ===== src/Ring/Slots.antt =====
-- Ring positions. A position is a `u32` that goes round at 2 ^ 32; its slot is its `k` low bits,
-- in a ring of 2 ^ k slots.
use native.Mathlib.Nat.{
  mod-mod_of_dvd, mod-eq_of_lt, mod-eq-sub-mod, mod-lt, one-le-pow, add-zero, add-suc, pow-suc,
  add-mod_right, mod-add-mod,
}
use Prim.Native.Nat.{◌∣◌}
use rust_io_uring.Prelude.{
  ℕ, zero, suc, ◌+◌, ◌-◌, ◌*◌, ◌%◌, ◌^◌, ◌≤◌, ◌<◌, ◌≡◌, ◌≢◌, ◌⊎◌, inl, inr, sym, ap, ◌∙◌, arith,
  dec_lt, u32_mod, wrapping_add, wrapping_sub, Bool, true, ◌==◌, ==_iff, bit_and, bit_xor, xor_mask,
  ◌↔◌,
}

two_pow_mul : (k j : ℕ) → 2 ^ k * 2 ^ j ≡ 2 ^ (k + j)
two_pow_mul k zero = rw add-zero (omega arith)
two_pow_mul k (suc j) = rw add-suc (
    omega (
      arith,
      pow-suc 2 j,
      pow-suc 2 (k + j),
      ap (λ (t : ℕ). t * 2) (two_pow_mul k j),
      ap (λ (t : ℕ). 2 ^ k * t) (pow-suc 2 j),
    ))

-- A ring of 2 ^ k slots fits the positions.
pub dvd-u32_mod : (k : ℕ) → k ≤ 32 → 2 ^ k ∣ u32_mod
dvd-u32_mod k h =
    ∣ (2 ^ (32 - k), ap (λ (j : ℕ). 2 ^ j) {x = 32} (omega arith) ∙ sym (two_pow_mul k (32 - k))) ∣₁

-- Going round at 2 ^ 32 does not change the slot.
pub slot_wrap : (k a : ℕ) → k ≤ 32 → a % u32_mod % 2 ^ k ≡ a % 2 ^ k
slot_wrap k a h = mod-mod_of_dvd (2 ^ k) a (dvd-u32_mod k h)

-- `d` steps on, at most the size `n` of the ring, the slot is the same at 0 and at `n` steps only.
same_slot : (n b d : ℕ) → 0 < n → d ≤ n → (b + d) % n ≡ b % n → (d ≡ 0) ⊎ (d ≡ n)
same_slot n b d pos small e = elim (dec_lt (b % n + d) n) [
  | yes p ↦ inl (omega (arith, mod-eq_of_lt p, mod-add-mod b n d))
  | no p ↦ inr (
      omega (
        arith,
        mod-lt b pos,
        mod-add-mod b n d,
        mod-eq-sub-mod {n = b % n + d} {m = n} (omega arith),
        mod-eq_of_lt {n = b % n + d - n} {m = n} (omega (arith, mod-lt b pos)),
      ))
]

pub wrapping_add-sub : (a b : ℕ) → a < u32_mod → b < u32_mod → wrapping_add b (wrapping_sub a b) ≡ a
wrapping_add-sub a b ha hb = omega arith

-- `0 == ((a ^ b) & mask)`: the two positions point to the same entry.
unfoldable pub same_entry : ℕ → ℕ → ℕ → Bool
same_entry a b mask = 0 == bit_and (bit_xor a b) mask

same_entry_mask : (k a b : ℕ) → (same_entry a b (2 ^ k - 1) ≡ true) ↔ (a % 2 ^ k ≡ b % 2 ^ k)
unfolding same_entry
same_entry_mask k a b = (
  λ e. (xor_mask k a b).0 (sym ((==_iff 0 _).0 e)),
  λ e. (==_iff 0 _).1 (sym ((xor_mask k a b).1 e)),
)

-- The slot of the position `d` steps on from `b`.
pub slot_add : (k b d : ℕ) → k ≤ 32 → wrapping_add b d % 2 ^ k ≡ (b + d) % 2 ^ k
slot_add k b d h = slot_wrap k (b + d) h

-- Between positions at most the ring's size apart, the same entry means empty or full.
pub same_entry_iff :
    (k head tail : ℕ)
    → k ≤ 31
    → head < u32_mod
    → tail < u32_mod
    → wrapping_sub tail head ≤ 2 ^ k
    → (same_entry head tail (2 ^ k - 1) ≡ true)
      ↔ ((wrapping_sub tail head ≡ 0) ⊎ (wrapping_sub tail head ≡ 2 ^ k))
same_entry_iff k head tail small hh ht bound = (
  λ e.
      same_slot (2 ^ k) head d (one-le-pow k 2 (omega arith)) bound
        (sym along ∙ sym ((same_entry_mask k head tail).0 e)),
  λ e. (same_entry_mask k head tail).1 (sym (along ∙ round e)),
)
  where
    d : ℕ
    d = wrapping_sub tail head

    along : tail % 2 ^ k ≡ (head + d) % 2 ^ k
    along =
        ap (λ (t : ℕ). t % 2 ^ k) (sym (wrapping_add-sub tail head ht hh))
        ∙ slot_add k head d (omega arith)

    round : (d ≡ 0) ⊎ (d ≡ 2 ^ k) → (head + d) % 2 ^ k ≡ head % 2 ^ k
    round (inl e) = ap (λ (t : ℕ). t % 2 ^ k) {x = head + d} (omega arith)
    round (inr e) = ap (λ (t : ℕ). (head + t) % 2 ^ k) e ∙ add-mod_right head (2 ^ k)

-- Fewer than the ring's size steps on, and at least one, the entry is another.
pub slot_ne : (k p d : ℕ) → k ≤ 32 → 0 < d → d < 2 ^ k → wrapping_add p d % 2 ^ k ≢ p % 2 ^ k
slot_ne k p d small pos lt e =
    elim (same_slot (2 ^ k) p d (one-le-pow k 2 (omega arith)) (omega arith)
      (sym (slot_add k p d small) ∙ e)) [ inl z ↦ omega arith | inr f ↦ omega arith ]
