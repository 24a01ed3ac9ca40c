-- ===== src/Sys/Priority/Codes.antt =====
-- Decoding an encoded priority, against the layout of its bits.
use rust_io_uring.Prelude.{ℕ, ◌+◌, ◌*◌, ◌/◌, ◌%◌, ◌^◌, ◌≡◌, ◌↔◌, ◌<◌, none, some, refl, arith}
use rust_io_uring.Sys.Priority.{
  IoPriorityLevel, level0, level1, level2, level3, level4, level5, level6, level7, level_byte,
  level_try_from, IoPriority, unset, realtime, best_effort, idle, try_from, encode,
}

level_try_from_iff :
    (v : ℕ) (l : IoPriorityLevel) → (level_try_from v ≡ some l) ↔ (v ≡ level_byte l)
unfolding level_try_from level_byte
level_try_from_iff v l = ground arith

level_try_from-eq-none : (v : ℕ) → (level_try_from v ≡ none) ↔ (7 < v)
unfolding level_try_from
level_try_from-eq-none v = ground arith

-- The three class bits, and what lies below them in a canonical encoding.
abbrev pub class_bits : IoPriority → ℕ
class_bits unset = 0
class_bits (realtime _) = 1
class_bits (best_effort _) = 2
class_bits idle = 3

abbrev pub data_bits : IoPriority → ℕ
data_bits unset = 0
data_bits (realtime l) = level_byte l
data_bits (best_effort l) = level_byte l
data_bits idle = 0

pub encode_parts : (p : IoPriority) → encode p ≡ class_bits p * 2 ^ 13 + data_bits p
unfolding encode level_byte
encode_parts unset = refl
encode_parts (realtime level0) = refl
encode_parts (realtime level1) = refl
encode_parts (realtime level2) = refl
encode_parts (realtime level3) = refl
encode_parts (realtime level4) = refl
encode_parts (realtime level5) = refl
encode_parts (realtime level6) = refl
encode_parts (realtime level7) = refl
encode_parts (best_effort level0) = refl
encode_parts (best_effort level1) = refl
encode_parts (best_effort level2) = refl
encode_parts (best_effort level3) = refl
encode_parts (best_effort level4) = refl
encode_parts (best_effort level5) = refl
encode_parts (best_effort level6) = refl
encode_parts (best_effort level7) = refl
encode_parts idle = refl

level_byte-lt : (l : IoPriorityLevel) → level_byte l < 8
unfolding level_byte
level_byte-lt l = ground arith

data_bits-lt : (p : IoPriority) → data_bits p < 8
data_bits-lt unset = omega arith
data_bits-lt (realtime l) = level_byte-lt l
data_bits-lt (best_effort l) = level_byte-lt l
data_bits-lt idle = omega arith

-- What an encoded number says: the class bits, and for the two classes with a level the low byte.
abbrev pub Encodes : ℕ → IoPriority → Type 0
Encodes e unset = e / 2 ^ 13 ≡ 0
Encodes e (realtime l) = (e / 2 ^ 13 ≡ 1) × (e % 2 ^ 8 ≡ level_byte l)
Encodes e (best_effort l) = (e / 2 ^ 13 ≡ 2) × (e % 2 ^ 8 ≡ level_byte l)
Encodes e idle = e / 2 ^ 13 ≡ 3

try_from-Encodes : (e : ℕ) (p : IoPriority) → try_from e ≡ some p → Encodes e p
unfolding try_from
try_from-Encodes e unset h = ground (arith)
try_from-Encodes e (realtime l) h = ground (arith, level_try_from_iff (e % 2 ^ 8) l)
try_from-Encodes e (best_effort l) h = ground (arith, level_try_from_iff (e % 2 ^ 8) l)
try_from-Encodes e idle h = ground (arith)

Encodes-try_from : (e : ℕ) (p : IoPriority) → Encodes e p → try_from e ≡ some p
unfolding try_from
Encodes-try_from e unset h = ground arith
Encodes-try_from e (realtime l) h = ground (arith, level_try_from_iff (e % 2 ^ 8) l)
Encodes-try_from e (best_effort l) h = ground (arith, level_try_from_iff (e % 2 ^ 8) l)
Encodes-try_from e idle h = ground arith

-- A number decodes to a priority exactly when its class bits and, at a class with a level, its low
-- byte are those of the priority: the other low bits are not looked at.
pub try_from_iff : (e : ℕ) (p : IoPriority) → (try_from e ≡ some p) ↔ Encodes e p
try_from_iff e p = (try_from-Encodes e p, Encodes-try_from e p)

encode-Encodes : (p : IoPriority) → Encodes (encode p) p
encode-Encodes unset = omega (arith, encode_parts unset)
encode-Encodes (realtime l) = omega (arith, encode_parts (realtime l), level_byte-lt l)
encode-Encodes (best_effort l) = omega (arith, encode_parts (best_effort l), level_byte-lt l)
encode-Encodes idle = omega (arith, encode_parts idle)

-- Every priority survives encoding and decoding.
pub try_from-encode : (p : IoPriority) → try_from (encode p) ≡ some p
try_from-encode p = (try_from_iff (encode p) p).1 (encode-Encodes p)

Encodes-class : (e : ℕ) (p : IoPriority) → Encodes e p → e / 2 ^ 13 ≡ class_bits p
Encodes-class e unset h = h
Encodes-class e (realtime l) h = h.0
Encodes-class e (best_effort l) h = h.0
Encodes-class e idle h = h

-- A number that decodes is encoded back to itself exactly when its 13 low bits are the priority's
-- data; otherwise decoding has dropped bits.
pub encode-try_from_iff :
    (e : ℕ) (p : IoPriority) → try_from e ≡ some p → (encode p ≡ e) ↔ (e % 2 ^ 13 ≡ data_bits p)
encode-try_from_iff e p h =
    let c = Encodes-class e p (try_from-Encodes e p h) in
    (λ q. omega (arith, encode_parts p, data_bits-lt p), λ q. omega (arith, encode_parts p, c))
