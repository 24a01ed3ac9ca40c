-- ===== src/Sys/Priority.antt =====
-- `IoPriorityLevel`, `IoPriority` and `EncodedIoPriority` of io-uring-sys/src/submission.rs and
-- lib.rs. An encoded priority is a 16-bit number: the class in the top three bits, and data below.
pub mod Codes
use rust_io_uring.Prelude.{ℕ, ◌*◌, ◌/◌, ◌%◌, ◌^◌, bit_or, Option, none, some, ◌==◌, if◌then◌else◌}
use mathlib.Core.Option

pub data IoPriorityLevel : Type 0 where
  level0 level1 level2 level3 level4 level5 level6 level7 : IoPriorityLevel

-- `l as u8`
unfoldable pub level_byte : IoPriorityLevel → ℕ
level_byte level0 = 0
level_byte level1 = 1
level_byte level2 = 2
level_byte level3 = 3
level_byte level4 = 4
level_byte level5 = 5
level_byte level6 = 6
level_byte level7 = 7

-- `IoPriorityLevel::try_from`
unfoldable pub level_try_from : ℕ → Option IoPriorityLevel
level_try_from v =
    if v == 0
    then some level0
    else if v == 1
    then some level1
    else if v == 2
    then some level2
    else if v == 3
    then some level3
    else if v == 4
    then some level4
    else if v == 5
    then some level5
    else if v == 6
    then some level6
    else if v == 7
    then some level7
    else none

-- `none` of the source is `unset` here.
pub data IoPriority : Type 0 where
  unset : IoPriority
  realtime : IoPriorityLevel → IoPriority
  best_effort : IoPriorityLevel → IoPriority
  idle : IoPriority

-- `IoPriority::try_from`: the class is `e.0 >> 13`, the level is read from `e.0 as u8`.
unfoldable pub try_from : ℕ → Option IoPriority
try_from e =
    if class == 0
    then some unset
    else if class == 1
    then Option.map realtime (level_try_from (e % 2 ^ 8))
    else if class == 2
    then Option.map best_effort (level_try_from (e % 2 ^ 8))
    else if class == 3
    then some idle
    else none
  where
    class : ℕ
    class = e / 2 ^ 13

-- `Into<EncodedIoPriority> for IoPriority`
unfoldable pub encode : IoPriority → ℕ
encode unset = 0 * 2 ^ 13
encode (realtime l) = bit_or (1 * 2 ^ 13) (level_byte l)
encode (best_effort l) = bit_or (2 * 2 ^ 13) (level_byte l)
encode idle = 3 * 2 ^ 13
