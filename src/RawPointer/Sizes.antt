-- ===== src/RawPointer/Sizes.antt =====
-- The size in bytes of the list behind a list pointer.
use go_capnp.Base.{ℕ, ◌+◌, ◌-◌, ◌*◌, ◌/◌, ◌%◌, ◌^◌, ◌≤◌, ◌<◌, ◌≡◌, ◌≢◌, ◌⊎◌, true, false, arith}
use go_capnp.Base.{◌==◌, if◌then◌else◌}
use go_capnp.Base.Int.{pos}
use go_capnp.Base.Result.{ok}
use go_capnp.Address.{max_segment_size}
use go_capnp.RawPointer.{total_list_size, num_list_elements, void_list, bit1_list, byte1_list}
use go_capnp.RawPointer.{byte2_list, byte4_list, composite_list}
use go_capnp.RawPointer.Fields.{list_type_lem}

-- The encoding's sizes: n elements of type t, or n words and a tag word for composite lists.
abbrev pub list_bytes : ℕ → ℕ → ℕ
list_bytes t n =
    if t == void_list
    then 0
    else if t == bit1_list
    then (n + 7) / 8
    else if t == byte1_list
    then n
    else if t == byte2_list
    then n * 2
    else if t == byte4_list
    then n * 4
    else if t == composite_list
    then (n + 1) * 8
    else n * 8

pub num_list_elements_lem : (p : ℕ) → p < 2 ^ 64 → num_list_elements p ≡ pos (p / 2 ^ 35)
unfolding num_list_elements
num_list_elements_lem p h = ground arith

-- `totalListSize` never panics. It gives the encoding's size of the list, within a segment, for
-- all but a composite list of 2 ^ 29 - 1 words; that one does not fit a segment.
pub total_list_size_lem :
    (p : ℕ)
    → p < 2 ^ 64
    → let t = p / 2 ^ 32 % 8 in
      let n = p / 2 ^ 35 in
      ((total_list_size p ≡ ok (list_bytes t n, true))
        × (list_bytes t n ≤ max_segment_size)
        × ((t ≢ composite_list) ⊎ (n ≢ 2 ^ 29 - 1)))
      ⊎ ((total_list_size p ≡ ok (0xffff_ffff, false)) × (t ≡ composite_list) × (n ≡ 2 ^ 29 - 1))
unfolding total_list_size
total_list_size_lem p h = ground (arith, list_type_lem p, num_list_elements_lem p)
