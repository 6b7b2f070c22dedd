-- ===== src/RawPointer.antt =====
-- rawpointer.go: the 64-bit encoding of pointers. A rawPointer is a number below 2 ^ 64, a
-- pointerOffset an integer, and the kinds of pointers and lists are the source's constants.
pub mod Fields
pub mod RoundTrip
pub mod Landing
pub mod Sizes
mod Tests
use go_capnp.Base.{ℕ, ◌+◌, ◌-◌, ◌*◌, ◌/◌, ◌%◌, ◌^◌, Bool, true, false, bit_and, bit_or, u32, u64}
use go_capnp.Base.{u16, ◌<<◌, ◌>>◌, ◌==◌, if◌then◌else◌}
use go_capnp.Base.Bits.{and_not}
use go_capnp.Base.Int.{ℤ, pos, negsuc, ◌+ℤ◌, to_u32, to_u64, to_i32, shr_two, quot, wrap_i32}
use go_capnp.Base.Result.{Result, ok, panic, ◌>>=◌}
use go_capnp.Address.{word_size, element, times, times_unchecked, total_size, ObjectSize}
use go_capnp.Address.{data_word_count}

-- pointerOffset's `resolve`.
unfoldable pub resolve : ℤ → ℕ → ℕ × Bool
unfolding element
resolve off base = element base off word_size

-- The differences are of addresses, which wrap at 2 ^ 32.
unfoldable pub near_pointer_offset : ℕ → ℕ → ℤ
unfolding to_i32
near_pointer_offset paddr addr =
    to_i32 (u32 (addr / word_size + 2 ^ 32 - paddr / word_size + 2 ^ 32 - 1))

abbrev pub struct_pointer : ℕ
struct_pointer = 0

abbrev pub list_pointer : ℕ
list_pointer = 1

abbrev pub far_pointer : ℕ
far_pointer = 2

abbrev pub double_far_pointer : ℕ
double_far_pointer = 6

abbrev pub other_pointer : ℕ
other_pointer = 3

abbrev pub void_list : ℕ
void_list = 0

abbrev pub bit1_list : ℕ
bit1_list = 1

abbrev pub byte1_list : ℕ
byte1_list = 2

abbrev pub byte2_list : ℕ
byte2_list = 3

abbrev pub byte4_list : ℕ
byte4_list = 4

abbrev pub byte8_list : ℕ
byte8_list = 5

abbrev pub pointer_list : ℕ
pointer_list = 6

abbrev pub composite_list : ℕ
composite_list = 7

unfoldable pub raw_struct_pointer : ℤ → ObjectSize → Result ℕ
unfolding ◌>>=◌ to_u32 to_u64 data_word_count
raw_struct_pointer off sz = do
  words ← data_word_count sz
  ok (
      bit_or (bit_or (bit_or struct_pointer (u32 (to_u32 off << 2))) (u64 (to_u64 words << 32)))
        (u64 (sz.pointer_count << 48)))

unfoldable pub raw_list_pointer : ℤ → ℕ → ℤ → ℕ
unfolding to_u32 to_u64
raw_list_pointer off list_type length =
    bit_or (bit_or (bit_or list_pointer (u32 (to_u32 off << 2))) (u64 (list_type << 32)))
      (u64 (to_u64 length << 35))

unfoldable pub raw_interface_pointer : ℕ → ℕ
raw_interface_pointer capability = bit_or other_pointer (u64 (capability << 32))

unfoldable pub raw_far_pointer : ℕ → ℕ → ℕ
unfolding and_not
raw_far_pointer seg_id off = bit_or (bit_or far_pointer (and_not off 7)) (u64 (seg_id << 32))

unfoldable pub raw_double_far_pointer : ℕ → ℕ → ℕ
unfolding and_not
raw_double_far_pointer seg_id off =
    bit_or (bit_or double_far_pointer (and_not off 7)) (u64 (seg_id << 32))

unfoldable pub landing_pad_near_pointer : ℕ → ℕ → ℕ
unfolding and_not
landing_pad_near_pointer far tag = bit_or (and_not tag 0xffff_fffc) (u32 (and_not far 3) >> 1)

unfoldable pub pointer_type : ℕ → ℕ
pointer_type p = let t = bit_and p 3 in if t == far_pointer then bit_and p 7 else t

unfoldable pub struct_size : ℕ → ObjectSize
unfolding times_unchecked
struct_size p =
    let c = u16 (p >> 32) in
    let d = u16 (p >> 48) in
    record { data_size = times_unchecked word_size (pos c); pointer_count = d }

unfoldable pub list_type : ℕ → ℕ
list_type p = bit_and (p >> 32) 7

unfoldable pub num_list_elements : ℕ → ℤ
unfolding to_i32
num_list_elements p = to_i32 (p >> 35)

abbrev pub sized : ℕ → ℕ → Result ObjectSize
sized d n = ok (record { data_size = d; pointer_count = n })

-- The switch of `elementSize`, on the list type.
abbrev pub element_size_of : ℕ → Result ObjectSize
element_size_of t =
    if t == void_list
    then sized 0 0
    else if t == bit1_list
    then sized 0 0
    else if t == byte1_list
    then sized 1 0
    else if t == byte2_list
    then sized 2 0
    else if t == byte4_list
    then sized 4 0
    else if t == byte8_list
    then sized 8 0
    else if t == pointer_list
    then sized 0 1
    else panic "elementSize not supposed to be called on composite or unknown list type"

unfoldable pub element_size : ℕ → Result ObjectSize
unfolding list_type
element_size p = element_size_of (list_type p)

-- `bitListSize` of list.go, on n of int32.
unfoldable pub bit_list_size : ℤ → ℕ
unfolding ◌+ℤ◌ wrap_i32 quot to_u32
bit_list_size n = to_u32 (quot (wrap_i32 (n +ℤ pos 7)) 8)

unfoldable pub total_list_size : ℕ → Result (ℕ × Bool)
unfolding ◌>>=◌ num_list_elements list_type bit_list_size times wrap_i32 ◌+ℤ◌ element_size
    total_size times_unchecked
total_list_size p =
    let n = num_list_elements p in
    if list_type p == bit1_list
    then ok (bit_list_size n, true)
    else if list_type p == composite_list
    then ok (times word_size (wrap_i32 (n +ℤ pos 1)))
    else do sz ← element_size p; ok (times_unchecked (total_size sz) n, true)

unfoldable pub offset : ℕ → ℤ
unfolding shr_two to_i32
offset p = shr_two (to_i32 p)

-- The shift is one of int32, and its bits are those of the shifted uint32.
unfoldable pub with_offset : ℕ → ℤ → ℕ
unfolding and_not to_u32
with_offset p off = bit_or (and_not p 0xffff_fffc) (u32 (to_u32 off << 2))

unfoldable pub far_address : ℕ → ℕ
unfolding and_not
far_address p = and_not (u32 p) 7

unfoldable pub far_segment : ℕ → ℕ
far_segment p = u32 (p >> 32)

unfoldable pub other_pointer_type : ℕ → ℕ
other_pointer_type p = u32 p >> 2

unfoldable pub capability_index : ℕ → ℕ
capability_index p = u32 (p >> 32)
