-- ===== src/Address.antt =====
-- address.go: addresses and sizes in bytes, object sizes, and bit offsets.
-- An address, Size, DataOffset or BitOffset is a number below 2 ^ 32, a uint16 one below 2 ^ 16,
-- and an int32 an integer; int64 sums of these do not wrap.
pub mod Bounds
mod Tests
use go_capnp.Base.{ℕ, ◌+◌, ◌-◌, ◌*◌, ◌/◌, ◌%◌, ◌^◌, Bool, true, false, ◌&&◌, ◌||◌, u8, u32, ltb}
use go_capnp.Base.{leb, ◌==◌, if◌then◌else◌}
use go_capnp.Base.Bits.{and_not}
use go_capnp.Base.Int.{ℤ, pos, negsuc, ◌+ℤ◌, ◌*ℤ◌, ltb_ℤ, to_u32, to_i32}
use go_capnp.Base.Result.{Result, ok, panic, ◌>>=◌}

abbrev pub word_size : ℕ
word_size = 8

abbrev pub max_segment_size : ℕ
max_segment_size = 2 ^ 32 - 8

-- `maxInt` where int has 64 bits.
abbrev pub max_int : ℕ
max_int = 2 ^ 63 - 1

unfoldable pub max_alloc_size : ℕ
max_alloc_size = if max_int == 0x7fff_ffff then 0x7fff_fff8 else max_segment_size

-- The second part is Go's `ok`.
unfoldable pub add_size : ℕ → ℕ → ℕ × Bool
add_size a sz =
    let x = a + sz in if ltb max_segment_size x then (0xffff_ffff, false) else (u32 x, true)

unfoldable pub add_size_unchecked : ℕ → ℕ → ℕ
add_size_unchecked a sz = u32 (a + sz)

unfoldable pub element : ℕ → ℤ → ℕ → ℕ × Bool
unfolding ◌+ℤ◌ ◌*ℤ◌ to_u32
element a i sz =
    let x = pos a +ℤ i *ℤ pos sz in
    if ltb_ℤ (pos max_segment_size) x || ltb_ℤ x (pos 0)
    then (0xffff_ffff, false)
    else (to_u32 x, true)

unfoldable pub add_offset : ℕ → ℕ → Result ℕ
add_offset a o = if leb (2 ^ 19) o then panic "data offset overflow" else ok (u32 (a + o))

unfoldable pub times : ℕ → ℤ → ℕ × Bool
unfolding ◌*ℤ◌ to_u32
times sz n =
    let x = pos sz *ℤ n in
    if ltb_ℤ (pos max_segment_size) x || ltb_ℤ x (pos 0)
    then (0xffff_ffff, false)
    else (to_u32 x, true)

unfoldable pub times_unchecked : ℕ → ℤ → ℕ
unfolding to_u32
times_unchecked sz n = u32 (sz * to_u32 n)

unfoldable pub pad_to_word : ℕ → ℕ
pad_to_word sz = let n = word_size - 1 in and_not (u32 (sz + n)) n

pub record ObjectSize : Type 0 where
  pub data_size : ℕ
  pub pointer_count : ℕ

unfoldable pub is_zero : ObjectSize → Bool
is_zero sz = sz.data_size == 0 && sz.pointer_count == 0

unfoldable pub is_one_byte : ObjectSize → Bool
is_one_byte sz = sz.data_size == 1 && sz.pointer_count == 0

unfoldable pub is_valid : ObjectSize → Bool
is_valid sz = leb sz.data_size (0xffff * word_size)

unfoldable pub pointer_size : ObjectSize → ℕ
pointer_size sz = u32 (word_size * sz.pointer_count)

unfoldable pub total_size : ObjectSize → ℕ
unfolding pointer_size
total_size sz = u32 (sz.data_size + pointer_size sz)

unfoldable pub data_word_count : ObjectSize → Result ℤ
unfolding to_i32
data_word_count sz =
    if sz.data_size % word_size == 0
    then ok (to_i32 (sz.data_size / word_size))
    else panic "data size not aligned by word"

unfoldable pub total_word_count : ObjectSize → Result ℤ
unfolding ◌>>=◌ data_word_count ◌+ℤ◌
total_word_count sz = do n ← data_word_count sz; ok (n +ℤ pos sz.pointer_count)

-- BitOffset's methods.
unfoldable pub bit_offset : ℕ → ℕ
bit_offset bit = bit / 8

unfoldable pub bit_mask : ℕ → ℕ
bit_mask bit = u8 (2 ^ (bit % 8))
