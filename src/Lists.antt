-- ===== src/Lists.antt =====
-- list.go: the elements of a list, and pointer.go: what a pointer holds as a struct, a list, text or
-- data. A List is nil where its segment is, which is `none` here. An index is an int.
pub mod Elements
pub mod Integers
pub mod Signed
pub mod BitElements
mod Tests
use go_capnp.Base.{ℕ, zero, suc, ◌+◌, ◌-◌, ◌*◌, ◌^◌, ◌<◌, Bool, true, false, not, ◌&&◌, ◌||◌}
use go_capnp.Base.{Option, none, some, List, [], ◌∷◌, u32, u64, ltb, leb, ◌==◌, if◌then◌else◌}
use go_capnp.Base.{get_elem?, length, take}
use go_capnp.Base.BitTable.{put_bit, has_bit}
use go_capnp.Base.Int.{ℤ, pos, negsuc, pos_part, ltb_ℤ, to_u32, wrap_i32, ◌*ℤ◌}
use go_capnp.Base.Result.{Result, GoError, new, numbered, ok, err, panic, ◌>>=◌}
use go_capnp.Address.{ObjectSize, word_size, element, add_offset, times, total_size, bit_offset}
use go_capnp.Address.{bit_mask, total_word_count, is_one_byte}
use go_capnp.RawPointer.{raw_list_pointer, composite_list, bit1_list, pointer_list, void_list}
use go_capnp.RawPointer.{byte1_list, byte2_list, byte4_list, byte8_list, bit_list_size}
use go_capnp.Slice.{slice}
use go_capnp.Message.{Message}
use go_capnp.Segment.{Struct, ListRef, Ptr, null, of_struct, of_list, of_interface}
use go_capnp.Memory.{load, store, segment_bytes}

unfoldable pub list_len : Option ListRef → ℤ
list_len none = pos 0
list_len (some l) = l.length

-- `List.allocSize`
unfoldable pub alloc_size : Option ListRef → ℕ
alloc_size none = 0
alloc_size (some l) =
    let sz = (times (total_size l.size) l.length).0 in
    if l.is_bit_list
    then bit_list_size l.length
    else if l.is_composite
    then u32 (sz + word_size)
    else sz

-- The pointer word of a list of primitives, by the size of its elements.
abbrev raw_primitive : ℤ → ObjectSize → Result ℕ
raw_primitive n size =
    if size.pointer_count == 1 && size.data_size == 0
    then ok (raw_list_pointer (pos 0) pointer_list n)
    else if not (size.pointer_count == 0)
    then panic "invalid list size"
    else if size.data_size == 0
    then ok (raw_list_pointer (pos 0) void_list n)
    else if size.data_size == 1
    then ok (raw_list_pointer (pos 0) byte1_list n)
    else if size.data_size == 2
    then ok (raw_list_pointer (pos 0) byte2_list n)
    else if size.data_size == 4
    then ok (raw_list_pointer (pos 0) byte4_list n)
    else if size.data_size == 8
    then ok (raw_list_pointer (pos 0) byte8_list n)
    else panic "invalid list size"

-- `List.raw`
unfoldable pub list_raw : Option ListRef → Result ℕ
list_raw none = ok 0
list_raw (some l) =
    if l.is_composite
    then (do
      words ← total_word_count l.size
      ok (raw_list_pointer (pos 0) composite_list (wrap_i32 (l.length *ℤ words))))
    else if l.is_bit_list
    then ok (raw_list_pointer (pos 0) bit1_list l.length)
    else raw_primitive l.length l.size

abbrev pub in_list : ListRef → ℤ → Bool
in_list l i = not (ltb_ℤ i (pos 0)) && ltb_ℤ i l.length

unfoldable pub same_size : ObjectSize → ObjectSize → Bool
same_size a b = a.data_size == b.data_size && a.pointer_count == b.pointer_count

unfoldable pub mismatched : ListRef → ObjectSize → Bool
unfolding same_size
mismatched l expected =
    l.is_bit_list
    || (not l.is_composite && not (same_size l.size expected))
    || (l.is_composite
        && (ltb l.size.data_size expected.data_size
            || ltb l.size.pointer_count expected.pointer_count))

abbrev checked_address : ℤ → ℕ × Bool → Result ℕ
checked_address i (addr, true) = ok addr
checked_address i (addr, false) =
    err (numbered "read list element " (pos_part i) ": address overflow")

unfoldable pub primitive_elem : Option ListRef → ℤ → ObjectSize → Result ℕ
primitive_elem none i expected = panic "list element out of bounds"
primitive_elem (some l) i expected =
    if in_list l i
    then (if mismatched l expected
        then err (new "mismatched list element size")
        else checked_address i (element l.off i (total_size l.size)))
    else panic "list element out of bounds"

abbrev pub member_at : ListRef → ℕ × Bool → Option Struct
member_at l (addr, false) = none
member_at l (addr, true) = some (record {
  seg = l.seg;
  off = addr;
  size = l.size;
  depth_limit = u64 (l.depth_limit + (2 ^ 64 - 1));
  is_list_member = true;
})

-- List.Struct.
unfoldable pub list_struct : Option ListRef → ℤ → Result (Option Struct)
list_struct none i = panic "list element out of bounds"
list_struct (some l) i =
    if in_list l i
    then (if l.is_bit_list then ok none else ok (member_at l (element l.off i (total_size l.size))))
    else panic "list element out of bounds"

-- BitList.At.
unfoldable pub bit_at : Message → Option ListRef → ℤ → Result Bool
bit_at m none i = panic "list element out of bounds"
bit_at m (some l) i =
    if in_list l i
    then (if l.is_bit_list
        then (do
          addr ← add_offset l.off (bit_offset (u32 (pos_part i)))
          b ← load 1 m l.seg addr
          ok (has_bit b (bit_mask (u32 (pos_part i)))))
        else ok false)
    else panic "list element out of bounds"

-- BitList.Set.
unfoldable pub set_bit_at : Message → Option ListRef → ℤ → Bool → Result Message
set_bit_at m none i v = panic "list element out of bounds"
set_bit_at m (some l) i v =
    if in_list l i
    then (if l.is_bit_list
        then (do
          addr ← add_offset l.off (bit_offset (u32 (pos_part i)))
          b ← load 1 m l.seg addr
          store 1 m l.seg addr (put_bit b (bit_mask (u32 (pos_part i))) v))
        else panic "BitList.Set called on a non-bit list")
    else panic "list element out of bounds"

abbrev pub data_of : ℕ → ObjectSize
data_of n = record { data_size = n; pointer_count = 0 }
