-- ===== src/Builder/Objects.antt =====
-- struct.go and list.go: new objects, in a segment of the message or another. `allocate` is the Allocate
-- of the message's arena; an object comes with the message after it. The number of elements that some
-- errors begin with is left out.
use go_capnp.Base.{ℕ, ◌+◌, ◌-◌, ◌^◌, Bool, true, false, not, ◌||◌, List, ltb, u32, if◌then◌else◌}
use go_capnp.Base.{◌&&◌}
use go_capnp.Base.Int.{ℤ, pos, ltb_ℤ}
use go_capnp.Base.Result.{Result, new, ok, err, panic, wrap_error, ◌>>=◌}
use go_capnp.Address.{ObjectSize, word_size, max_segment_size, is_valid, pad_to_word, total_size}
use go_capnp.Address.{times, times_unchecked, add_size_unchecked}
use go_capnp.RawPointer.{raw_struct_pointer, bit_list_size}
use go_capnp.Slice.{Slice}
use go_capnp.Message.{Message}
use go_capnp.Segment.{Struct, ListRef}
use go_capnp.Memory.{store}
use go_capnp.Builder.{alloc}

abbrev pub max_depth : ℕ
max_depth = 2 ^ 64 - 1

-- `sz.DataSize = sz.DataSize.padToWord()`
abbrev pub padded : ObjectSize → ObjectSize
padded sz = record sz { data_size = pad_to_word sz.data_size }

abbrev pub in_length : ℤ → Bool
in_length n = not (ltb_ℤ n (pos 0)) && ltb_ℤ n (pos (2 ^ 29))

abbrev pub struct_at : ObjectSize → ℕ → ℕ → Struct
struct_at sz seg addr = record {
  seg = seg;
  off = addr;
  size = sz;
  depth_limit = max_depth;
  is_list_member = false;
}

abbrev pub list_at : ObjectSize → ℤ → Bool → Bool → ℕ → ℕ → ListRef
list_at sz n composite bits seg addr = record {
  seg = seg;
  off = addr;
  length = n;
  size = sz;
  depth_limit = max_depth;
  is_composite = composite;
  is_bit_list = bits;
}

module _ (allocate : ℕ → List Slice → Result (ℕ × Slice)) (m : Message) (seg : ℕ) where
  unfoldable pub new_struct : ObjectSize → Result (Message × Struct)
  new_struct sz =
      if is_valid sz
      then (do
        (m', id, addr) ← wrap_error "new struct" (alloc allocate m seg (total_size (padded sz)))
        ok (m', struct_at (padded sz) id addr))
      else err (new "new struct: invalid size")

  unfoldable pub new_primitive_list : ℕ → ℤ → Result (Message × ListRef)
  new_primitive_list sz n =
      if in_length n
      then (do
        (m', id, addr) ← wrap_error "new list" (alloc allocate m seg (times_unchecked sz n))
        ok (m', list_at (record { data_size = sz; pointer_count = 0 }) n false false id addr))
      else err (new "new list: length out of range")

  abbrev composite_from : ObjectSize → ℤ → ℕ × Bool → Result (Message × ListRef)
  composite_from sz n (total, fits) =
      if not fits || ltb (max_segment_size - word_size) total
      then err (new "new composite list: size overflow")
      else do
        (m', id, addr) ←
            wrap_error "new composite list" (alloc allocate m seg (u32 (word_size + total)))
        tag ← raw_struct_pointer n sz
        m'' ← store 8 m' id addr tag
        ok (m'', list_at sz n true false id (add_size_unchecked addr word_size))

  unfoldable pub new_composite_list : ObjectSize → ℤ → Result (Message × ListRef)
  unfolding ◌>>=◌
  new_composite_list sz n =
      if not (is_valid sz)
      then err (new "new composite list: invalid element size")
      else if not (in_length n)
      then err (new "new composite list: length out of range")
      else composite_from (padded sz) n (times (total_size (padded sz)) n)

  unfoldable pub new_bit_list : ℤ → Result (Message × ListRef)
  new_bit_list n =
      if in_length n
      then (do
        (m', id, addr) ← wrap_error "new bit list" (alloc allocate m seg (bit_list_size n))
        ok (m', list_at (record { data_size = 0; pointer_count = 0 }) n false true id addr))
      else err (new "new bit list: length out of range")

  abbrev pointers_from : ℤ → ℕ × Bool → Result (Message × ListRef)
  pointers_from n (total, false) = err (new "new pointer list: size overflow")
  pointers_from n (total, true) = do
    (m', id, addr) ← wrap_error "new pointer list" (alloc allocate m seg total)
    ok (m', list_at (record { data_size = 0; pointer_count = 1 }) n false false id addr)

  unfoldable pub new_pointer_list : ℤ → Result (Message × ListRef)
  unfolding ◌>>=◌
  new_pointer_list n = pointers_from n (times word_size n)

  unfoldable pub new_void_list : ℤ → Result ListRef
  new_void_list n =
      if in_length n
      then ok (list_at (record { data_size = 0; pointer_count = 0 }) n false false seg 0)
      else panic "list length overflow"
