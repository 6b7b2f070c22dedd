-- ===== src/RawPointer/RoundTrip.antt =====
-- What the accessors of rawpointer.go read from what its constructors wrote.
use go_capnp.Base.{ℕ, ◌+◌, ◌*◌, ◌/◌, ◌%◌, ◌^◌, ◌<◌, ◌≡◌, ◌≢◌, ap, ◌∙◌, true, arith}
use go_capnp.Base.Int.{ℤ, pos, negsuc, to_u32, to_i32, IsInt}
use go_capnp.Base.Result.{ok}
use go_capnp.Address.{ObjectSize, is_valid}
use go_capnp.RawPointer.{raw_struct_pointer, raw_list_pointer, raw_far_pointer}
use go_capnp.RawPointer.{raw_double_far_pointer, raw_interface_pointer, with_offset, pointer_type}
use go_capnp.RawPointer.{far_address, far_segment, list_type, num_list_elements, offset}
use go_capnp.RawPointer.{struct_size, other_pointer_type, capability_index, struct_pointer}
use go_capnp.RawPointer.{list_pointer, far_pointer, double_far_pointer, other_pointer}
use go_capnp.RawPointer.Fields.{pointer_type_lem, list_type_lem, far_address_lem, offset_bits}
use go_capnp.RawPointer.Fields.{raw_struct_pointer_sum, raw_list_pointer_sum, raw_far_pointer_sum}
use go_capnp.RawPointer.Fields.{raw_double_far_pointer_sum, raw_interface_pointer_sum}
use go_capnp.RawPointer.Fields.{with_offset_sum}

-- Sizes that a struct pointer can hold: words of data that 16 bits count, and a uint16 of pointers.
pub record IsEncodable (sz : ObjectSize) : Type 0 where
  pub in_range : is_valid sz ≡ true
  pub aligned : sz.data_size % 8 ≡ 0
  pub pointers : sz.pointer_count < 2 ^ 16

-- The offsets that 30 bits hold.
abbrev pub IsOffset : ℤ → Type 0
IsOffset = IsInt (2 ^ 29)

-- The offset depends on the low word alone, and comes back from its bits.
pub offset_of_bits :
    (off : ℤ) (low high : ℕ)
    → IsOffset off
    → low < 4
    → offset (low + offset_bits off * 4 + high * 2 ^ 32) ≡ off
unfolding offset to_u32
offset_of_bits (pos n) low high h l = ground arith
offset_of_bits (negsuc n) low high h l = ground arith

-- A struct pointer reads back as one, with the offset and the size that it was made of.
pub read_struct_pointer :
    (off : ℤ) (sz : ObjectSize)
    → IsOffset off
    → IsEncodable sz
    → (p : ℕ) × (raw_struct_pointer off sz ≡ ok p)
      × (p < 2 ^ 64)
      × (pointer_type p ≡ struct_pointer)
      × (offset p ≡ off)
      × (struct_size p ≡ sz)
read_struct_pointer off sz h e = (
  p,
  raw_struct_pointer_sum off sz e.in_range e.aligned e.pointers,
  unfold is_valid in ground (arith, e.in_range),
  ground (arith, pointer_type_lem p),
  ap offset split
      ∙ offset_of_bits off 0 (sz.data_size / 8 + sz.pointer_count * 2 ^ 16) h (omega arith),
  unfold is_valid struct_size in ground (arith, e.in_range),
)
  where
    p : ℕ
    p = offset_bits off * 4 + sz.data_size / 8 * 2 ^ 32 + sz.pointer_count * 2 ^ 48

    split : p ≡ 0 + offset_bits off * 4 + (sz.data_size / 8 + sz.pointer_count * 2 ^ 16) * 2 ^ 32
    split = omega arith

-- A list pointer reads back as one, with the offset, the list type and the length.
pub read_list_pointer :
    (off : ℤ) (t n : ℕ)
    → IsOffset off
    → t < 8
    → n < 2 ^ 29
    → let p = raw_list_pointer off t (pos n) in
      (p < 2 ^ 64)
      × (pointer_type p ≡ list_pointer)
      × (offset p ≡ off)
      × (list_type p ≡ t)
      × (num_list_elements p ≡ pos n)
read_list_pointer off t n h ht hn = rw (raw_list_pointer_sum off t n ht hn ∙ split) (
  omega arith,
  ground (arith, pointer_type_lem p),
  offset_of_bits off 1 (t + n * 8) h (omega arith),
  omega (arith, list_type_lem p),
  unfold num_list_elements in ground arith,
)
  where
    p : ℕ
    p = 1 + offset_bits off * 4 + (t + n * 8) * 2 ^ 32

    split : 1 + offset_bits off * 4 + t * 2 ^ 32 + n * 2 ^ 35 ≡ p
    split = omega arith

-- A far pointer, a double-far pointer and an interface pointer read back as what they are, with
-- the segment and the word address, or the capability.
pub read_far_pointers :
    (seg addr c : ℕ)
    → seg < 2 ^ 32
    → addr < 2 ^ 32
    → c < 2 ^ 32
    → addr % 8 ≡ 0
    → let far = raw_far_pointer seg addr in
      let double = raw_double_far_pointer seg addr in
      let interface = raw_interface_pointer c in
      ((pointer_type far ≡ far_pointer) × (far_address far ≡ addr) × (far_segment far ≡ seg))
      × ((pointer_type double ≡ double_far_pointer)
          × (far_address double ≡ addr)
          × (far_segment double ≡ seg))
      × ((pointer_type interface ≡ other_pointer)
          × (other_pointer_type interface ≡ 0)
          × (capability_index interface ≡ c))
unfolding far_segment other_pointer_type capability_index
read_far_pointers seg addr c hs ha hc aligned =
    rw
      (
        raw_far_pointer_sum seg addr hs ha,
        raw_double_far_pointer_sum seg addr hs ha,
        raw_interface_pointer_sum c hc,
      )
      (
        (ground (arith, pointer_type_lem far), omega (arith, far_address_lem far), omega arith),
        (
          ground (arith, pointer_type_lem double),
          omega (arith, far_address_lem double),
          omega arith,
        ),
        (ground (arith, pointer_type_lem (3 + c * 2 ^ 32)), omega arith, omega arith),
      )
  where
    far : ℕ
    far = 2 + addr / 8 * 8 + seg * 2 ^ 32

    double : ℕ
    double = 6 + addr / 8 * 8 + seg * 2 ^ 32

-- `withOffset` sets the offset of a struct or list pointer and leaves its kind and its high word,
-- with the size in it, alone.
pub with_offset_lem :
    (p : ℕ) (off : ℤ)
    → IsOffset off
    → pointer_type p ≢ far_pointer
    → pointer_type p ≢ double_far_pointer
    → (offset (with_offset p off) ≡ off)
      × (pointer_type (with_offset p off) ≡ pointer_type p)
      × (struct_size (with_offset p off) ≡ struct_size p)
      × (list_type (with_offset p off) ≡ list_type p)
      × (num_list_elements (with_offset p off) ≡ num_list_elements p)
with_offset_lem p off h not_far not_double = rw (with_offset_sum p off) (
  offset_of_bits off (p % 4) (p / 2 ^ 32) h (omega arith),
  ground (arith, pointer_type_lem p, pointer_type_lem q),
  unfold struct_size in ground arith,
  omega (arith, list_type_lem p, list_type_lem q),
  unfold num_list_elements in ap to_i32 (omega arith),
)
  where
    q : ℕ
    q = p % 4 + offset_bits off * 4 + p / 2 ^ 32 * 2 ^ 32
