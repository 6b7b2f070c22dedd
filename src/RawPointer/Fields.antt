-- ===== src/RawPointer/Fields.antt =====
-- The fields of a rawPointer as quotients and remainders, and the constructors as sums.
use go_capnp.Base.{ℕ, ◌+◌, ◌-◌, ◌*◌, ◌/◌, ◌%◌, ◌^◌, ◌<◌, ◌≡◌, ap, true, arith, if◌then◌else◌}
use go_capnp.Base.{bit_or, u32, ◌==◌}
use go_capnp.Base.Bits.{bit_or_above, bit_or_high_low, and_not, bit_and_low, bit_and_high}
use go_capnp.Base.Bits.{bit_or_low_high, zero-bit_or}
use go_capnp.Base.Int.{ℤ, pos, to_u32}
use go_capnp.Base.Result.{ok}
use go_capnp.Address.{ObjectSize, is_valid}
use go_capnp.RawPointer.{raw_struct_pointer, raw_list_pointer, raw_far_pointer}
use go_capnp.RawPointer.{raw_double_far_pointer, raw_interface_pointer, with_offset, pointer_type}
use go_capnp.RawPointer.{far_address, list_type}
use go_capnp.Address.Bounds.{and_not_seven}

pub and_not_offset : (p : ℕ) → and_not p 0xffff_fffc ≡ p - p / 4 % 2 ^ 30 * 4
unfolding and_not
and_not_offset p = omega (arith, bit_and_high 2 p (2 ^ 30 - 1), bit_and_low 30 (p / 4))

pub and_not_three : (p : ℕ) → and_not p 3 ≡ p / 4 * 4
unfolding and_not
and_not_three p = omega (arith, bit_and_low 2 p)

pub pointer_type_lem : (p : ℕ) → pointer_type p ≡ (if p % 4 == 2 then p % 8 else p % 4)
unfolding pointer_type
pointer_type_lem p = ground (arith, bit_and_low 2 p, bit_and_low 3 p)

pub list_type_lem : (p : ℕ) → list_type p ≡ p / 2 ^ 32 % 8
unfolding list_type
list_type_lem p = omega (arith, bit_and_low 3 (p / 2 ^ 32))

pub far_address_lem : (p : ℕ) → far_address p ≡ p % 2 ^ 32 / 8 * 8
unfolding far_address
far_address_lem p = omega (arith, and_not_seven (u32 p))

-- The bits of a pointerOffset in the 30 bits that a pointer has for it.
abbrev pub offset_bits : ℤ → ℕ
offset_bits off = to_u32 off % 2 ^ 30

pub or_fields :
    (tag a b : ℕ)
    → tag < 4
    → a < 2 ^ 30
    → bit_or (bit_or tag (a * 4)) (b * 2 ^ 32) ≡ tag + a * 4 + b * 2 ^ 32
or_fields tag a b h k = omega (
  arith,
  ap (λ (t : ℕ). bit_or t (b * 2 ^ 32)) (bit_or_low_high 2 tag a h),
  bit_or_low_high 32 (tag + a * 4) b (omega arith),
)

pub raw_struct_pointer_sum :
    (off : ℤ) (sz : ObjectSize)
    → is_valid sz ≡ true
    → sz.data_size % 8 ≡ 0
    → sz.pointer_count < 2 ^ 16
    → raw_struct_pointer off sz
      ≡ ok (offset_bits off * 4 + sz.data_size / 8 * 2 ^ 32 + sz.pointer_count * 2 ^ 48)
unfolding raw_struct_pointer is_valid
raw_struct_pointer_sum off sz v d c = ground (
  arith,
  zero-bit_or (offset_bits off * 4),
  bit_or_low_high 32 (offset_bits off * 4) (sz.data_size / 8),
  bit_or_low_high 48 (offset_bits off * 4 + sz.data_size / 8 * 2 ^ 32) sz.pointer_count,
)

pub raw_list_pointer_sum :
    (off : ℤ) (t n : ℕ)
    → t < 8
    → n < 2 ^ 29
    → raw_list_pointer off t (pos n) ≡ 1 + offset_bits off * 4 + t * 2 ^ 32 + n * 2 ^ 35
unfolding raw_list_pointer
raw_list_pointer_sum off t n ht hn = ground (
  arith,
  or_fields 1 (offset_bits off) t,
  bit_or_low_high 35 (1 + offset_bits off * 4 + t * 2 ^ 32) n,
)

pub raw_far_pointer_sum :
    (seg addr : ℕ)
    → seg < 2 ^ 32
    → addr < 2 ^ 32
    → raw_far_pointer seg addr ≡ 2 + addr / 8 * 8 + seg * 2 ^ 32
unfolding raw_far_pointer
raw_far_pointer_sum seg addr hs ha =
    ground (arith, and_not_seven addr, or_fields 2 (addr / 8 * 2) seg)

pub raw_double_far_pointer_sum :
    (seg addr : ℕ)
    → seg < 2 ^ 32
    → addr < 2 ^ 32
    → raw_double_far_pointer seg addr ≡ 6 + addr / 8 * 8 + seg * 2 ^ 32
unfolding raw_double_far_pointer
raw_double_far_pointer_sum seg addr hs ha = ground (
  arith,
  and_not_seven addr,
  bit_or_low_high 3 6 (addr / 8),
  bit_or_low_high 32 (6 + addr / 8 * 8) seg,
)

pub raw_interface_pointer_sum : (c : ℕ) → c < 2 ^ 32 → raw_interface_pointer c ≡ 3 + c * 2 ^ 32
unfolding raw_interface_pointer
raw_interface_pointer_sum c h = ground (arith, bit_or_low_high 32 3 c)

-- `withOffset` replaces bits 2 to 31.
pub with_offset_sum :
    (p : ℕ) (off : ℤ) → with_offset p off ≡ p % 4 + offset_bits off * 4 + p / 2 ^ 32 * 2 ^ 32
unfolding with_offset
with_offset_sum p off = ground (
  arith,
  and_not_offset p,
  bit_or_above 2 (p % 4) (p / 2 ^ 32 * 2 ^ 30) (offset_bits off),
  bit_or_high_low 30 (p / 2 ^ 32) (offset_bits off),
)
