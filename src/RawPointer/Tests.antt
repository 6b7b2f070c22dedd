-- ===== src/RawPointer/Tests.antt =====
-- The theorems on raw pointers at concrete inputs, and runs of the code.
use go_capnp.Base.{ℕ, ◌+◌, ◌-◌, ◌/◌, ◌%◌, ◌^◌, ◌≤◌, ◌<◌, ◌≡◌, ◌≢◌, ◌⊎◌, refl, true, false, arith}
use go_capnp.Base.Int.{pos, negsuc}
use go_capnp.Base.Result.{ok}
use go_capnp.Address.{ObjectSize, is_valid, max_segment_size}
use go_capnp.RawPointer.{raw_struct_pointer, raw_list_pointer, raw_far_pointer}
use go_capnp.RawPointer.{raw_double_far_pointer, raw_interface_pointer, with_offset, pointer_type}
use go_capnp.RawPointer.{far_address, far_segment, list_type, num_list_elements, offset}
use go_capnp.RawPointer.{struct_size, other_pointer_type, capability_index, resolve}
use go_capnp.RawPointer.{struct_pointer, list_pointer, far_pointer, double_far_pointer}
use go_capnp.RawPointer.{other_pointer, landing_pad_near_pointer, near_pointer_offset}
use go_capnp.RawPointer.{total_list_size, composite_list}
use go_capnp.RawPointer.RoundTrip.{IsEncodable, IsOffset, read_struct_pointer, read_list_pointer}
use go_capnp.RawPointer.RoundTrip.{read_far_pointers, with_offset_lem}
use go_capnp.RawPointer.Landing.{near_pointer_resolves, landing_pad_resolves}
use go_capnp.RawPointer.Sizes.{list_bytes, total_list_size_lem}

abbrev point : ObjectSize
point = record { data_size = 16; pointer_count = 3 }

point-IsEncodable : IsEncodable point
unfolding is_valid
point-IsEncodable = record { in_range = refl; aligned = omega arith; pointers = omega arith }

struct_bits : raw_struct_pointer (negsuc 0) point ≡ ok 0x0003_0002_ffff_fffc
unfolding raw_struct_pointer
struct_bits = refl

read_struct_pointer_example :
    (p : ℕ) × (raw_struct_pointer (negsuc 4) point ≡ ok p)
    × (p < 2 ^ 64)
    × (pointer_type p ≡ struct_pointer)
    × (offset p ≡ negsuc 4)
    × (struct_size p ≡ point)
read_struct_pointer_example = read_struct_pointer (negsuc 4) point (omega arith) point-IsEncodable

read_list_pointer_example :
    let p = raw_list_pointer (pos 7) 3 (pos 100) in
    (p < 2 ^ 64)
    × (pointer_type p ≡ list_pointer)
    × (offset p ≡ pos 7)
    × (list_type p ≡ 3)
    × (num_list_elements p ≡ pos 100)
read_list_pointer_example =
    read_list_pointer (pos 7) 3 100 (omega arith) (omega arith) (omega arith)

read_far_pointers_example :
    let far = raw_far_pointer 2 64 in
    let double = raw_double_far_pointer 2 64 in
    let interface = raw_interface_pointer 9 in
    ((pointer_type far ≡ far_pointer) × (far_address far ≡ 64) × (far_segment far ≡ 2))
    × ((pointer_type double ≡ double_far_pointer)
        × (far_address double ≡ 64)
        × (far_segment double ≡ 2))
    × ((pointer_type interface ≡ other_pointer)
        × (other_pointer_type interface ≡ 0)
        × (capability_index interface ≡ 9))
read_far_pointers_example =
    read_far_pointers 2 64 9 (omega arith) (omega arith) (omega arith) (omega arith)

struct_kind : pointer_type 0x0003_0002_0000_0000 ≡ struct_pointer
unfolding pointer_type
struct_kind = refl

with_offset_example :
    let p : ℕ = 0x0003_0002_0000_0000 in
    (offset (with_offset p (negsuc 1)) ≡ negsuc 1)
    × (pointer_type (with_offset p (negsuc 1)) ≡ pointer_type p)
    × (struct_size (with_offset p (negsuc 1)) ≡ struct_size p)
    × (list_type (with_offset p (negsuc 1)) ≡ list_type p)
    × (num_list_elements (with_offset p (negsuc 1)) ≡ num_list_elements p)
unfolding pointer_type
with_offset_example =
    with_offset_lem 0x0003_0002_0000_0000 (negsuc 1) (omega arith) (omega arith) (omega arith)

near_pointer_resolves_example :
    IsOffset (near_pointer_offset 64 16)
    × (resolve (near_pointer_offset 64 16) (64 + 8) ≡ (16, true))
near_pointer_resolves_example =
    near_pointer_resolves 64 16 (omega arith) (omega arith) (omega arith) (omega arith)

landing_pad_resolves_example :
    let tag : ℕ = 0x0003_0002_0000_0000 in
    let near = landing_pad_near_pointer (raw_far_pointer 1 4096) tag in
    (resolve (offset near) 0 ≡ (4096, true))
    × (pointer_type near ≡ pointer_type tag)
    × (struct_size near ≡ struct_size tag)
    × (list_type near ≡ list_type tag)
    × (num_list_elements near ≡ num_list_elements tag)
unfolding pointer_type
landing_pad_resolves_example =
    landing_pad_resolves 1 4096 0x0003_0002_0000_0000 (omega arith) (omega arith) (omega arith)
      (omega arith) (omega arith)

total_list_size_example :
    let p : ℕ = 0x0000_0064_0000_0001 in
    let t = p / 2 ^ 32 % 8 in
    let n = p / 2 ^ 35 in
    ((total_list_size p ≡ ok (list_bytes t n, true))
      × (list_bytes t n ≤ max_segment_size)
      × ((t ≢ composite_list) ⊎ (n ≢ 2 ^ 29 - 1)))
    ⊎ ((total_list_size p ≡ ok (0xffff_ffff, false)) × (t ≡ composite_list) × (n ≡ 2 ^ 29 - 1))
total_list_size_example = total_list_size_lem 0x0000_0064_0000_0001 (omega arith)
