-- ===== src/RawPointer/Landing.antt =====
-- Where pointers lead: near pointers from `nearPointerOffset`, and double-far landing pads.
use go_capnp.Base.{◌∙◌, ap, ℕ, ◌+◌, ◌*◌, ◌/◌, ◌%◌, ◌^◌, ◌≤◌, ◌<◌, ◌≡◌, ◌≢◌, true, arith}
use go_capnp.Base.Bits.{bit_or_above, bit_or_high_low}
use go_capnp.Base.Int.{pos, to_u32}
use go_capnp.Address.{max_segment_size}
use go_capnp.RawPointer.{resolve, near_pointer_offset, raw_far_pointer, landing_pad_near_pointer}
use go_capnp.RawPointer.{pointer_type, offset, struct_size, list_type, num_list_elements}
use go_capnp.RawPointer.{far_pointer, double_far_pointer, with_offset}
use go_capnp.RawPointer.Fields.{pointer_type_lem, and_not_offset, and_not_three}
use go_capnp.RawPointer.Fields.{raw_far_pointer_sum, with_offset_sum}
use go_capnp.RawPointer.RoundTrip.{IsOffset, with_offset_lem}

-- The offset that `nearPointerOffset` computes fits a pointer, and resolves, from the end of the
-- pointer, to the address that it was computed for, whether that lies before or behind.
pub near_pointer_resolves :
    (paddr addr : ℕ)
    → paddr % 8 ≡ 0
    → addr % 8 ≡ 0
    → paddr + 8 ≤ max_segment_size
    → addr ≤ max_segment_size
    → IsOffset (near_pointer_offset paddr addr)
      × (resolve (near_pointer_offset paddr addr) (paddr + 8) ≡ (addr, true))
unfolding near_pointer_offset resolve
near_pointer_resolves paddr addr hp ha fits_p fits_a = (ground arith, ground arith)

-- A double-far landing pad stands for `withOffset` of its tag, by the far pointer's word offset.
pub landing_pad_sum :
    (far tag : ℕ)
    → pointer_type far ≡ far_pointer
    → landing_pad_near_pointer far tag ≡ with_offset tag (pos (far / 8 % 2 ^ 29))
unfolding landing_pad_near_pointer to_u32
landing_pad_sum far tag kind = rw with_offset_sum (
    ground (
      arith,
      pointer_type_lem far,
      and_not_offset tag,
      and_not_three far,
      bit_or_above 2 (tag % 4) (tag / 2 ^ 32 * 2 ^ 30) (far / 8 % 2 ^ 29),
      bit_or_high_low 30 (tag / 2 ^ 32) (far / 8 % 2 ^ 29),
    ))

-- Over a far pointer to a word, a struct or list tag becomes a pointer of the tag's kind and size
-- that resolves, from the start of the segment, to that word.
pub landing_pad_resolves :
    (seg addr tag : ℕ)
    → seg < 2 ^ 32
    → addr ≤ max_segment_size
    → addr % 8 ≡ 0
    → pointer_type tag ≢ far_pointer
    → pointer_type tag ≢ double_far_pointer
    → let near = landing_pad_near_pointer (raw_far_pointer seg addr) tag in
      (resolve (offset near) 0 ≡ (addr, true))
      × (pointer_type near ≡ pointer_type tag)
      × (struct_size near ≡ struct_size tag)
      × (list_type near ≡ list_type tag)
      × (num_list_elements near ≡ num_list_elements tag)
landing_pad_resolves seg addr tag hs ha aligned not_far not_double =
    let (o, kind, size, kind', length) =
      with_offset_lem tag (pos (addr / 8)) (omega arith) not_far not_double in
    rw (landing_pad_sum far tag kind_of_far ∙ ap (λ n. with_offset tag (pos n)) words)
      (rw o (unfold resolve in ground arith), kind, size, kind', length)
  where
    far : ℕ
    far = raw_far_pointer seg addr

    kind_of_far : pointer_type far ≡ far_pointer
    kind_of_far = ground (arith, pointer_type_lem far, raw_far_pointer_sum seg addr)

    words : far / 8 % 2 ^ 29 ≡ addr / 8
    words = ground (arith, raw_far_pointer_sum seg addr)
