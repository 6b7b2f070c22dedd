-- ===== src/Segment.antt =====
-- segment.go: how pointers are read, over far pointers, with the checks against hostile input.
pub mod Resolve
pub mod Safe
pub mod Shapes
pub mod Amplified
mod Tests
use go_capnp.Base.{ℕ, ◌+◌, ◌-◌, ◌*◌, ◌^◌, Bool, true, false, ◌&&◌, ◌||◌, ◌==◌, if◌then◌else◌}
use go_capnp.Base.Int.{ℤ, pos, is_zero_ℤ, wrap_i32}
use go_capnp.Base.Result.{Result, GoError, new, ok, err, panic, require, wrap_error, ◌>>=◌, ◌>>◌}
use go_capnp.Address.{word_size, max_segment_size, add_size, times, total_size, ObjectSize}
use go_capnp.Slice.{Slice, region_in_bounds, read_raw_pointer}
use go_capnp.Message.{Message, Segment, segment, can_read}
use go_capnp.RawPointer.{struct_pointer, list_pointer, far_pointer, double_far_pointer}
use go_capnp.RawPointer.{other_pointer, bit1_list, composite_list, resolve, offset, struct_size}
use go_capnp.RawPointer.{pointer_type, list_type, num_list_elements, element_size}
use go_capnp.RawPointer.{total_list_size, far_address, far_segment, landing_pad_near_pointer}
use go_capnp.RawPointer.{other_pointer_type, capability_index}

-- A Struct with a segment (given by its id), and a List with one. The flags are Booleans.
pub record Struct : Type 0 where
  pub seg : ℕ
  pub off : ℕ
  pub size : ObjectSize
  pub depth_limit : ℕ
  pub is_list_member : Bool

pub record ListRef : Type 0 where
  pub seg : ℕ
  pub off : ℕ
  pub length : ℤ
  pub size : ObjectSize
  pub depth_limit : ℕ
  pub is_composite : Bool
  pub is_bit_list : Bool

-- A Ptr: null, or what its type flags say that it is.
pub data Ptr : Type 0 where
  null : Ptr
  of_struct : Struct → Ptr
  of_list : ListRef → Ptr
  of_interface : ℕ → ℕ → Ptr

-- `lookupSegment`
unfoldable pub lookup_segment : Message → Segment → ℕ → Result Segment
unfolding segment
lookup_segment m s id = if s.id == id then ok s else segment m id

-- The cases of `resolveFarPointer`: where the object's pointer is based, and that pointer.
unfoldable pub resolve_double_far : Message → Segment → ℕ → Result (Segment × ℕ × ℕ)
resolve_double_far m s val = do
  pad_seg ← wrap_error "double-far pointer" (lookup_segment m s (far_segment val))
  let pad_addr = far_address val
  require (region_in_bounds pad_seg.bytes pad_addr (word_size * 2))
      "double-far pointer: address out of bounds"
  far ← read_raw_pointer pad_seg.bytes pad_addr
  require (pointer_type far == far_pointer)
      "double-far pointer: first word in landing pad is not a far pointer"
  let tag_addr = add_size pad_addr word_size
  require tag_addr.1 "double-far pointer: landing pad address overflow"
  tag ← read_raw_pointer pad_seg.bytes tag_addr.0
  require
      ((pointer_type tag == struct_pointer || pointer_type tag == list_pointer)
        && is_zero_ℤ (offset tag))
      "double-far pointer: second word is not a struct or list with zero offset"
  dst ← wrap_error "double-far pointer" (lookup_segment m s (far_segment far))
  ok (dst, 0, landing_pad_near_pointer far tag)

unfoldable pub resolve_far : Message → Segment → ℕ → Result (Segment × ℕ × ℕ)
resolve_far m s val = do
  dst ← wrap_error "far pointer" (lookup_segment m s (far_segment val))
  let pad_addr = far_address val
  require (region_in_bounds dst.bytes pad_addr word_size) "far pointer: address out of bounds"
  let base = add_size pad_addr word_size
  require base.1 "far pointer: landing pad address overflow"
  near ← read_raw_pointer dst.bytes pad_addr
  ok (dst, base.0, near)

unfoldable pub resolve_near : Segment → ℕ → ℕ → Result (Segment × ℕ × ℕ)
resolve_near s paddr val = do
  let base = add_size paddr word_size
  require base.1 "pointer base address overflow"
  ok (s, base.0, val)

-- `resolveFarPointer`
unfoldable pub resolve_far_pointer : Message → Segment → ℕ → Result (Segment × ℕ × ℕ)
resolve_far_pointer m s paddr = do
  val ← read_raw_pointer s.bytes paddr
  if pointer_type val == double_far_pointer
      then resolve_double_far m s val
      else if pointer_type val == far_pointer
      then resolve_far m s val
      else resolve_near s paddr val

unfoldable pub read_struct_ptr : Segment → ℕ → ℕ → Result Struct
read_struct_ptr s base val = do
  let addr = resolve (offset val) base
  require addr.1 "struct pointer: invalid address"
  let sz = struct_size val
  require (region_in_bounds s.bytes addr.0 (total_size sz)) "struct pointer: invalid address"
  ok (record { seg = s.id; off = addr.0; size = sz; depth_limit = 0; is_list_member = false })

-- The composite case of `readListPtr`, at the address of the tag word.
unfoldable pub read_composite_list : Segment → ℕ → Result ListRef
read_composite_list s tag_addr = do
  hdr ← read_raw_pointer s.bytes tag_addr
  let addr = add_size tag_addr word_size
  require addr.1 "composite list pointer: content address overflow"
  require (pointer_type hdr == struct_pointer) "composite list pointer: tag word is not a struct"
  let sz = struct_size hdr
  let n = offset hdr
  let tsize = times (total_size sz) n
  require tsize.1 "composite list pointer: size overflow"
  require (region_in_bounds s.bytes addr.0 tsize.0) "composite list pointer: address out of bounds"
  ok (record {
    seg = s.id;
    off = addr.0;
    length = n;
    size = sz;
    depth_limit = 0;
    is_composite = true;
    is_bit_list = false;
  })

unfoldable pub read_list_ptr : Segment → ℕ → ℕ → Result ListRef
read_list_ptr s base val = do
  let addr = resolve (offset val) base
  require addr.1 "list pointer: invalid address"
  lsize ← total_list_size val
  require lsize.1 "list pointer: size overflow"
  require (region_in_bounds s.bytes addr.0 lsize.0) "list pointer: address out of bounds"
  if list_type val == composite_list
      then read_composite_list s addr.0
      else if list_type val == bit1_list
      then ok (record {
        seg = s.id;
        off = addr.0;
        length = num_list_elements val;
        size = record { data_size = 0; pointer_count = 0 };
        depth_limit = 0;
        is_composite = false;
        is_bit_list = true;
      })
      else do
        size ← element_size val
        ok (record {
          seg = s.id;
          off = addr.0;
          length = num_list_elements val;
          size = size;
          depth_limit = 0;
          is_composite = false;
          is_bit_list = false;
        })

-- List.readSize of list.go.
unfoldable pub list_read_size : ListRef → ℕ
unfolding times total_size
list_read_size l =
    let e = if total_size l.size == 0 then word_size else total_size l.size in
    let sz = times e l.length in if sz.1 then sz.0 else max_segment_size

-- `if !canRead(size) { return an error }`, then the pointer.
abbrev pub charged : Bool × Message → Ptr → Result Ptr × Message
charged (true, m) p = (ok p, m)
charged (false, m) p = (err (new "read pointer: read traversal limit reached"), m)

-- The struct and list cases of `readPtr`, after `readStructPtr` or `readListPtr`.
abbrev pub charge_struct : Message → ℕ → Result Struct → Result Ptr × Message
charge_struct m depth (ok sp) =
    charged (can_read m (total_size sp.size)) (of_struct (record sp { depth_limit = depth - 1 }))
charge_struct m depth (err e) = (err e, m)
charge_struct m depth (panic s) = (panic s, m)

abbrev pub charge_list : Message → ℕ → Result ListRef → Result Ptr × Message
charge_list m depth (ok lp) =
    charged (can_read m (list_read_size lp)) (of_list (record lp { depth_limit = depth - 1 }))
charge_list m depth (err e) = (err e, m)
charge_list m depth (panic s) = (panic s, m)

-- The rest of `readPtr`, behind the call of `resolveFarPointer`.
unfoldable pub read_resolved : Message → ℕ → Result (Segment × ℕ × ℕ) → Result Ptr × Message
read_resolved m depth (err e) = (err e, m)
read_resolved m depth (panic s) = (panic s, m)
read_resolved m depth (ok (s, base, val)) =
    if val == 0
    then (ok null, m)
    else if depth == 0
    then (err (new "read pointer: depth limit reached"), m)
    else if pointer_type val == struct_pointer
    then charge_struct m depth (wrap_error "read pointer" (read_struct_ptr s base val))
    else if pointer_type val == list_pointer
    then charge_list m depth (wrap_error "read pointer" (read_list_ptr s base val))
    else if pointer_type val == other_pointer
    then (if other_pointer_type val == 0
        then (ok (of_interface s.id (capability_index val)), m)
        else (err (new "read pointer: unknown pointer type"), m))
    else (err (new "read pointer: far pointer landing pad is a far pointer"), m)

-- `readPtr`, with the message whose read limit it takes from.
unfoldable pub read_ptr : Message → Segment → ℕ → ℕ → Result Ptr × Message
unfolding read_resolved
read_ptr m s paddr depth =
    read_resolved m depth (wrap_error "read pointer" (resolve_far_pointer m s paddr))
