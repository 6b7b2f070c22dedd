-- ===== src/Copying.antt =====
-- segment.go: writePtr, with the deep copies that it makes; struct.go: copyStruct; captable.go: the clients
-- of a message. A client is the identity of what it refers to, 0 for a null client. Where a call
-- returns an error, what it had done to the messages before is left out.
pub mod Keeps
pub mod Reads
pub mod Sections
pub mod Structs
pub mod Elements
pub mod Bytes
use Prim.Native.String.{String}
use go_capnp.Base.{ℕ, zero, suc, ◌+◌, ◌-◌, ◌^◌, Bool, true, false, ◌&&◌, ◌||◌, Option, none, some}
use go_capnp.Base.{List, [], ◌∷◌, ◌++◌, length, take, replicate, min, set, get_elem?, get_or, u32}
use go_capnp.Base.{ltb, leb, ◌==◌, if◌then◌else◌}
use go_capnp.Base.Int.{pos, negsuc, pos_part}
use go_capnp.Base.Result.{Result, indexed, new, ok, err, panic, wrap_error, ◌>>=◌}
use go_capnp.Address.{is_zero, total_size, add_size}
use go_capnp.Slice.{Slice, cap, range, slice, splice}
use go_capnp.Message.{Message}
use go_capnp.Segment.{Struct, ListRef, Ptr, null, of_struct, of_list, of_interface}
use go_capnp.RawPointer.{raw_struct_pointer, raw_interface_pointer}
use go_capnp.Memory.{load, store, segment_bytes}
use go_capnp.StructFields.{pointer_address, read_at}
use go_capnp.Lists.{alloc_size, list_raw, list_struct}
use go_capnp.Builder.{alloc}
use go_capnp.Builder.Objects.{struct_at, list_at}
use go_capnp.Builder.Pointers.{place_pointer}

-- The message that is written to, and the one that the objects are of: `none` where that is the same.
pub record World : Type 0 where
  pub dst : Message
  pub src : Option Message
  pub clients : List ℕ
  pub src_clients : List ℕ

abbrev source_of : Option Message → Message → Message
source_of none m = m
source_of (some s) m = s

abbrev pub source : World → Message
source w = source_of w.src w.dst

abbrev pub with_dst : World → Message → World
with_dst w m = record w { dst = m }

abbrev with_source_of : World → Option Message → Message → World
with_source_of w none m = record w { dst = m }
with_source_of w (some s) m = record w { src = some m }

abbrev pub with_source : World → Message → World
with_source w m = with_source_of w w.src m

abbrev pub is_other : Option Message → Bool
is_other none = false
is_other (some s) = true

-- `exc.WrapError(prefix + str.Utod(i), err)`
unfoldable pub wrap_error_at {ℓ} : {A : Type ℓ} → String → ℕ → Result A → Result A
wrap_error_at prefix i (ok a) = ok a
wrap_error_at prefix i (err e) = err (indexed prefix i e)
wrap_error_at prefix i (panic s) = panic s

abbrev pub taken : World → Result Ptr × Message → Result (Ptr × World)
taken w (ok p, m) = ok (p, with_source w m)
taken w (err e, m) = err e
taken w (panic s, m) = panic s

-- `src.seg.readPtr(addr, depth)`
abbrev pub read_source : World → ℕ → ℕ → ℕ → Result (Ptr × World)
read_source w seg addr depth =
    taken w (read_at (source w) seg addr (get_elem? (source w).segs seg) depth)

-- The message with some bytes of a segment replaced.
abbrev pub put_bytes : Message → ℕ → Slice → ℕ → List ℕ → Message
put_bytes m seg d addr bytes = record m {
  segs = set m.segs seg (record d { mem = splice d.mem addr bytes });
}

-- What `copy` and the loop after it leave in a data section of n bytes.
abbrev pub fitted : List ℕ → ℕ → List ℕ
fitted bytes n = take n bytes ++ replicate (n - length bytes) 0

unfoldable pub copy_data : World → Struct → Struct → Result World
copy_data w d s = do
  from ← segment_bytes (source w) s.seg
  src_data ← slice from s.off s.size.data_size
  to ← segment_bytes w.dst d.seg
  dst_data ← slice to d.off d.size.data_size
  ok (with_dst w (put_bytes w.dst d.seg to d.off (fitted src_data (length dst_data))))

-- The loop over the extra pointers of the copy, from j on.
unfoldable pub zero_pointers : World → Struct → ℕ → ℕ → Result World
zero_pointers w d zero j = ok w
zero_pointers w d (suc left) j = do
  m ← store 8 w.dst d.seg (pointer_address d j) 0
  zero_pointers (with_dst w m) d left (j + 1)

-- `copy(newSeg.data[dst.off:], l.seg.data[l.off:end])`
unfoldable pub copy_list_bytes : World → ListRef → ListRef → ℕ → Result World
copy_list_bytes w d l sz = do
  let end = (add_size l.off sz).0
  to ← segment_bytes w.dst d.seg
  from ← segment_bytes (source w) l.seg
  if leb d.off to.len && (leb l.off end && leb end (cap from))
      then ok (
          with_dst w
            (put_bytes w.dst d.seg to d.off (take (to.len - d.off) (range from.mem l.off end))))
      else panic "slice bounds out of range"

-- An address or a size less a word, in 32 bits.
abbrev pub less_word : ℕ → ℕ
less_word a = u32 (a + (2 ^ 32 - 8))

-- CapTable.Get and CapTable.Add.
unfoldable pub get_client : List ℕ → ℕ → ℕ
get_client cs id = if ltb id (u32 (length cs)) then get_or cs id 0 else 0

unfoldable pub add_client : List ℕ → ℕ → List ℕ × ℕ
add_client cs c = (cs ++ (c ∷ []), u32 (length cs))

-- The copy's place, its tag word and the bytes left, for a list that is composite.
abbrev tag_copied : World → ListRef → ListRef → ℕ → ℕ × Bool → Result (World × ListRef × ℕ)
tag_copied w l d sz (off, true) = ok (w, record d { off = off }, less_word sz)
tag_copied w l d sz (off, false) =
    err (new "write pointer: copy composite list: content address overflow")

unfoldable pub copy_tag : World → ListRef → ListRef → ℕ → Result (World × ListRef × ℕ)
copy_tag w l d sz =
    if l.is_composite
    then (do
      tag ← load 8 (source w) l.seg (less_word l.off)
      m ← store 8 w.dst d.seg d.off tag
      tag_copied (with_dst w m) l d sz (add_size d.off 8))
    else ok (w, d, sz)

unfoldable pub write_raw : World → ℕ → ℕ → ℕ → Result World
write_raw w s off raw = do m ← store 8 w.dst s off raw; ok (with_dst w m)

module _ (allocate : ℕ → List Slice → Result (ℕ × Slice)) where
  -- The last part of `writePtr`, for a struct and a list of the message.
  unfoldable pub place_struct : World → ℕ → ℕ → Struct → Result World
  place_struct w s off st = do
    raw ← raw_struct_pointer (pos 0) st.size
    m ← place_pointer allocate w.dst s off st.seg st.off raw
    ok (with_dst w m)

  unfoldable pub place_list : World → ℕ → ℕ → ListRef → Result World
  place_list w s off l = do
    raw ← list_raw (some l)
    m ←
        place_pointer allocate w.dst s off l.seg (if l.is_composite then less_word l.off else l.off)
          raw
    ok (with_dst w m)

-- `write` is writePtr, which copies.
module _ (write : World → ℕ → ℕ → Ptr → Result World) where
  -- The loop of `copyStruct` over the pointers, from j on.
  unfoldable pub copy_pointers : World → Struct → Struct → ℕ → ℕ → Result World
  copy_pointers w d s zero j = ok w
  copy_pointers w d s (suc left) j = do
    (p, w1) ←
        wrap_error_at "copy struct pointer " j
          (read_source w s.seg (pointer_address s j) s.depth_limit)
    w2 ← wrap_error_at "copy struct pointer " j (write w1 d.seg (pointer_address d j) p)
    copy_pointers w2 d s left (j + 1)

  unfoldable pub copy_struct : World → Option Struct → Option Struct → Result World
  copy_struct w none s = panic "copy struct into invalid pointer"
  copy_struct w (some d) none = ok w
  copy_struct w (some d) (some s) = do
    w1 ← copy_data w d s
    w2 ← copy_pointers w1 d s (min s.size.pointer_count d.size.pointer_count) 0
    zero_pointers w2 d (d.size.pointer_count - s.size.pointer_count) s.size.pointer_count

  -- The loop of `writePtr` over the elements of a list, from i on.
  unfoldable pub copy_elements : World → ListRef → ListRef → ℕ → ℕ → Result World
  copy_elements w d l zero i = ok w
  copy_elements w d l (suc left) i = do
    to ← list_struct (some d) (pos i)
    from ← list_struct (some l) (pos i)
    w1 ← wrap_error_at "write pointer: copy list element" i (copy_struct w to from)
    copy_elements w1 d l left (i + 1)

  module _ (allocate : ℕ → List Slice → Result (ℕ × Slice)) where
    -- The copy of a struct, and of a list.
    unfoldable pub copy_of_struct : World → ℕ → Struct → Result (World × Struct)
    copy_of_struct w s st = do
      (m, seg, addr) ←
          wrap_error "write pointer: copy" (alloc allocate w.dst s (total_size st.size))
      let d = struct_at st.size seg addr
      w' ← wrap_error "write pointer" (copy_struct (with_dst w m) (some d) (some st))
      ok (w', d)

    unfoldable pub copy_of_list : World → ℕ → ListRef → Result (World × ListRef)
    copy_of_list w s l = do
      (m, seg, addr) ←
          wrap_error "write pointer: copy" (alloc allocate w.dst s (alloc_size (some l)))
      let copy = list_at l.size l.length l.is_composite l.is_bit_list seg addr
      (w', d, sz) ← copy_tag (with_dst w m) l copy (alloc_size (some l))
      w'' ←
          if l.is_bit_list || d.size.pointer_count == 0
          then copy_list_bytes w' d l sz
          else copy_elements w' d l (pos_part l.length) 0
      ok (w'', d)

    -- `writePtr`, at `off` of segment s.
    unfoldable pub write_with : World → ℕ → ℕ → Ptr → Bool → Result World
    write_with w s off null force = write_raw w s off 0
    write_with w s off (of_struct st) force =
        if is_zero st.size
        then (do
          raw ← raw_struct_pointer (negsuc 0) (record { data_size = 0; pointer_count = 0 })
          write_raw w s off raw)
        else if force || is_other w.src || st.is_list_member
        then (do c ← copy_of_struct w s st; place_struct allocate c.0 s off c.1)
        else place_struct allocate w s off st
    write_with w s off (of_list l) force =
        if force || is_other w.src
        then (do c ← copy_of_list w s l; place_list allocate c.0 s off c.1)
        else place_list allocate w s off l
    write_with w s off (of_interface seg c) force =
        if is_other w.src
        then (let added = add_client w.clients (get_client w.src_clients c) in
            write_raw (record w { clients = added.0 }) s off (raw_interface_pointer added.1))
        else write_raw w s off (raw_interface_pointer c)

-- `writePtr`: each level of the copies takes one of the fuel.
unfoldable pub write_ptr :
    (ℕ → List Slice → Result (ℕ × Slice)) → ℕ → World → ℕ → ℕ → Ptr → Bool → Result World
write_ptr allocate zero w s off p force = panic "out of fuel"
write_ptr allocate (suc fuel) w s off p force =
    write_with (λ w' s' off' p'. write_ptr allocate fuel w' s' off' p' true) allocate w s off p
      force

module _ (allocate : ℕ → List Slice → Result (ℕ × Slice)) (fuel : ℕ) where
  abbrev write_copy : World → ℕ → ℕ → Ptr → Result World
  write_copy w s off p = write_ptr allocate fuel w s off p true

  -- Struct.CopyFrom.
  unfoldable pub copy_from : World → Option Struct → Option Struct → Result World
  copy_from w p other = wrap_error "copy struct" (copy_struct write_copy w p other)

  abbrev is_bits : Option ListRef → Bool
  is_bits none = false
  is_bits (some l) = l.is_bit_list

  -- List.SetStruct.
  unfoldable pub set_struct : World → Option ListRef → ℕ → Option Struct → Result World
  set_struct w l i s = if is_bits l then err (new "SetStruct called on bit list") else do
    p ← list_struct l (pos i)
    wrap_error_at "set list element " i (copy_struct write_copy w p s)
