-- ===== src/Root.antt =====
-- message.go: a new message and its root; segment.go: the root's pointer list; list.go: PointerList; struct.go:
-- SetPtr and NewRootStruct. The capability table that Reset empties is not in the message.
pub mod Counts
pub mod Reading
pub mod Setting
pub mod Near
pub mod Single
pub mod Stream
pub mod Build
pub mod Delivery
pub mod Sizes
mod Tests
use go_capnp.Base.{ℕ, zero, suc, ◌+◌, ◌*◌, ◌/◌, ◌==◌, List, [], ◌∷◌, length, Option, none, some}
use go_capnp.Base.{leb, u32, u64, get_elem?, if◌then◌else◌, false}
use go_capnp.Base.Int.{ℤ, pos}
use go_capnp.Base.Result.{Result, new, ok, err, panic, wrap_error, ◌>>=◌}
use go_capnp.Address.{ObjectSize, word_size}
use go_capnp.Slice.{Slice, region_in_bounds}
use go_capnp.Framing.{contents}
use go_capnp.Message.{Message, Segment, segment, message_depth_limit}
use go_capnp.Segment.{Struct, ListRef, Ptr, of_struct}
use go_capnp.StructFields.{read_at, pointer_address, struct_ptr}
use go_capnp.Lists.{primitive_elem}
use go_capnp.Builder.{alloc, alloc_segment}
use go_capnp.Builder.Objects.{new_struct}
use go_capnp.Copying.{World, write_ptr}

abbrev pub one_pointer : ObjectSize
one_pointer = record { data_size = 0; pointer_count = 1 }

-- The one pointer at the start of a segment.
abbrev pub root_list : ℕ → ℕ → ListRef
root_list seg depth = record {
  seg = seg;
  off = 0;
  length = pos 1;
  size = one_pointer;
  depth_limit = depth;
  is_composite = false;
  is_bit_list = false;
}

-- `Segment.root`, of a segment of the message.
unfoldable pub segment_root : Message → Segment → Option ListRef
segment_root m s =
    if region_in_bounds s.bytes 0 8 then some (root_list s.id (message_depth_limit m)) else none

abbrev read_elem : Message → Option ListRef → Result ℕ → Result Ptr × Message
read_elem m none r = (panic "invalid memory address or nil pointer dereference", m)
read_elem m (some l) (ok addr) =
    read_at m l.seg (u32 (addr + l.size.data_size)) (get_elem? m.segs l.seg) l.depth_limit
read_elem m (some l) (err e) = (err e, m)
read_elem m (some l) (panic s) = (panic s, m)

-- PointerList.At.
unfoldable pub pointer_at : Message → Option ListRef → ℤ → Result Ptr × Message
pointer_at m none i = (panic "list element out of bounds", m)
pointer_at m (some l) i = read_elem m (some l) (primitive_elem (some l) i one_pointer)

-- What a call returns, its error wrapped.
abbrev wrapped_read : Result Ptr × Message → Result Ptr × Message
wrapped_read (r, m) = (wrap_error "read root" r, m)

abbrev root_of : Message → Result Segment → Result Ptr × Message
root_of m (ok s) = wrapped_read (pointer_at m (segment_root m s) (pos 0))
root_of m (err e) = (wrap_error "read root" (err e), m)
root_of m (panic s) = (panic s, m)

-- `Root`
unfoldable pub root : Message → Result Ptr × Message
root m = root_of m (segment m 0)

-- A message without capabilities, as what is written to and what the objects are of.
abbrev pub alone : Message → World
alone m = record { dst = m; src = none; clients = []; src_clients = [] }

module _ (allocate : ℕ → List Slice → Result (ℕ × Slice)) where
  -- PointerList.Set.
  unfoldable pub set_pointer_at : ℕ → World → Option ListRef → ℤ → Ptr → Result World
  set_pointer_at fuel w none i v = panic "list element out of bounds"
  set_pointer_at fuel w (some l) i v = do
    addr ← primitive_elem (some l) i one_pointer
    write_ptr allocate fuel w l.seg addr v false

  -- Struct.SetPtr.
  unfoldable pub set_ptr : ℕ → World → Option Struct → ℕ → Ptr → Result World
  set_ptr fuel w none i v = panic "capnp: set field outside struct boundaries"
  set_ptr fuel w (some p) i v =
      if leb p.size.pointer_count i
      then panic "capnp: set field outside struct boundaries"
      else write_ptr allocate fuel w p.seg (pointer_address p i) v false

  -- `SetRoot`
  unfoldable pub set_root : ℕ → World → Ptr → Result World
  set_root fuel w p = do
    s ← wrap_error "set root" (segment w.dst 0)
    wrap_error "set root" (set_pointer_at fuel w (segment_root w.dst s) (pos 0) p)

  unfoldable pub new_root_struct : ℕ → Message → ℕ → ObjectSize → Result (Message × Struct)
  new_root_struct fuel m seg sz = do
    (m', st) ← new_struct allocate m seg sz
    w ← set_root fuel (alone m') (of_struct st)
    ok (w.dst, st)

  -- The first segment of Reset, by the number of the arena's segments.
  abbrev first_segment : Message → List Slice → Result (Message × ℕ)
  first_segment m [] = wrap_error "new message" (alloc_segment allocate m 8)
  first_segment m (d ∷ []) =
      if length (contents d) == 0 then ok (m, 0) else err (new "new message: arena not empty")
  first_segment m (d ∷ e ∷ segs) = err (new "new message: arena not empty")

  -- The root's word, as allocated.
  abbrev root_word : Message × ℕ × ℕ → Result Message
  root_word (m, seg, addr) =
      if seg == 0
      then ok m
      else err (new "new message: arena allocated first word outside first segment")

  -- `Reset`, to an arena with some segments, with the message after it. Its first segment is segment 0.
  unfoldable pub reset : Message → List Slice → Result Message
  reset m segs = do
    (m1, first) ← first_segment (record m { segs = segs; rlimit = none }) segs
    if first == 0
        then (do a ← wrap_error "new message" (alloc allocate m1 0 8); root_word a)
        else err (new "new message: arena allocated first segment with non-zero ID")

  unfoldable pub new_message : List Slice → Result Message
  unfolding reset
  new_message segs =
      reset (record { segs = []; rlimit = none; traverse_limit = 0; depth_limit = 0 }) segs

-- `TotalSize`: the loop from segment i on, and the sum.
unfoldable pub sum_segments : Message → ℕ → ℕ → ℕ → Result ℕ
sum_segments m zero i sum = ok sum
sum_segments m (suc left) i sum = do
  s ← segment m (u32 i)
  sum_segments m left (i + 1) (u64 (sum + length (contents s.bytes)))

unfoldable pub message_size : Message → Result ℕ
message_size m = sum_segments m (length m.segs) 0 (u64 (u64 (length m.segs / 2 + 1) * 8))
