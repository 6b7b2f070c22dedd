-- ===== src/Builder.antt =====
-- message.go: how a message gets space for a new object. `allocate` is the Allocate of its arena; the
-- segments of the message are all in its map.
pub mod Contents
pub mod Extends
pub mod Fresh
pub mod Objects
pub mod Pointers
pub mod Resolves
pub mod Leads
pub mod Placed
pub mod NewStructs
pub mod NewLists
pub mod Examples
mod Tests
use go_capnp.Base.{
  ℕ, ◌+◌, ◌-◌, Bool, true, false, List, [], ◌∷◌, ◌++◌, length, set, replicate, ltb, leb, u32, ◌==◌,
  ◌&&◌, if◌then◌else◌,
}
use go_capnp.Base.Result.{Result, new, ok, err, panic, wrap_error, ◌>>=◌}
use go_capnp.Address.{max_int, max_alloc_size, pad_to_word, add_size}
use go_capnp.Slice.{Slice, cap, splice}
use go_capnp.Message.{Message}
use go_capnp.Memory.{segment_bytes}
use go_capnp.Arena.{has_capacity}

-- `setSegment`
unfoldable pub set_segment : Message → ℕ → Slice → Message
set_segment m id d = record m {
  segs = if ltb id (length m.segs) then set m.segs id d else m.segs ++ (d ∷ []);
}

abbrev pub placed : Message → ℕ × Slice → Message × ℕ
placed m (id, d) = (set_segment m id d, id)

unfoldable pub alloc_segment :
    (ℕ → List Slice → Result (ℕ × Slice)) → Message → ℕ → Result (Message × ℕ)
alloc_segment allocate m sz =
    if ltb max_alloc_size sz
    then err (new "allocation: too large")
    else if length m.segs == max_int
    then err (new "allocation: number of loaded segments exceeds int")
    else do a ← wrap_error "allocation" (allocate sz m.segs); ok (placed m a)

-- The segment of an allocation: `s` itself, or the one that allocSegment finds.
unfoldable pub choose_segment :
    (ℕ → List Slice → Result (ℕ × Slice)) → Message → ℕ → ℕ → Result (Message × ℕ)
choose_segment allocate m seg sz = do
  d ← segment_bytes m seg
  if has_capacity d sz then ok (m, seg) else alloc_segment allocate m sz

-- `s.data[:end]`, with zeros behind the old end.
abbrev pub cleared : Slice → ℕ → Slice
cleared d end = record { mem = splice d.mem d.len (replicate (end - d.len) 0); len = end }

unfoldable pub carve : Message → ℕ → ℕ → Slice → ℕ × Bool → Result (Message × ℕ × ℕ)
carve m seg addr d (end, false) = err (new "allocation: address overflow")
carve m seg addr d (end, true) =
    if leb d.len end && leb end (cap d)
    then ok (record m { segs = set m.segs seg (cleared d end) }, seg, addr)
    else panic "slice bounds out of range"

unfoldable pub extend_segment : Message → ℕ → ℕ → Result (Message × ℕ × ℕ)
extend_segment m seg sz = do
  d ← segment_bytes m seg
  carve m seg (u32 d.len) d (add_size (u32 d.len) sz)

-- `alloc`: the message after it, and the new region's segment and address.
unfoldable pub alloc :
    (ℕ → List Slice → Result (ℕ × Slice)) → Message → ℕ → ℕ → Result (Message × ℕ × ℕ)
alloc allocate m seg sz = if ltb max_alloc_size sz then err (new "allocation: too large") else do
  c ← choose_segment allocate m seg (pad_to_word sz)
  extend_segment c.0 c.1 (pad_to_word sz)
