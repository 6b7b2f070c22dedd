-- ===== src/Memory.antt =====
-- segment.go: loads and stores through a *Segment, as steps of a message whose segments they change.
-- A *Segment is the id of a segment of the message; where it may be nil, the caller says so.
pub mod Stores
pub mod Bits
pub mod Examples
use go_capnp.Base.{ℕ, Option, none, some, set, get_elem?}
use go_capnp.Base.Result.{Result, ok, panic, ◌>>=◌}
use go_capnp.Slice.{Slice, read_uint, write_uint}
use go_capnp.Message.{Message, Segment}

abbrev pub present : Option Slice → Result Slice
present none = panic "invalid memory address or nil pointer dereference"
present (some d) = ok d

-- `seg.data`
abbrev pub segment_bytes : Message → ℕ → Result Slice
segment_bytes m seg = present (get_elem? m.segs seg)

-- readUint8, readUint16, readUint32 and readUint64 of a segment take n = 1, 2, 4 and 8 bytes, as the
-- writes do.
unfoldable pub load : ℕ → Message → ℕ → ℕ → Result ℕ
load n m seg addr = do bytes ← segment_bytes m seg; read_uint n bytes addr

unfoldable pub store : ℕ → Message → ℕ → ℕ → ℕ → Result Message
store n m seg addr v = do
  bytes ← segment_bytes m seg
  bytes' ← write_uint n bytes addr v
  ok (record m { segs = set m.segs seg bytes' })
