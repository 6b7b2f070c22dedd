-- ===== src/StructFields.antt =====
-- struct.go: the fields of a struct. A Struct is nil where its segment is, which is `none` here.
pub mod Access
pub mod Bits
mod Tests
use go_capnp.Base.{ℕ, ◌+◌, ◌-◌, ◌*◌, ◌<◌, Bool, true, false, not, Option, none, some, u32, ltb}
use go_capnp.Base.{leb, ◌==◌, if◌then◌else◌, bit_and, bit_or, get_elem?}
use go_capnp.Base.BitTable.{put_bit, has_bit}
use go_capnp.Base.Int.{pos}
use go_capnp.Base.Result.{Result, ok, panic, ◌>>=◌}
use go_capnp.Address.{word_size, add_size, element, add_offset, total_size, bit_offset, bit_mask}
use go_capnp.Slice.{Slice}
use go_capnp.Message.{Message, Segment}
use go_capnp.Segment.{Struct, Ptr, null, of_struct, read_ptr}
use go_capnp.Memory.{load, store}

-- `Struct.readSize`
unfoldable pub struct_read_size : Option Struct → ℕ
struct_read_size none = 0
struct_read_size (some p) = total_size p.size

unfoldable pub pointer_address : Struct → ℕ → ℕ
pointer_address p i = (element (add_size p.off p.size.data_size).0 (pos i) word_size).0

-- `seg.readPtr`, where the segment may be missing.
abbrev pub read_at : Message → ℕ → ℕ → Option Slice → ℕ → Result Ptr × Message
read_at m seg addr none depth = (panic "invalid memory address or nil pointer dereference", m)
read_at m seg addr (some bytes) depth = read_ptr m (record { id = seg; bytes = bytes }) addr depth

-- Struct.Ptr, with the message whose read limit it takes from.
unfoldable pub struct_ptr : Message → Option Struct → ℕ → Result Ptr × Message
struct_ptr m none i = (ok null, m)
struct_ptr m (some p) i =
    if leb p.size.pointer_count i
    then (ok null, m)
    else read_at m p.seg (pointer_address p i) (get_elem? m.segs p.seg) p.depth_limit

unfoldable pub has_ptr : Message → Option Struct → ℕ → Result Bool
has_ptr m none i = ok false
has_ptr m (some p) i =
    if leb p.size.pointer_count i
    then ok false
    else do raw ← load 8 m p.seg (pointer_address p i); ok (not (raw == 0))

unfoldable pub bit_in_data : Option Struct → ℕ → Bool
bit_in_data none bit = false
bit_in_data (some p) bit = ltb bit (u32 (p.size.data_size * 8))

-- Struct.Bit.
unfoldable pub field_bit : Message → Option Struct → ℕ → Result Bool
field_bit m none n = ok false
field_bit m (some p) n =
    if bit_in_data (some p) n
    then (do
      addr ← add_offset p.off (bit_offset n)
      b ← load 1 m p.seg addr
      ok (has_bit b (bit_mask n)))
    else ok false

unfoldable pub set_field_bit : Message → Option Struct → ℕ → Bool → Result Message
set_field_bit m none n v = panic "capnp: set field outside struct boundaries"
set_field_bit m (some p) n v =
    if bit_in_data (some p) n
    then (do
      addr ← add_offset p.off (bit_offset n)
      b ← load 1 m p.seg addr
      store 1 m p.seg addr (put_bit b (bit_mask n) v))
    else panic "capnp: set field outside struct boundaries"

unfoldable pub data_address : Option Struct → ℕ → ℕ → Result (ℕ × Bool)
data_address none off sz = ok (0, false)
data_address (some p) off sz =
    if ltb p.size.data_size (u32 (off + sz))
    then ok (0, false)
    else do addr ← add_offset p.off off; ok (addr, true)

-- Uint8, Uint16, Uint32 and Uint64 of a struct take n = 1, 2, 4 and 8 bytes.
unfoldable pub field_uint : ℕ → Message → Option Struct → ℕ → Result ℕ
field_uint n m none off = ok 0
field_uint n m (some p) off = do
  addr ← data_address (some p) off n
  if addr.1 then load n m p.seg addr.0 else ok 0

-- SetUint8, SetUint16, SetUint32 and SetUint64.
unfoldable pub set_field_uint : ℕ → Message → Option Struct → ℕ → ℕ → Result Message
set_field_uint n m none off v = panic "capnp: set field outside struct boundaries"
set_field_uint n m (some p) off v = do
  addr ← data_address (some p) off n
  if addr.1 then store n m p.seg addr.0 v else panic "capnp: set field outside struct boundaries"
