-- ===== src/Framing.antt =====
-- codec.go, with Marshal of message.go and demux of arena.go: a message's segments as one stream.
-- The stream is the number of segments less one, each segment's size in words, four bytes each,
-- padding to a word, and the segments.
pub mod Header
pub mod Fill
pub mod Encoder
pub mod Buffers
pub mod Compact
pub mod RoundTrip
pub mod Total
mod Tests
use go_capnp.Base.{ℕ, zero, suc, ◌+◌, ◌-◌, ◌*◌, ◌/◌, ◌%◌, ◌^◌, Bool, true, false, ◌||◌, List, []}
use go_capnp.Base.{◌∷◌, ◌++◌, length, take, drop, replicate, u32, u64, ltb, leb, ◌==◌}
use go_capnp.Base.{if◌then◌else◌}
use go_capnp.Base.Bits.{and_not}
use go_capnp.Base.Int.{ℤ, pos, to_i32}
use go_capnp.Base.Result.{Result, new, numbered, ok, err, panic, require, wrap_error, ◌>>=◌, ◌>>◌}
use go_capnp.Address.{word_size, max_segment_size, max_int, times}
use go_capnp.Slice.{Slice, le_uint, put_le, splice}
use go_capnp.Message.{Message, Segment, segment}

-- `s.data`
abbrev pub contents : Slice → List ℕ
contents s = take s.len s.mem

unfoldable pub stream_header_size : ℕ → ℕ
stream_header_size max_seg = and_not (u64 (u64 (u64 (max_seg + 2) * 4) + 7)) 7

-- `binary.LittleEndian.Uint32(b[at:])`
unfoldable pub uint32_at : List ℕ → ℕ → Result ℕ
uint32_at b at =
    if leb (at + 4) (length b)
    then ok (le_uint (take 4 (drop at b)))
    else panic "index out of range"

-- `binary.LittleEndian.PutUint32(b[at:], v)`
unfoldable pub put_uint32_at : List ℕ → ℕ → ℕ → Result (List ℕ)
put_uint32_at b at v =
    if leb (at + 4) (length b) then ok (splice b at (put_le 4 v)) else panic "index out of range"

-- The failing test of a loop over segments: `if test { return errors.New(s + i + t) }`.
abbrev pub refuse : Bool → Result (Unit {0}) → Result (Unit {0})
refuse true e = e
refuse false e = ok tt

-- The loop of `Marshal` that computes the buffer size, from segment i on.
unfoldable pub data_size : Message → ℕ → ℕ → ℕ → Result ℕ
data_size m zero i sum = ok sum
data_size m (suc left) i sum = do
  s ← wrap_error "marshal" (segment m (u32 i))
  let n = length (contents s.bytes)
  refuse (ltb 0 (n % word_size)) (err (numbered "marshal: segment " i " not word-aligned"))
  refuse (ltb max_segment_size n) (err (numbered "marshal: segment " i " too large"))
  let sum' = u64 (sum + n)
  refuse (ltb max_int sum') (err (new "marshal: message size overflows int"))
  data_size m left (i + 1) sum'

-- The loop of `Marshal` that fills the buffer, from segment i on.
unfoldable pub fill : Message → ℕ → ℕ → List ℕ → Result (List ℕ)
fill m zero i buf = ok buf
fill m (suc left) i buf = do
  s ← wrap_error "marshal" (segment m (u32 i))
  let n = length (contents s.bytes)
  refuse (ltb 0 (n % word_size)) (err (numbered "marshal: segment " i " not word-aligned"))
  buf' ← put_uint32_at buf ((i + 1) * 4) (u32 (n / word_size))
  fill m left (i + 1) (buf' ++ contents s.bytes)

unfoldable pub marshal : Message → Result (List ℕ)
marshal m = do
  let nsegs = length m.segs
  refuse (nsegs == 0) (err (new "marshal: message has no segments"))
  let hdr_size = stream_header_size (u32 (nsegs - 1))
  refuse (ltb max_int hdr_size) (err (new "marshal: header size overflows int"))
  size ← data_size m nsegs 0 0
  let total = u64 (hdr_size + size)
  refuse (ltb max_int total) (err (new "marshal: message size overflows int"))
  buf ← put_uint32_at (replicate hdr_size 0) 0 (u32 (nsegs - 1))
  fill m nsegs 0 buf

unfoldable pub max_segment : List ℕ → Result ℕ
max_segment hdr = uint32_at hdr 0

abbrev sized : ℕ → ℕ × Bool → Result ℕ
sized i (sz, true) = ok sz
sized i (sz, false) = err (numbered "segment " i ": overflow size")

unfoldable pub segment_size : List ℕ → ℕ → Result ℕ
segment_size hdr i = do
  s ← uint32_at hdr (u32 (4 + u32 (i * 4)))
  sized i (times word_size (to_i32 s))

-- The loop of `totalSize`, from segment i on.
unfoldable pub sum_sizes : List ℕ → ℕ → ℕ → ℕ → Result ℕ
sum_sizes hdr zero i sum = ok sum
sum_sizes hdr (suc left) i sum = do
  x ← segment_size hdr (u32 i)
  sum_sizes hdr left (i + 1) (u64 (sum + x))

unfoldable pub stream_total_size : List ℕ → Result ℕ
stream_total_size hdr = do max_seg ← max_segment hdr; sum_sizes hdr (max_seg + 1) 0 0

-- The loop of `demux`, from segment i on: the segments that it appends. A segment's capacity is
-- its length.
unfoldable pub demux_from : List ℕ → ℕ → ℕ → List ℕ → Result (List Slice)
demux_from hdr zero i bytes = ok []
demux_from hdr (suc left) i bytes = do
  sz ← segment_size hdr (u32 i)
  refuse (ltb (length bytes) sz) (panic "slice bounds out of range")
  more ← demux_from hdr left (i + 1) (drop sz bytes)
  ok (record { mem = take sz bytes; len = sz } ∷ more)

unfoldable pub demux : List ℕ → List ℕ → Result (List Slice)
demux hdr bytes = do
  max_seg ← max_segment hdr
  refuse (ltb (max_int - 1) max_seg) (err (new "number of segments overflows int"))
  demux_from hdr (u32 (max_seg + 1)) 0 bytes

-- The segments of the message's arena.
unfoldable pub unmarshal : List ℕ → Result (List Slice)
unmarshal bytes = do
  refuse (length bytes == 0) (err (new "EOF"))
  refuse (ltb (length bytes) word_size) (err (new "unmarshal: short header section"))
  max_seg ← uint32_at bytes 0
  let hdr_size = stream_header_size max_seg
  refuse (ltb (length bytes) hdr_size) (err (new "unmarshal: short header section"))
  let hdr = take hdr_size bytes
  let rest = drop hdr_size bytes
  total ← wrap_error "unmarshal" (stream_total_size hdr)
  refuse (ltb (length rest) total) (err (new "unmarshal: short data section"))
  wrap_error "unmarshal" (demux hdr rest)
