-- ===== src/Framing/Encoder.antt =====
-- codec.go, the Encoder and the packed forms: the buffers that Encode writes, MarshalPacked and
-- UnmarshalPacked. Writing the buffers, one after another, is the stream's.
use go_capnp.Base.{ℕ, zero, suc, ◌+◌, ◌-◌, ◌/◌, ◌%◌, List, [], ◌∷◌, ◌++◌, length, u32, ltb, ◌==◌}
use go_capnp.Base.{none, some, if◌then◌else◌}
use go_capnp.Base.Result.{Result, new, numbered, ok, err, panic, wrap_error, ◌>>=◌, ◌>>◌}
use go_capnp.Address.{word_size, max_segment_size, max_int}
use go_capnp.Slice.{Slice, put_le}
use go_capnp.Message.{Message, segment}
use go_capnp.Packed.{pack, unpack, Unpacked}
use go_capnp.Framing.{contents, stream_header_size, refuse, marshal, unmarshal}

unfoldable pub append_uint32 : List ℕ → ℕ → List ℕ
append_uint32 b v = b ++ put_le 4 v

-- The loop of `Encode`, from segment i on: the header and the buffers behind it.
unfoldable pub encode_from :
    Message → ℕ → ℕ → List ℕ → List (List ℕ) → Result (List ℕ × List (List ℕ))
encode_from m zero i hdr bufs = ok (hdr, bufs)
encode_from m (suc left) i hdr bufs = do
  s ← wrap_error "encode" (segment m (u32 i))
  let n = length (contents s.bytes)
  refuse (ltb max_segment_size n) (err (numbered "encode: segment " i " too large"))
  encode_from m left (i + 1) (append_uint32 hdr (u32 (u32 n / word_size)))
      (bufs ++ (contents s.bytes ∷ []))

-- The buffers that `Encode` hands to `write`.
unfoldable pub encode : Message → Result (List (List ℕ))
encode m = do
  let nsegs = length m.segs
  refuse (nsegs == 0) (err (new "encode: message has no segments"))
  let max_seg = u32 (nsegs - 1)
  refuse (ltb max_int (stream_header_size max_seg)) (err (new "encode: header size overflows int"))
  r ← encode_from m nsegs 0 (append_uint32 [] max_seg) []
  ok ((if length r.0 % word_size == 0 then r.0 else append_uint32 r.0 0) ∷ r.1)

unfoldable pub marshal_packed : Message → Result (List ℕ)
marshal_packed m = do bytes ← marshal m; pack [] bytes

-- What `Unpack` returned, as a result; none is a panic.
abbrev unpacked_result : Unpacked → Result (List ℕ)
unpacked_result none = panic "packed.Unpack"
unpacked_result (some (bytes, none)) = ok bytes
unpacked_result (some (bytes, some e)) = err e

unfoldable pub unmarshal_packed : List ℕ → Result (List Slice)
unmarshal_packed bytes = do
  refuse (length bytes == 0) (err (new "EOF"))
  stream ← wrap_error "unmarshal" (unpacked_result (unpack [] bytes))
  unmarshal stream
