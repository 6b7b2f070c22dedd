-- ===== src/Framing/Tests.antt =====
-- codec.go, Marshal and demux: the functions and their theorems at concrete messages.
use go_capnp.Base.{◌+◌, length, take, drop, u32, ℕ, none, List, [], ◌∷◌, ◌≡◌, refl, ◌++◌}
use go_capnp.Base.{replicate, map, arith}
use go_capnp.Base.Result.{ok, ◌>>=◌, ◌>>◌, wrap_error, Ensures}
use go_capnp.Slice.{put_le, le_uint, IsBytes}
use go_capnp.Message.{Message, segment}
use go_capnp.Framing.RoundTrip.{Fits, unmarshal-marshal}
use go_capnp.Framing.Header.{trimmed, IsFramed}
use go_capnp.Framing.Total.{AreCut, unmarshal-AreCut}
use go_capnp.Framing.Encoder.{encode, marshal_packed, unmarshal_packed}
use go_capnp.Framing.Buffers.{concat, encode-marshal}
use go_capnp.Framing.Compact.{AllSlices, unmarshal_packed-marshal_packed}
use go_capnp.Framing.{marshal, unmarshal, fill, data_size, put_uint32_at, uint32_at}
use go_capnp.Framing.{stream_header_size, max_segment, stream_total_size, sum_sizes, segment_size}
use go_capnp.Framing.{demux, demux_from}
use go_capnp.Address.{times}
use go_capnp.Base.Bits.{and_not}
use go_capnp.Base.Int.{to_i32, ◌*ℤ◌, to_u32}

abbrev two_segments : Message
two_segments = record {
  segs = record { mem = replicate 8 1; len = 8 } ∷ record { mem = replicate 24 2; len = 16 } ∷ [];
  rlimit = none;
  traverse_limit = 0;
  depth_limit = 0;
}

abbrev stream : List ℕ
stream =
    1
    ∷ 0
    ∷ 0
    ∷ 0
    ∷ 1
    ∷ 0
    ∷ 0
    ∷ 0
    ∷ 2
    ∷ 0
    ∷ 0
    ∷ 0
    ∷ 0
    ∷ 0
    ∷ 0
    ∷ 0
    ∷ (replicate 8 1 ++ replicate 16 2)

marshal_two : marshal two_segments ≡ ok stream
unfolding marshal fill data_size put_uint32_at stream_header_size and_not ◌>>=◌ ◌>>◌ wrap_error
    segment put_le
marshal_two = refl

unmarshal_two :
    unmarshal stream
    ≡ ok (record { mem = replicate 8 1; len = 8 } ∷ record { mem = replicate 16 2; len = 16 } ∷ [])
unfolding unmarshal uint32_at stream_header_size and_not ◌>>=◌ ◌>>◌ wrap_error max_segment
    stream_total_size sum_sizes segment_size demux demux_from le_uint times to_i32 ◌*ℤ◌ to_u32
unmarshal_two = refl

two_segments-Fits : Fits two_segments.segs
unfolding stream_header_size and_not
two_segments-Fits = record {
  some_segment = omega arith;
  few = omega arith;
  framed = (framed_one, (framed_two, tt));
  room = omega arith;
}
  where
    framed_one : IsFramed (record { mem = replicate 8 1; len = 8 })
    framed_one = record { within = omega arith; whole = refl; small = omega arith }

    framed_two : IsFramed (record { mem = replicate 24 2; len = 16 })
    framed_two = record { within = omega arith; whole = refl; small = omega arith }

unmarshal-marshal_example :
    (bytes : List ℕ) × (marshal two_segments ≡ ok bytes)
    × (unmarshal bytes ≡ ok (map trimmed two_segments.segs))
    × (length bytes ≡ stream_header_size 1 + 24)
unmarshal-marshal_example = unmarshal-marshal two_segments two_segments-Fits (omega arith)

stream-IsBytes : IsBytes stream
stream-IsBytes = omega arith

unmarshal-AreCut_example :
    Ensures
      (λ segs.
        AreCut (drop (stream_header_size (le_uint (take 4 stream))) stream) segs
        × (length segs ≡ u32 (le_uint (take 4 stream) + 1)))
      (unmarshal stream)
unmarshal-AreCut_example = unmarshal-AreCut stream stream-IsBytes (omega arith)

encode-marshal_example :
    (bufs : List (List ℕ)) × (encode two_segments ≡ ok bufs)
    × (marshal two_segments ≡ ok (concat bufs))
encode-marshal_example = encode-marshal two_segments two_segments-Fits

two_segments-AllSlices : AllSlices two_segments.segs
two_segments-AllSlices = (
  record { within = omega arith; bytes = omega arith },
  (record { within = omega arith; bytes = omega arith }, tt),
)

unmarshal_packed-marshal_packed_example :
    (packed : List ℕ) × (marshal_packed two_segments ≡ ok packed)
    × (unmarshal_packed packed ≡ ok (map trimmed two_segments.segs))
unmarshal_packed-marshal_packed_example =
    unmarshal_packed-marshal_packed two_segments two_segments-Fits (omega arith)
      two_segments-AllSlices
