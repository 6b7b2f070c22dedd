-- ===== src/Framing/Compact.antt =====
-- MarshalPacked and UnmarshalPacked: framing and packing together.
use go_capnp.Base.{◌==◌, false, ℕ, ◌-◌, ◌%◌, ◌≡◌, ◌≤◌, refl, arith, List, [], ◌∷◌, ◌++◌, map}
use go_capnp.Base.{length, replicate, none, zero, suc, length-append, some, ◌∙◌, ◌<◌, ◌^◌}
use go_capnp.Base.Result.{ok, ◌>>=◌, ◌>>◌, wrap_error}
use go_capnp.Slice.{Slice, IsBytes, IsSlice}
use go_capnp.Slice.Bytes.{append-IsBytes, put_le-IsBytes, take-IsBytes}
use go_capnp.Message.{Message}
use go_capnp.Packed.{unpack, unpack_loop}
use go_capnp.Packed.RoundTrip.{unpack-pack}
use go_capnp.Framing.{unmarshal}
use go_capnp.Framing.Header.{AllFramed, entries, bodies, total_length, trimmed, length-bodies}
use go_capnp.Framing.Header.{stream_header_size_lem}
use go_capnp.Framing.RoundTrip.{Fits, header, count, pad, length-header, marshal_lem}
use go_capnp.Framing.RoundTrip.{unmarshal_lem}
use go_capnp.Framing.Encoder.{marshal_packed, unmarshal_packed}

abbrev pub AllSlices : List Slice → Type 0
AllSlices [] = Unit {0}
AllSlices (s ∷ segs) = IsSlice s × AllSlices segs

entries-IsBytes : (segs : List Slice) → IsBytes (entries segs)
entries-IsBytes [] = tt
entries-IsBytes (s ∷ segs) = append-IsBytes _ _ (put_le-IsBytes 4 _) (entries-IsBytes segs)

bodies-IsBytes : (segs : List Slice) → AllSlices segs → IsBytes (bodies segs)
bodies-IsBytes [] h = tt
bodies-IsBytes (s ∷ segs) (v, h) =
    append-IsBytes _ _ (take-IsBytes s.len s.mem v.bytes) (bodies-IsBytes segs h)

zeros-IsBytes : (n : ℕ) → IsBytes (replicate n 0)
zeros-IsBytes zero = tt
zeros-IsBytes (suc n) = (omega arith, zeros-IsBytes n)

total_length-whole : (segs : List Slice) → AllFramed segs → total_length segs % 8 ≡ 0
total_length-whole [] h = refl
total_length-whole (s ∷ segs) (f, h) = omega (arith, f.whole, total_length-whole segs h)

stream-IsBytes :
    (m : Message) (fits : Fits m.segs) → AllSlices m.segs → IsBytes (header m fits ++ bodies m.segs)
unfolding header count pad
stream-IsBytes m fits valid =
    append-IsBytes (header m fits) _
      (append-IsBytes (count m fits) _ (put_le-IsBytes 4 _)
        (append-IsBytes (entries m.segs) _ (entries-IsBytes m.segs) (zeros-IsBytes (pad m fits))))
      (bodies-IsBytes m.segs valid)

stream-whole : (m : Message) (fits : Fits m.segs) → length (header m fits ++ bodies m.segs) % 8 ≡ 0
stream-whole m fits = omega (
  arith,
  length-append (header m fits) (bodies m.segs),
  length-header m fits,
  length-bodies m.segs fits.framed,
  total_length-whole m.segs fits.framed,
  stream_header_size_lem (length m.segs - 1) (omega (arith, fits.few)),
)

unmarshal_packed-unpack :
    (packed stream : List ℕ)
    → 1 ≤ length stream
    → unpack [] packed ≡ some (stream, none)
    → unmarshal_packed packed ≡ unmarshal stream
unfolding unmarshal_packed ◌>>=◌ ◌>>◌ wrap_error
unmarshal_packed-unpack packed [] h e = absurd (omega arith)
unmarshal_packed-unpack [] (x ∷ stream) h e = absurd (unfold unpack unpack_loop in cc e)
unmarshal_packed-unpack (b ∷ packed) (x ∷ stream) h e =
    let some_bytes : (suc (length packed) == 0) ≡ false = ground arith in rw (some_bytes, e) refl

-- MarshalPacked returns, without an error, for every message of 1 to 2 ^ 30 - 1 segments of bytes, each of
-- whole words and within maxSegmentSize, whose stream's size fits an int. UnmarshalPacked turns the packed
-- bytes into segments with the same bytes in the same order.
pub unmarshal_packed-marshal_packed :
    (m : Message)
    → Fits m.segs
    → length m.segs < 2 ^ 30
    → AllSlices m.segs
    → (packed : List ℕ) × (marshal_packed m ≡ ok packed)
      × (unmarshal_packed packed ≡ ok (map trimmed m.segs))
unfolding marshal_packed ◌>>=◌
unmarshal_packed-marshal_packed m fits short valid =
    let (packed, packs, bytes, unpacks) =
      unpack-pack [] _ (stream-whole m fits) (stream-IsBytes m fits valid) in
    (
      packed,
      rw (marshal_lem m fits) packs,
      unmarshal_packed-unpack packed _ long (unpacks []) ∙ unmarshal_lem m fits short,
    )
  where
    long : 1 ≤ length (header m fits ++ bodies m.segs)
    long = omega (
      arith,
      length-append (header m fits) (bodies m.segs),
      length-header m fits,
      stream_header_size_lem (length m.segs - 1) (omega (arith, fits.few)),
    )
