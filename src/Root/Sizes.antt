-- ===== src/Root/Sizes.antt =====
-- message.go: TotalSize, against the stream that Marshal makes.
use go_capnp.Base.{ℕ, ◌+◌, ◌≡◌, ◌≤◌, refl, arith, ap, ◌∙◌, List, [], ◌∷◌, length, u64, ◌^◌}
use go_capnp.Base.{◌-◌, ◌/◌, ◌*◌, ◌++◌}
use go_capnp.Base.Result.{ok, ◌>>=◌}
use go_capnp.Root.{sum_segments, message_size, Message, Slice}
use go_capnp.Message.{Message}
use go_capnp.Framing.RoundTrip.{Fits, header, marshal_lem, length-stream}
use go_capnp.Slice.{Slice}
use go_capnp.Framing.Fill.{From, segment_at, From-next}
use go_capnp.Framing.{marshal, stream_header_size}
use go_capnp.Framing.Header.{AllFramed, stream_header_size_lem, total_length, length-contents}
use go_capnp.Framing.Header.{bodies}
use go_capnp.Address.{max_int}

sum_segments_lem :
    (m : Message) (rest : List Slice) (i sum : ℕ)
    → From m i rest
    → AllFramed rest
    → i + length rest ≤ 2 ^ 32
    → sum + total_length rest ≤ max_int
    → sum_segments m (length rest) i sum ≡ ok (sum + total_length rest)
unfolding sum_segments ◌>>=◌
sum_segments_lem m [] i sum h framed few fits = ap ok (omega arith)
sum_segments_lem m (s ∷ rest) i sum h (f, framed) few fits = rw (segment_at m s h (omega arith)) (
    rw (length-contents s f.within) (
      sum_segments_lem m rest (i + 1) (u64 (sum + s.len)) (From-next s h) framed (omega arith)
        (omega arith)
      ∙ ap ok (omega arith)))

-- For every message of 1 to 2 ^ 32 segments, each of whole words and within maxSegmentSize, whose stream's
-- size fits an int, Marshal returns without an error, and TotalSize returns the length of its stream.
pub message_size-marshal :
    (m : Message)
    → Fits m.segs
    → (stream : List ℕ) × (marshal m ≡ ok stream) × (message_size m ≡ ok (length stream))
unfolding message_size
message_size-marshal m fits =
    let whole =
      stream_header_size_lem (length m.segs - 1) (omega (arith, fits.few, fits.some_segment)) in
    let words : u64 (u64 (length m.segs / 2 + 1) * 8) ≡ stream_header_size (length m.segs - 1) =
      omega (arith, whole, fits.few, fits.some_segment) in
    (
      header m fits ++ bodies m.segs,
      marshal_lem m fits,
      sum_segments_lem m m.segs 0 _ (record { before = []; form = refl; at = refl }) fits.framed
            (omega (arith, fits.few)) (omega (arith, words, fits.room))
          ∙ ap ok (omega (arith, words, length-stream m fits)),
    )
