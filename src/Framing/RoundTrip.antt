-- ===== src/Framing/RoundTrip.antt =====
-- Marshal and Unmarshal: every message that fits is framed, and the stream gives its segments.
use go_capnp.Base.{ℕ, suc, ◌+◌, ◌-◌, ◌*◌, ◌^◌, ◌≤◌, ◌<◌, ◌≡◌, refl, sym, ap, ◌∙◌, arith, List, []}
use go_capnp.Base.{◌++◌, map, length, take, drop, replicate, u32, u64, ltb, false, ◌==◌}
use go_capnp.Base.{length-append, length-replicate}
use mathlib.Core.Path.{subst}
use mathlib.Core.List.{append_assoc, append-nil}
use go_capnp.Base.Result.{ok, ◌>>=◌, ◌>>◌, wrap_error}
use go_capnp.Address.{max_int}
use go_capnp.Slice.{Slice, put_le}
use go_capnp.Slice.Bytes.{length-put_le, take_append, drop_append}
use go_capnp.Message.{Message}
use go_capnp.Framing.{marshal, unmarshal, stream_header_size, uint32_at, demux, max_segment}
use go_capnp.Framing.{stream_total_size, fill}
use go_capnp.Framing.Header.{AllFramed, entries, bodies, total_length, trimmed, Holds}
use go_capnp.Framing.Header.{stream_header_size_lem, uint32_at-put_le, sum_sizes_lem}
use go_capnp.Framing.Header.{demux_from_lem, length-bodies, length-entries}
use go_capnp.Framing.Fill.{From, data_size_lem, fill_lem, put_uint32_at_zeros, within}

-- A message that Marshal accepts: one segment at least, each of whole words and within
-- maxSegmentSize, and the stream's size fits an int. An arena has at most 2 ^ 32 segments.
pub record Fits (segs : List Slice) : Type 0 where
  pub some_segment : 1 ≤ length segs
  pub few : length segs ≤ 2 ^ 32
  pub framed : AllFramed segs
  pub room : stream_header_size (length segs - 1) + total_length segs ≤ max_int

module _ (m : Message) (fits : Fits m.segs) where
  few : 0 + length m.segs ≤ 2 ^ 32
  few = omega (arith, fits.few)

  unfoldable pub pad : ℕ
  pad = stream_header_size (length m.segs - 1) - 4 * (length m.segs + 1)

  unfoldable pub count : List ℕ
  count = put_le 4 (length m.segs - 1)

  unfoldable pub header : List ℕ
  unfolding count pad
  header = count ++ (entries m.segs ++ replicate pad 0)

  pub length-header : length header ≡ stream_header_size (length m.segs - 1)
  unfolding header count pad
  length-header = omega (
    arith,
    length-append count (entries m.segs ++ replicate pad 0),
    length-append (entries m.segs) (replicate pad 0),
    length-put_le 4 (length m.segs - 1),
    length-entries m.segs,
    length-replicate {A = ℕ} pad 0,
    stream_header_size_lem (length m.segs - 1) (omega arith),
  )

  header-Holds : Holds header 0 m.segs
  unfolding header count
  header-Holds = record {
    done = count;
    tail = replicate pad 0;
    form = refl;
    at = omega (arith, length-put_le 4 (length m.segs - 1));
  }

  header_zeros :
      stream_header_size (length m.segs - 1) ≡ suc (suc (suc (suc (4 * length m.segs + pad))))
  unfolding pad
  header_zeros = omega (arith, stream_header_size_lem (length m.segs - 1) (omega arith))

  whole : From m 0 m.segs
  whole = record { before = []; form = refl; at = refl }

  filled :
      fill m
        (length m.segs)
        0
        (put_le 4 (length m.segs - 1) ++ replicate (4 * length m.segs + pad) 0)
      ≡ ok (header ++ bodies m.segs)
  unfolding header count
  filled =
      ap (fill m (length m.segs) 0) (ap (◌++◌ count) (sym (append-nil _)))
      ∙ fill_lem m m.segs 0 pad count [] whole fits.framed few
          (omega (arith, length-put_le 4 (length m.segs - 1)))
      ∙ ap ok (simp append_assoc)

  pub marshal_lem : marshal m ≡ ok (header ++ bodies m.segs)
  unfolding marshal ◌>>=◌ ◌>>◌
  marshal_lem =
      rw
        (
          some_segments,
          u32_top,
          within max_int (stream_header_size (length m.segs - 1)) (omega arith),
          data_size_lem m m.segs 0 0 whole fits.framed few (omega arith),
        )
        (rw
          (
            within max_int
                (u64 (stream_header_size (length m.segs - 1) + (0 + total_length m.segs)))
                (omega arith),
            header_zeros,
            put_uint32_at_zeros [] (replicate (4 * length m.segs + pad) 0) (length m.segs - 1) 0
                refl,
          )
          filled)
    where
      some_segments : (length m.segs == 0) ≡ false
      some_segments = ground arith

      u32_top : u32 (length m.segs - 1) ≡ length m.segs - 1
      u32_top = omega arith

  pub length-stream :
      length (header ++ bodies m.segs)
      ≡ stream_header_size (length m.segs - 1) + total_length m.segs
  length-stream =
      omega (
        arith,
        length-append header (bodies m.segs),
        length-header,
        length-bodies m.segs fits.framed,
      )

  module _ (more : List ℕ) where
    front : take (stream_header_size (length m.segs - 1)) (header ++ more) ≡ header
    front = subst (λ k. take k (header ++ more) ≡ header) length-header (take_append header more)

    behind : drop (stream_header_size (length m.segs - 1)) (header ++ more) ≡ more
    behind = subst (λ k. drop k (header ++ more) ≡ more) length-header (drop_append header more)

    count_at : uint32_at (header ++ more) 0 ≡ ok (length m.segs - 1)
    unfolding header count
    count_at =
        ap (λ bs. uint32_at bs 0) (append_assoc count (entries m.segs ++ replicate pad 0) more)
        ∙ uint32_at-put_le [] ((entries m.segs ++ replicate pad 0) ++ more) (length m.segs - 1) 0
            (omega arith) refl

  count_header : max_segment header ≡ ok (length m.segs - 1)
  unfolding max_segment header count
  count_header =
      uint32_at-put_le [] (entries m.segs ++ replicate pad 0) (length m.segs - 1) 0 (omega arith)
        refl

  one_more : length m.segs - 1 + 1 ≡ length m.segs
  one_more = omega arith

module _ (m : Message) (fits : Fits m.segs) (short : length m.segs < 2 ^ 30) where
  total_header : stream_total_size (header m fits) ≡ ok (total_length m.segs)
  unfolding stream_total_size ◌>>=◌
  total_header = rw (count_header m fits) (
      rw (one_more m fits) (
        sum_sizes_lem m.segs (header m fits) 0 0 fits.framed (header-Holds m fits)
          (omega (arith, short)) (omega (arith, fits.room))
        ∙ ap ok (omega arith)))

  demux-header : demux (header m fits) (bodies m.segs) ≡ ok (map trimmed m.segs)
  unfolding demux ◌>>=◌ ◌>>◌
  demux-header = rw (count_header m fits) (
      rw
        (
          within (max_int - 1) (length m.segs - 1) (omega (arith, short)),
          one_more m fits,
          no_wrap,
          sym (append-nil (bodies m.segs)),
        )
        (demux_from_lem m.segs (header m fits) [] 0 fits.framed (header-Holds m fits)
          (omega (arith, short))))
    where
      no_wrap : u32 (length m.segs) ≡ length m.segs
      no_wrap = omega (arith, short)

  pub unmarshal_lem : unmarshal (header m fits ++ bodies m.segs) ≡ ok (map trimmed m.segs)
  unfolding unmarshal ◌>>=◌ ◌>>◌ wrap_error
  unmarshal_lem =
      rw (not_empty, long, count_at m fits (bodies m.segs))
        (rw (header_fits, front m fits (bodies m.segs), behind m fits (bodies m.segs), total_header)
          (rw
            (
              within (length (bodies m.segs)) (total_length m.segs)
                  (omega (arith, length-bodies m.segs fits.framed)),
              demux-header,
            )
            refl))
    where
      size :
          length (header m fits ++ bodies m.segs)
          ≡ stream_header_size (length m.segs - 1) + total_length m.segs
      size = length-stream m fits

      not_empty : (length (header m fits ++ bodies m.segs) == 0) ≡ false
      not_empty =
          ground (arith, size, stream_header_size_lem (length m.segs - 1) (omega (arith, short)))

      long : ltb (length (header m fits ++ bodies m.segs)) 8 ≡ false
      long = ground (arith, size, stream_header_size_lem (length m.segs - 1) (omega (arith, short)))

      header_fits :
          ltb (length (header m fits ++ bodies m.segs)) (stream_header_size (length m.segs - 1))
          ≡ false
      header_fits = ground (arith, size)

-- Marshal returns, without an error, for every message of less than 2 ^ 30 segments that fits: one
-- segment at least, whole words within maxSegmentSize each, and a stream whose size fits an int.
-- Unmarshal turns its stream into segments with the same bytes in the same order.
pub unmarshal-marshal :
    (m : Message)
    → Fits m.segs
    → length m.segs < 2 ^ 30
    → (stream : List ℕ) × (marshal m ≡ ok stream)
      × (unmarshal stream ≡ ok (map trimmed m.segs))
      × (length stream ≡ stream_header_size (length m.segs - 1) + total_length m.segs)
unmarshal-marshal m fits short = (
  header m fits ++ bodies m.segs,
  marshal_lem m fits,
  unmarshal_lem m fits short,
  length-stream m fits,
)
