-- ===== src/Framing/Buffers.antt =====
-- The Encoder's buffers, one after another, are the bytes of Marshal.
use go_capnp.Base.{◌/◌, if◌then◌else◌, ℕ, ◌+◌, ◌-◌, ◌*◌, ◌%◌, ◌^◌, ◌≡◌, refl, sym, ap, ◌∙◌}
use go_capnp.Base.{arith, List, [], ◌∷◌, ◌++◌, length, replicate, u32, length-append, false, ◌==◌}
use go_capnp.Base.{Bool-cases, inl, inr, ◌≤◌}
use mathlib.Core.List.{append_assoc, append-nil}
use go_capnp.Base.Result.{ok, ◌>>=◌, ◌>>◌, wrap_error}
use go_capnp.Address.{max_int, max_segment_size}
use go_capnp.Slice.{Slice, put_le}
use go_capnp.Slice.Bytes.{length-put_le}
use go_capnp.Message.{Message}
use go_capnp.Framing.{contents, stream_header_size, marshal}
use go_capnp.Framing.Header.{AllFramed, entries, bodies, length-entries, length-contents}
use go_capnp.Framing.Header.{stream_header_size_lem}
use go_capnp.Framing.Fill.{From, From-next, segment_at, within}
use go_capnp.Framing.RoundTrip.{Fits, header, count, pad, marshal_lem}
use go_capnp.Framing.Encoder.{encode, encode_from, append_uint32}

abbrev pub concat : List (List ℕ) → List ℕ
concat [] = []
concat (b ∷ bufs) = b ++ concat bufs

abbrev all_contents : List Slice → List (List ℕ)
all_contents [] = []
all_contents (s ∷ segs) = contents s ∷ all_contents segs

concat-all_contents : (segs : List Slice) → concat (all_contents segs) ≡ bodies segs
concat-all_contents [] = refl
concat-all_contents (s ∷ segs) = ap (◌++◌ (contents s)) (concat-all_contents segs)

encode_from_lem :
    (m : Message) (rest : List Slice) (i : ℕ) (hdr : List ℕ) (bufs : List (List ℕ))
    → From m i rest
    → AllFramed rest
    → i + length rest ≤ 2 ^ 32
    → encode_from m (length rest) i hdr bufs ≡ ok (hdr ++ entries rest, bufs ++ all_contents rest)
unfolding encode_from append_uint32 ◌>>=◌ ◌>>◌ wrap_error
encode_from_lem m [] i hdr bufs h framed few = rw (append-nil hdr, append-nil bufs) refl
encode_from_lem m (s ∷ rest) i hdr bufs h (f, framed) few = rw (segment_at m s h (omega arith)) (
    rw
      (
        length-contents s f.within,
        within max_segment_size s.len f.small,
        same,
        encode_from_lem m rest (i + 1) (hdr ++ put_le 4 (u32 (s.len / 8)))
            (bufs ++ (contents s ∷ [])) (From-next s h) framed (omega arith),
        append_assoc hdr (put_le 4 (u32 (s.len / 8))) (entries rest),
        append_assoc bufs (contents s ∷ []) (all_contents rest),
      )
      refl)
  where
    same : u32 s.len ≡ s.len
    same = omega (arith, f.small)

module _ (m : Message) (fits : Fits m.segs) where
  sizes : List ℕ
  sizes = put_le 4 (length m.segs - 1) ++ entries m.segs

  length-sizes : length sizes ≡ 4 * (length m.segs + 1)
  unfolding sizes
  length-sizes = omega (
    arith,
    length-append (put_le 4 (length m.segs - 1)) (entries m.segs),
    length-put_le 4 (length m.segs - 1),
    length-entries m.segs,
  )

  sizes-header : sizes ++ replicate (pad m fits) 0 ≡ header m fits
  unfolding sizes header count
  sizes-header = append_assoc (put_le 4 (length m.segs - 1)) (entries m.segs) _

  -- Encode pads the header that it has written to whole words, Marshal computes the size first.
  padded : (if length sizes % 8 == 0 then sizes else append_uint32 sizes 0) ≡ header m fits
  unfolding append_uint32 put_le pad
  padded = elim (Bool-cases (length sizes % 8 == 0)) [
    | inl whole ↦
        let none_left : pad m fits ≡ 0 = ground (
          arith,
          length-sizes,
          stream_header_size_lem (length m.segs - 1) (omega (arith, fits.few)),
        ) in
        rw whole
          (sym (append-nil sizes) ∙ ap (λ k. sizes ++ replicate k 0) (sym none_left) ∙ sizes-header)
    | inr half ↦
        let four_left : pad m fits ≡ 4 = ground (
          arith,
          length-sizes,
          stream_header_size_lem (length m.segs - 1) (omega (arith, fits.few)),
        ) in
        rw half (ap (λ k. sizes ++ replicate k 0) (sym four_left) ∙ sizes-header)
  ]

  loop :
      encode_from m (length m.segs) 0 (append_uint32 [] (length m.segs - 1)) []
      ≡ ok (sizes, all_contents m.segs)
  unfolding sizes append_uint32
  loop =
      encode_from_lem m m.segs 0 (put_le 4 (length m.segs - 1)) []
        (record { before = []; form = refl; at = refl }) fits.framed (omega (arith, fits.few))

  encode_lem : encode m ≡ ok (header m fits ∷ all_contents m.segs)
  unfolding encode ◌>>=◌ ◌>>◌
  encode_lem =
      rw
        (
          some_segments,
          u32_top,
          within max_int (stream_header_size (length m.segs - 1)) (omega (arith, fits.room)),
          loop,
        )
        (ap (λ h. ok (h ∷ all_contents m.segs)) padded)
    where
      some_segments : (length m.segs == 0) ≡ false
      some_segments = ground (arith, fits.some_segment)

      u32_top : u32 (length m.segs - 1) ≡ length m.segs - 1
      u32_top = omega (arith, fits.few)

-- For every message of 1 to 2 ^ 32 segments, each of whole words and within maxSegmentSize, whose stream's
-- size fits an int, Marshal and Encode return without an error, and the buffers that Encode writes are, one
-- after another, the bytes that Marshal returns.
pub encode-marshal :
    (m : Message)
    → Fits m.segs
    → (bufs : List (List ℕ)) × (encode m ≡ ok bufs) × (marshal m ≡ ok (concat bufs))
encode-marshal m fits = (
  header m fits ∷ all_contents m.segs,
  encode_lem m fits,
  marshal_lem m fits ∙ ap ok (ap (◌++◌ (header m fits)) (sym (concat-all_contents m.segs))),
)
