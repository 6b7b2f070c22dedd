-- ===== src/Framing/Header.antt =====
-- The header of a stream: its size, its entries, and the loops of `totalSize` and `demux` over a
-- header that holds a list of segments' sizes.
use go_capnp.Base.{ℕ, ◌+◌, ◌*◌, ◌/◌, ◌%◌, ◌^◌, ◌≤◌, ◌<◌, ◌≡◌, refl, ap, ◌∙◌, arith, u64, ◌-◌}
use go_capnp.Base.{List, [], ◌∷◌, ◌++◌, map, length, take, drop, u32, ltb, false, length-append}
use go_capnp.Base.{length-take, true}
use mathlib.Core.Path.{subst}
use mathlib.Core.List.{append_assoc}
use go_capnp.Base.Int.{to_i32}
use go_capnp.Base.Result.{ok, ◌>>=◌, ◌>>◌}
use go_capnp.Address.{max_segment_size, times}
use go_capnp.Address.Bounds.{and_not_seven}
use go_capnp.Slice.{Slice, le_uint, put_le}
use go_capnp.Slice.Bytes.{length-put_le, le_uint-put_le, take_append, drop_append}
use go_capnp.Framing.{contents, stream_header_size, uint32_at, segment_size, sum_sizes}
use go_capnp.Framing.{demux_from}

-- The header has room for the count and the sizes, and is less than a word longer.
pub stream_header_size_lem :
    (n : ℕ)
    → n < 2 ^ 32
    → (stream_header_size n % 8 ≡ 0)
      × (4 * (n + 2) ≤ stream_header_size n)
      × (stream_header_size n < 4 * (n + 2) + 8)
unfolding stream_header_size
stream_header_size_lem n h = omega (arith, and_not_seven (u64 (u64 (u64 (n + 2) * 4) + 7)))

-- A segment that can be framed: whole words, within maxSegmentSize.
pub record IsFramed (s : Slice) : Type 0 where
  pub within : s.len ≤ length s.mem
  pub whole : s.len % 8 ≡ 0
  pub small : s.len ≤ max_segment_size

abbrev pub AllFramed : List Slice → Type 0
AllFramed [] = Unit {0}
AllFramed (s ∷ segs) = IsFramed s × AllFramed segs

abbrev pub entry : Slice → List ℕ
entry s = put_le 4 (u32 (length (contents s) / 8))

abbrev pub entries : List Slice → List ℕ
entries [] = []
entries (s ∷ segs) = entry s ++ entries segs

abbrev pub bodies : List Slice → List ℕ
bodies [] = []
bodies (s ∷ segs) = contents s ++ bodies segs

abbrev pub total_length : List Slice → ℕ
total_length [] = 0
total_length (s ∷ segs) = s.len + total_length segs

abbrev pub trimmed : Slice → Slice
trimmed s = record { mem = contents s; len = s.len }

pub length-contents : (s : Slice) → s.len ≤ length s.mem → length (contents s) ≡ s.len
length-contents s h = omega (arith, length-take s.len s.mem)

pub length-bodies : (segs : List Slice) → AllFramed segs → length (bodies segs) ≡ total_length segs
length-bodies [] h = refl
length-bodies (s ∷ segs) (f, h) = omega (
  arith,
  length-append (contents s) (bodies segs),
  length-contents s f.within,
  length-bodies segs h,
)

pub length-entries : (segs : List Slice) → length (entries segs) ≡ 4 * length segs
length-entries [] = refl
length-entries (s ∷ segs) = omega (
  arith,
  length-append (entry s) (entries segs),
  length-put_le 4 (u32 (length (contents s) / 8)),
  length-entries segs,
)

pub uint32_at-put_le :
    (done more : List ℕ) (v at : ℕ)
    → v < 2 ^ 32
    → at ≡ length done
    → uint32_at (done ++ (put_le 4 v ++ more)) at ≡ ok v
unfolding uint32_at
uint32_at-put_le done more v at h e = rw e (
    ground (
      arith,
      length-append done (put_le 4 v ++ more),
      length-append (put_le 4 v) more,
      length-put_le 4 v,
      value,
    ))
  where
    front : take 4 (put_le 4 v ++ more) ≡ put_le 4 v
    front =
        subst (λ k. take k (put_le 4 v ++ more) ≡ put_le 4 v) (length-put_le 4 v)
          (take_append (put_le 4 v) more)

    value : le_uint (take 4 (drop (length done) (done ++ (put_le 4 v ++ more)))) ≡ v
    value = rw (drop_append done (put_le 4 v ++ more), front) (le_uint-put_le 4 v (omega arith))

-- A size in words, as segmentSize reads it.
times_word : (n : ℕ) → n % 8 ≡ 0 → n ≤ max_segment_size → times 8 (to_i32 (u32 (n / 8))) ≡ (n, true)
unfolding times to_i32
times_word n whole small = ground arith

-- From the size of segment i on, `hdr` holds the sizes of `segs`.
pub record Holds (hdr : List ℕ) (i : ℕ) (segs : List Slice) : Type 0 where
  pub done : List ℕ
  pub tail : List ℕ
  pub form : hdr ≡ done ++ (entries segs ++ tail)
  pub at : length done ≡ 4 * (i + 1)

pub Holds-next :
    {hdr : List ℕ} {i : ℕ} (s : Slice) {segs : List Slice}
    → Holds hdr i (s ∷ segs)
    → Holds hdr (i + 1) segs
Holds-next s h = record {
  done = h.done ++ entry s;
  tail = h.tail;
  form = h.form ∙ simp append_assoc;
  at = omega (
    arith,
    length-append h.done (entry s),
    length-put_le 4 (u32 (length (contents s) / 8)),
    h.at,
  );
}

pub segment_size_at :
    {hdr : List ℕ} {i : ℕ} (s : Slice) {segs : List Slice}
    → Holds hdr i (s ∷ segs)
    → IsFramed s
    → i < 2 ^ 30 - 1
    → segment_size hdr (u32 i) ≡ ok s.len
unfolding segment_size ◌>>=◌
segment_size_at {hdr} {i} s {segs} h f few =
    rw
      (
        h.form ∙ ap (◌++◌ h.done) (append_assoc (entry s) (entries segs) h.tail),
        uint32_at-put_le h.done (entries segs ++ h.tail) (u32 (length (contents s) / 8))
            (u32 (4 + u32 (u32 i * 4))) (omega arith) (omega (arith, h.at)),
        length-contents s f.within,
        times_word s.len f.whole f.small,
      )
      refl

pub sum_sizes_lem :
    (segs : List Slice) (hdr : List ℕ) (i sum : ℕ)
    → AllFramed segs
    → Holds hdr i segs
    → i + length segs < 2 ^ 30
    → sum + total_length segs < 2 ^ 64
    → sum_sizes hdr (length segs) i sum ≡ ok (sum + total_length segs)
unfolding sum_sizes ◌>>=◌
sum_sizes_lem [] hdr i sum framed h few fits = ap ok (omega arith)
sum_sizes_lem (s ∷ segs) hdr i sum (f, framed) h few fits =
    rw (segment_size_at s h f (omega arith)) (
      sum_sizes_lem segs hdr (i + 1) (u64 (sum + s.len)) framed (Holds-next s h) (omega arith)
        (omega arith)
      ∙ ap ok (omega arith))

module _ (s : Slice) (segs : List Slice) (extra : List ℕ) (f : IsFramed s) where
  regrouped : bodies (s ∷ segs) ++ extra ≡ contents s ++ (bodies segs ++ extra)
  regrouped = append_assoc (contents s) (bodies segs) extra

  take_first : take s.len (bodies (s ∷ segs) ++ extra) ≡ contents s
  take_first = rw regrouped (
      subst (λ k. take k (contents s ++ (bodies segs ++ extra)) ≡ contents s)
        (length-contents s f.within) (take_append (contents s) (bodies segs ++ extra)))

  drop_first : drop s.len (bodies (s ∷ segs) ++ extra) ≡ bodies segs ++ extra
  drop_first = rw regrouped (
      subst (λ k. drop k (contents s ++ (bodies segs ++ extra)) ≡ bodies segs ++ extra)
        (length-contents s f.within) (drop_append (contents s) (bodies segs ++ extra)))

  room_first : ltb (length (bodies (s ∷ segs) ++ extra)) s.len ≡ false
  room_first = rw regrouped (
      ground (arith, length-append (contents s) (bodies segs ++ extra), length-contents s f.within))

pub demux_from_lem :
    (segs : List Slice) (hdr extra : List ℕ) (i : ℕ)
    → AllFramed segs
    → Holds hdr i segs
    → i + length segs < 2 ^ 30
    → demux_from hdr (length segs) i (bodies segs ++ extra) ≡ ok (map trimmed segs)
unfolding demux_from ◌>>=◌ ◌>>◌
demux_from_lem [] hdr extra i framed h few = refl
demux_from_lem (s ∷ segs) hdr extra i (f, framed) h few = rw (segment_size_at s h f (omega arith)) (
    rw
      (
        room_first s segs extra f,
        take_first s segs extra f,
        drop_first s segs extra f,
        demux_from_lem segs hdr extra (i + 1) framed (Holds-next s h) (omega arith),
      )
      refl)
