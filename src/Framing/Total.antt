-- ===== src/Framing/Total.antt =====
-- Unmarshal on any bytes: no panic, and segments that lie one after another behind the header.
use go_capnp.Base.{take-take, ℕ, zero, suc, ◌+◌, ◌-◌, ◌*◌, ◌%◌, ◌^◌, ◌≤◌, ◌<◌, ◌≡◌, refl, ap, ◌∙◌}
use go_capnp.Base.{arith, List, [], ◌∷◌, length, take, drop, u32, u64, true, false, inl, inr}
use go_capnp.Base.{length-take, length-drop, Bool, ◌⊎◌}
use mathlib.Core.Path.{subst}
use go_capnp.Base.Result.{ok, err, ◌>>=◌, ◌>>◌, Ensures, returns, fails, Ensures-bind}
use go_capnp.Base.Result.{Ensures-cases, Ensures-wrap, Ensures-ok, ok-injective, Ensures-self}
use go_capnp.Base.Result.{GoError, Result}
use go_capnp.Address.{max_int, max_segment_size}
use go_capnp.Address.Bounds.{times_exact}
use go_capnp.Slice.{Slice, IsBytes, le_uint}
use go_capnp.Slice.Bytes.{le_uint-lt, take-IsBytes, drop-IsBytes}
use go_capnp.Framing.{unmarshal, stream_header_size, uint32_at, segment_size, sum_sizes}
use go_capnp.Framing.{demux_from, max_segment, stream_total_size, demux, to_i32, sized, refuse}
use go_capnp.Framing.Header.{stream_header_size_lem}
use go_capnp.Framing.Fill.{within}

-- The segments are consecutive parts of the bytes, of whole words, within maxSegmentSize, and
-- have no capacity beyond their length.
abbrev pub AreCut : List ℕ → List Slice → Type 0
AreCut bytes [] = Unit {0}
AreCut bytes (s ∷ segs) =
    (s.mem ≡ take s.len bytes)
    × (s.len ≤ length bytes)
    × (s.len ≤ max_segment_size)
    × (s.len % 8 ≡ 0)
    × AreCut (drop s.len bytes) segs

pub uint32_at_value :
    (b : List ℕ) (at : ℕ) → at + 4 ≤ length b → uint32_at b at ≡ ok (le_uint (take 4 (drop at b)))
unfolding uint32_at
uint32_at_value b at room = ground arith

four_bytes-lt : (b : List ℕ) → IsBytes b → 4 ≤ length b → le_uint (take 4 b) < 2 ^ 32
four_bytes-lt b bytes room =
    let four : length (take 4 b) ≡ 4 = omega (arith, length-take 4 b) in
    subst (λ k. le_uint (take 4 b) < 256 ^ k) four (le_uint-lt _ (take-IsBytes 4 b bytes))

uint32_at_total :
    (b : List ℕ) (at : ℕ)
    → IsBytes b
    → at + 4 ≤ length b
    → Ensures (λ v. v < 2 ^ 32) (uint32_at b at)
uint32_at_total b at bytes room =
    Ensures-ok (λ v. v < 2 ^ 32) (uint32_at_value b at room)
      (four_bytes-lt (drop at b) (drop-IsBytes at b bytes) (omega (arith, length-drop at b)))

sized_total : {P : ℕ → Type 0} (i : ℕ) (r : ℕ × Bool) → (r.1 ≡ true → P r.0) → Ensures P (sized i r)
sized_total i (sz, true) h = returns (h refl)
sized_total i (sz, false) h = fails

-- The offset of a size stays inside the header also where it wraps.
segment_size_total :
    (hdr : List ℕ) (i : ℕ)
    → IsBytes hdr
    → 4 * (i + 2) ≤ length hdr
    → Ensures (λ sz. (sz ≤ max_segment_size) × (sz % 8 ≡ 0)) (segment_size hdr (u32 i))
unfolding segment_size
segment_size_total hdr i bytes room =
    Ensures-bind (λ v. v < 2 ^ 32)
      (uint32_at_total hdr (u32 (4 + u32 (u32 i * 4))) bytes (omega arith))
      λ s lt. sized_total (u32 i) _ (λ fits.
        let exact = times_exact 8 (to_i32 s) in omega (arith, exact.1 fits, (exact.0.0 fits).1))

-- Both loops read the same sizes, so what `totalSize` has summed up bounds what `demux` cuts off.
demux_from_total :
    (hdr : List ℕ) (left i sum total : ℕ) (bytes : List ℕ)
    → IsBytes hdr
    → 4 * (i + left + 1) ≤ length hdr
    → sum + left * max_segment_size < 2 ^ 64
    → sum_sizes hdr left i sum ≡ ok total
    → (sum ≤ total)
      × (total ≤ sum + length bytes
          → Ensures
              (λ segs. AreCut bytes segs × (length segs ≡ left))
              (demux_from hdr left i bytes))
unfolding sum_sizes demux_from ◌>>=◌ ◌>>◌
demux_from_total hdr zero i sum total bytes valid room small e =
    (omega (arith, ok-injective e), λ fits. returns (tt, refl))
demux_from_total hdr (suc left) i sum total bytes valid room small e =
    elim (Ensures-cases (segment_size_total hdr i valid (omega arith))) [
      | inr (x, failed) ↦ absurd (let f : err x ≡ ok total = rw failed at e in cc f)
      | inl (sz, found, (bound, whole)) ↦
          let next =
            demux_from_total hdr left (i + 1) (u64 (sum + sz)) total (drop sz bytes) valid
              (omega arith) (omega arith) (rw found at e) in
          (
            omega (arith, next.0),
            λ fits. rw found (
                rw (within (length bytes) sz (omega (arith, next.0))) (
                  Ensures-bind (λ segs. AreCut (drop sz bytes) segs × (length segs ≡ left))
                    (next.1 (omega (arith, next.0, length-drop sz bytes)))
                    λ segs (cut, many).
                      returns ((refl, omega (arith, next.0), bound, whole, cut), ap suc many))),
          )
    ]

few_or_all : (n : ℕ) → n < 2 ^ 32 → (u32 (n + 1) ≡ n + 1) ⊎ (u32 (n + 1) ≡ 0)
few_or_all n h = ground arith

sum_sizes_total :
    (hdr : List ℕ) (left i sum : ℕ)
    → IsBytes hdr
    → 4 * (i + left + 1) ≤ length hdr
    → Ensures (λ total. Unit {0}) (sum_sizes hdr left i sum)
unfolding sum_sizes
sum_sizes_total hdr zero i sum valid room = returns tt
sum_sizes_total hdr (suc left) i sum valid room =
    Ensures-bind _ (segment_size_total hdr i valid (omega arith))
      λ x h. sum_sizes_total hdr left (i + 1) (u64 (sum + x)) valid (omega arith)

stream_total_size-total :
    (hdr : List ℕ) (n : ℕ)
    → IsBytes hdr
    → max_segment hdr ≡ ok n
    → 4 * (n + 2) ≤ length hdr
    → Ensures (λ total. stream_total_size hdr ≡ ok total) (stream_total_size hdr)
unfolding stream_total_size ◌>>=◌
stream_total_size-total hdr n valid count room =
    rw count (Ensures-self (sum_sizes_total hdr (n + 1) 0 0 valid (omega arith)) _ (λ a e. e))

Ensures-refuse {ℓ} :
    {A : Type ℓ} {Q : A → Type 0} (test : Bool) (x : GoError) {k : Result A}
    → (test ≡ false → Ensures Q k)
    → Ensures Q (refuse test (err x) >> k)
unfolding ◌>>◌
Ensures-refuse true x h = fails
Ensures-refuse false x h = h refl

demux_total :
    (hdr : List ℕ) (n total : ℕ) (bytes : List ℕ)
    → IsBytes hdr
    → max_segment hdr ≡ ok n
    → n < 2 ^ 32
    → 4 * (n + 2) ≤ length hdr
    → stream_total_size hdr ≡ ok total
    → total ≤ length bytes
    → Ensures (λ segs. AreCut bytes segs × (length segs ≡ u32 (n + 1))) (demux hdr bytes)
unfolding demux stream_total_size ◌>>=◌ ◌>>◌
demux_total hdr n total bytes valid count lt room e fits = rw count (
    rw (within (max_int - 1) n (omega arith)) (elim (few_or_all n lt) [
      | inl few ↦ rw few (
          (demux_from_total hdr (n + 1) 0 0 total bytes valid (omega arith) (omega arith)
              (rw count at e)).1
            (omega arith))
      | inr all ↦ rw all (unfold demux_from in returns (tt, refl))
    ]))

max_segment-take :
    (bytes : List ℕ) (h : ℕ)
    → 4 ≤ h
    → h ≤ length bytes
    → max_segment (take h bytes) ≡ ok (le_uint (take 4 bytes))
unfolding max_segment
max_segment-take bytes h four room =
    uint32_at_value (take h bytes) 0 (omega (arith, length-take h bytes))
    ∙ ap (λ bs. ok (le_uint bs)) (take-take 4 h bytes four)

-- On any bytes that an int can count, Unmarshal does not panic. The segments that it returns are
-- as many as the header says (0 for 2 ^ 32), and lie one after another behind the header, each of
-- whole words, in bounds, and within maxSegmentSize.
pub unmarshal-AreCut :
    (bytes : List ℕ)
    → IsBytes bytes
    → length bytes ≤ max_int
    → let n = le_uint (take 4 bytes) in
      Ensures
        (λ segs. AreCut (drop (stream_header_size n) bytes) segs × (length segs ≡ u32 (n + 1)))
        (unmarshal bytes)
unfolding unmarshal
unmarshal-AreCut bytes valid small =
    let n = le_uint (take 4 bytes) in
    let h = stream_header_size n in
    Ensures-refuse _ _ λ some_bytes. Ensures-refuse _ _ λ a_word.
      let long : 8 ≤ length bytes = ground arith in
      let lt : n < 2 ^ 32 = four_bytes-lt bytes valid (omega (arith, long)) in
      Ensures-bind (λ v. v ≡ n)
        (Ensures-ok (λ v. v ≡ n) (uint32_at_value bytes 0 (omega (arith, long))) refl)
        λ v same. rw same (
          Ensures-refuse _ _ λ fits.
            let room : h ≤ length bytes = ground arith in
            let count =
              max_segment-take bytes h (omega (arith, stream_header_size_lem n lt)) room in
            let hdr_room : 4 * (n + 2) ≤ length (take h bytes) =
              omega (arith, stream_header_size_lem n lt, length-take h bytes, room) in
            Ensures-bind (λ total. stream_total_size (take h bytes) ≡ ok total)
              (Ensures-wrap _
                (stream_total_size-total _ n (take-IsBytes h bytes valid) count hdr_room))
              λ total e. Ensures-refuse _ _ λ enough. Ensures-wrap _ (
                demux_total (take h bytes) n total (drop h bytes) (take-IsBytes h bytes valid) count
                  lt hdr_room e (ground arith)))
