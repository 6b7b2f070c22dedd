-- ===== src/Framing/Fill.antt =====
-- Marshal's loops over the segments: the buffer size, and the buffer that they fill.
use go_capnp.Base.{ℕ, suc, ◌+◌, ◌*◌, ◌/◌, ◌%◌, ◌^◌, ◌≤◌, ◌<◌, ◌≡◌, refl, sym, ap, ◌∙◌, arith}
use go_capnp.Base.{List, [], ◌∷◌, ◌++◌, length, drop, replicate, u32, u64, length-append}
use go_capnp.Base.{get_elem?, some, leb, ltb, true, false}
use mathlib.Core.List.{append_assoc, append-nil}
use go_capnp.Base.Result.{ok, ◌>>=◌, ◌>>◌, wrap_error}
use go_capnp.Address.{max_int, max_segment_size}
use go_capnp.Slice.{Slice, put_le, splice}
use go_capnp.Slice.Bytes.{length-put_le}
use go_capnp.Message.{Message, segment}
use go_capnp.Framing.{contents, put_uint32_at, data_size, fill}
use go_capnp.Framing.Header.{AllFramed, entries, bodies, total_length, length-contents}

get_elem?-append :
    (before rest : List Slice) (s : Slice)
    → get_elem? (before ++ (s ∷ rest)) (length before) ≡ some s
get_elem?-append [] rest s = refl
get_elem?-append (b ∷ before) rest s = get_elem?-append before rest s

-- `rest` are the segments from segment i on.
pub record From (m : Message) (i : ℕ) (rest : List Slice) : Type 0 where
  pub before : List Slice
  pub form : m.segs ≡ before ++ rest
  pub at : length before ≡ i

pub From-next :
    {m : Message} {i : ℕ} (s : Slice) {rest : List Slice}
    → From m i (s ∷ rest)
    → From m (i + 1) rest
From-next s {rest} h = record {
  before = h.before ++ (s ∷ []);
  form = h.form ∙ sym (append_assoc h.before (s ∷ []) rest);
  at = omega (arith, length-append h.before (s ∷ []), h.at);
}

pub segment_at :
    (m : Message) {i : ℕ} (s : Slice) {rest : List Slice}
    → From m i (s ∷ rest)
    → i < 2 ^ 32
    → segment m (u32 i) ≡ ok (record { id = u32 i; bytes = s })
unfolding segment
segment_at m {i} s {rest} h small =
    let e : u32 i ≡ length h.before = omega (arith, h.at) in
    rw (h.form, e, get_elem?-append h.before rest s) refl

pub whole_words : (n : ℕ) → n % 8 ≡ 0 → ltb 0 (n % 8) ≡ false
whole_words n h = ground arith

pub within : (bound n : ℕ) → n ≤ bound → ltb bound n ≡ false
within bound n h = ground arith

pub data_size_lem :
    (m : Message) (rest : List Slice) (i sum : ℕ)
    → From m i rest
    → AllFramed rest
    → i + length rest ≤ 2 ^ 32
    → sum + total_length rest ≤ max_int
    → data_size m (length rest) i sum ≡ ok (sum + total_length rest)
unfolding data_size ◌>>=◌ ◌>>◌ wrap_error
data_size_lem m [] i sum h framed few fits = ap ok (omega arith)
data_size_lem m (s ∷ rest) i sum h (f, framed) few fits = rw (segment_at m s h (omega arith)) (
    rw
      (
        length-contents s f.within,
        whole_words s.len f.whole,
        within max_segment_size s.len f.small,
        within max_int (u64 (sum + s.len)) (omega arith),
      )
      (data_size_lem m rest (i + 1) (u64 (sum + s.len)) (From-next s h) framed (omega arith)
          (omega arith)
        ∙ ap ok (omega arith)))

splice_middle :
    (done zs bs : List ℕ)
    → splice (done ++ zs) (length done) bs ≡ done ++ (bs ++ drop (length bs) zs)
splice_middle [] zs bs = refl
splice_middle (d ∷ done) zs bs = ap (◌∷◌ d) (splice_middle done zs bs)

pub put_uint32_at_zeros :
    (done zs : List ℕ) (v at : ℕ)
    → at ≡ length done
    → put_uint32_at (done ++ (0 ∷ 0 ∷ 0 ∷ 0 ∷ zs)) at v ≡ ok (done ++ (put_le 4 v ++ zs))
unfolding put_uint32_at
put_uint32_at_zeros done zs v at e =
    rw (e, room, splice_middle done (0 ∷ 0 ∷ 0 ∷ 0 ∷ zs) (put_le 4 v), length-put_le 4 v) refl
  where
    room : leb (length done + 4) (length (done ++ (0 ∷ 0 ∷ 0 ∷ 0 ∷ zs))) ≡ true
    room = ground (arith, length-append done (0 ∷ 0 ∷ 0 ∷ 0 ∷ zs))

-- The zeros behind the count become the sizes, and the segments follow the padding.
pub fill_lem :
    (m : Message) (rest : List Slice) (i pad : ℕ) (done body : List ℕ)
    → From m i rest
    → AllFramed rest
    → i + length rest ≤ 2 ^ 32
    → length done ≡ 4 * (i + 1)
    → fill m (length rest) i (done ++ (replicate (4 * length rest + pad) 0 ++ body))
      ≡ ok (done ++ (entries rest ++ (replicate pad 0 ++ (body ++ bodies rest))))
unfolding fill ◌>>=◌ ◌>>◌ wrap_error
fill_lem m [] i pad done body h framed few at =
    let none_left : 4 * 0 + pad ≡ pad = omega arith in rw (none_left, append-nil body) refl
fill_lem m (s ∷ rest) i pad done body h (f, framed) few at = rw (segment_at m s h (omega arith)) (
    rw
      (
        four,
        length-contents s f.within,
        whole_words s.len f.whole,
        put_uint32_at_zeros done (replicate (4 * length rest + pad) 0 ++ body) (u32 (s.len / 8))
            ((i + 1) * 4) (omega (arith, at)),
      )
      (ap (fill m (length rest) (i + 1)) before
        ∙ fill_lem m rest (i + 1) pad (done ++ e) (body ++ contents s) (From-next s h) framed
            (omega arith)
            (omega (arith, at, length-append done e, length-put_le 4 (u32 (s.len / 8))))
        ∙ ap ok after))
  where
    e : List ℕ
    e = put_le 4 (u32 (s.len / 8))

    zeros : List ℕ
    zeros = replicate (4 * length rest + pad) 0

    before :
        done ++ (e ++ (zeros ++ body)) ++ contents s ≡ done ++ e ++ (zeros ++ (body ++ contents s))
    before = simp append_assoc

    after :
        done ++ e ++ (entries rest ++ (replicate pad 0 ++ (body ++ contents s ++ bodies rest)))
        ≡ done ++ (e ++ entries rest ++ (replicate pad 0 ++ (body ++ (contents s ++ bodies rest))))
    after = simp append_assoc

    four : 4 * length (s ∷ rest) + pad ≡ suc (suc (suc (suc (4 * length rest + pad))))
    four = omega arith
