-- ===== src/Slice/Bytes.antt =====
-- Little-endian numbers, and parts of lists of bytes.
use go_capnp.Base.{replicate, ℕ, zero, suc, ◌+◌, ◌-◌, ◌/◌, ◌^◌, ◌≤◌, ◌<◌, ◌≡◌, refl, ap, arith}
use go_capnp.Base.{List, [], ◌∷◌, ◌++◌, length, take, drop, length-append, length-take}
use go_capnp.Base.{length-drop}
use native.Mathlib.Nat.{pow-suc}
use go_capnp.Slice.{IsBytes, le_uint, put_le, range, splice}

pub length-put_le : (n v : ℕ) → length (put_le n v) ≡ n
unfolding put_le
length-put_le zero v = refl
length-put_le (suc n) v = ap suc (length-put_le n (v / 256))

pub put_le-IsBytes : (n v : ℕ) → IsBytes (put_le n v)
unfolding put_le
put_le-IsBytes zero v = tt
put_le-IsBytes (suc n) v = (omega arith, put_le-IsBytes n (v / 256))

pub le_uint-put_le : (n v : ℕ) → v < 256 ^ n → le_uint (put_le n v) ≡ v
unfolding le_uint put_le
le_uint-put_le zero v h = omega arith
le_uint-put_le (suc n) v h =
    omega (arith, pow-suc 256 n, le_uint-put_le n (v / 256) (omega (arith, pow-suc 256 n)))

pub le_uint-lt : (bs : List ℕ) → IsBytes bs → le_uint bs < 256 ^ length bs
unfolding le_uint
le_uint-lt [] h = omega arith
le_uint-lt (b ∷ bs) (hb, h) = omega (arith, pow-suc 256 (length bs), le_uint-lt bs h)

pub take-IsBytes : (n : ℕ) (bs : List ℕ) → IsBytes bs → IsBytes (take n bs)
take-IsBytes zero bs h = tt
take-IsBytes (suc n) [] h = tt
take-IsBytes (suc n) (b ∷ bs) (hb, h) = (hb, take-IsBytes n bs h)

pub drop-IsBytes : (n : ℕ) (bs : List ℕ) → IsBytes bs → IsBytes (drop n bs)
drop-IsBytes zero bs h = h
drop-IsBytes (suc n) [] h = tt
drop-IsBytes (suc n) (b ∷ bs) (hb, h) = drop-IsBytes n bs h

pub append-IsBytes : (xs bs : List ℕ) → IsBytes xs → IsBytes bs → IsBytes (xs ++ bs)
append-IsBytes [] bs h k = k
append-IsBytes (x ∷ xs) bs (hx, h) k = (hx, append-IsBytes xs bs h k)

pub length-range :
    (mem : List ℕ) (lo hi : ℕ) → lo ≤ hi → hi ≤ length mem → length (range mem lo hi) ≡ hi - lo
length-range mem lo hi h k = omega (arith, length-take (hi - lo) (drop lo mem), length-drop lo mem)

pub length-splice :
    (mem bs : List ℕ) (at : ℕ)
    → at + length bs ≤ length mem
    → length (splice mem at bs) ≡ length mem
length-splice mem bs zero h =
    omega (arith, length-append bs (drop (length bs) mem), length-drop (length bs) mem)
length-splice [] bs (suc at) h = refl
length-splice (m ∷ mem) bs (suc at) h = ap suc (length-splice mem bs at (omega arith))

pub splice-IsBytes :
    (mem bs : List ℕ) (at : ℕ) → IsBytes mem → IsBytes bs → IsBytes (splice mem at bs)
splice-IsBytes mem bs zero h k = append-IsBytes bs _ k (drop-IsBytes (length bs) mem h)
splice-IsBytes [] bs (suc at) h k = tt
splice-IsBytes (m ∷ mem) bs (suc at) (hm, h) k = (hm, splice-IsBytes mem bs at h k)

pub take_append : (bs more : List ℕ) → take (length bs) (bs ++ more) ≡ bs
take_append [] more = refl
take_append (b ∷ bs) more = ap (◌∷◌ b) (take_append bs more)

-- What was written is read back from where it was written.
pub range-splice_self :
    (mem bs : List ℕ) (at : ℕ)
    → at ≤ length mem
    → take (length bs) (drop at (splice mem at bs)) ≡ bs
range-splice_self mem bs zero h = take_append bs _
range-splice_self [] bs (suc at) h = absurd (omega arith)
range-splice_self (m ∷ mem) bs (suc at) h = range-splice_self mem bs at (omega arith)

-- Bytes before and behind the written ones stay.
pub range-splice_before :
    (mem bs : List ℕ) (at lo k : ℕ)
    → at ≤ length mem
    → lo + k ≤ at
    → take k (drop lo (splice mem at bs)) ≡ take k (drop lo mem)
range-splice_before mem bs at lo zero h d = refl
range-splice_before mem bs zero lo (suc k) h d = absurd (omega arith)
range-splice_before [] bs (suc at) lo (suc k) h d = absurd (omega arith)
range-splice_before (m ∷ mem) bs (suc at) zero (suc k) h d =
    ap (◌∷◌ m) (range-splice_before mem bs at zero k (omega arith) (omega arith))
range-splice_before (m ∷ mem) bs (suc at) (suc lo) (suc k) h d =
    range-splice_before mem bs at lo (suc k) (omega arith) (omega arith)

drop-append_past :
    (bs mem : List ℕ) (lo : ℕ)
    → length bs ≤ lo
    → length bs ≤ length mem
    → drop lo (bs ++ drop (length bs) mem) ≡ drop lo mem
drop-append_past [] mem lo h k = refl
drop-append_past (b ∷ bs) mem zero h k = absurd (omega arith)
drop-append_past (b ∷ bs) [] (suc lo) h k = absurd (omega arith)
drop-append_past (b ∷ bs) (m ∷ mem) (suc lo) h k =
    drop-append_past bs mem lo (omega arith) (omega arith)

pub drop-splice_behind :
    (mem bs : List ℕ) (at lo : ℕ)
    → at + length bs ≤ length mem
    → at + length bs ≤ lo
    → drop lo (splice mem at bs) ≡ drop lo mem
drop-splice_behind mem bs zero lo h d = drop-append_past bs mem lo (omega arith) (omega arith)
drop-splice_behind [] bs (suc at) lo h d = absurd (omega arith)
drop-splice_behind (m ∷ mem) bs (suc at) zero h d = absurd (omega arith)
drop-splice_behind (m ∷ mem) bs (suc at) (suc lo) h d =
    drop-splice_behind mem bs at lo (omega arith) (omega arith)

pub drop_append : (bs more : List ℕ) → drop (length bs) (bs ++ more) ≡ more
drop_append [] more = refl
drop_append (b ∷ bs) more = drop_append bs more

pub zeros-IsBytes : (k : ℕ) → IsBytes (replicate k 0)
zeros-IsBytes zero = tt
zeros-IsBytes (suc k) = (omega arith, zeros-IsBytes k)
