-- ===== src/Packed/Word.antt =====
-- One word: the header that Pack makes, and the two ways in which Unpack reads it back.
use go_capnp.Base.{ℕ, suc, ◌+◌, ◌*◌, ◌/◌, ◌%◌, ◌^◌, ◌<◌, ◌≡◌, refl, sym, ap, ◌∙◌, arith, false}
use go_capnp.Base.{List, [], ◌∷◌, ◌++◌, length, bit_and, ◌==◌, if◌then◌else◌, zero, inl, inr, leb}
use go_capnp.Base.{get_elem?, ◌≤◌, some, drop, Bool-cases, leb→le}
use go_capnp.Base.Bits.{bit_and_low, bit_and_high, bit_or_low_high, bit_and-zero}
use native.Mathlib.Nat.{add-zero, pow-suc, one-le-pow, div-div-eq-div-mul}
use go_capnp.Slice.{IsBytes}
use native.Mathlib.Numerals.{add-one}
use mathlib.Core.List.{append-nil, append_assoc}
use go_capnp.Packed.{scan_word, slow_word, read_word, fast_word, word_size}

-- The mask of the bytes that are not zero, lowest first, and those bytes.
abbrev pub mask : List ℕ → ℕ
mask [] = 0
mask (b ∷ bs) = (if b == 0 then 0 else 1) + 2 * mask bs

abbrev pub nonzero : List ℕ → List ℕ
nonzero [] = []
nonzero (b ∷ bs) = if b == 0 then nonzero bs else b ∷ nonzero bs

pub mask-lt : (bs : List ℕ) → mask bs < 2 ^ length bs
mask-lt [] = omega arith
mask-lt (b ∷ bs) = ground (arith, pow-suc 2 (length bs), mask-lt bs)

next_power : (i n : ℕ) → n * 2 ^ (i + 1) ≡ 2 * (n * 2 ^ i)
next_power i n = rw add-one (omega (arith, ap (λ (t : ℕ). n * t) (pow-suc 2 i)))

pub scan_word_lem :
    (i hdr : ℕ) (buf bs : List ℕ)
    → hdr < 2 ^ i
    → scan_word i hdr buf bs ≡ (hdr + mask bs * 2 ^ i, buf ++ nonzero bs)
unfolding scan_word
scan_word_lem i hdr buf [] h = ground (arith, append-nil buf)
scan_word_lem i hdr buf (b ∷ bs) h = ground (
  arith,
  bit_or_low_high i hdr 1,
  next_power i 1,
  next_power i (mask bs),
  scan_word_lem (i + 1) hdr buf bs,
  scan_word_lem (i + 1) (hdr + 1 * 2 ^ i) (buf ++ (b ∷ [])) bs,
  append_assoc buf (b ∷ []) (nonzero bs),
)

bit_test : (tag k : ℕ) → bit_and tag (1 * 2 ^ k) ≡ tag / 2 ^ k % 2 * 2 ^ k
bit_test tag k = bit_and_high k tag 1 ∙ ap (λ (t : ℕ). t * 2 ^ k) (bit_and_low 1 (tag / 2 ^ k))

halves : (tag k : ℕ) → tag / 2 ^ k / 2 ≡ tag / 2 ^ suc k
halves tag k = rw pow-suc (div-div-eq-div-mul tag (2 ^ k) 2)

next_bits : (tag k : ℕ) → tag / 2 ^ (k + 1) ≡ tag / 2 ^ k / 2
next_bits tag k = rw add-one (sym (halves tag k))

-- The bytes that the tag's bits ask for read back as the word, and the rest is left.
pub slow_word-mask :
    (bs : List ℕ) (k tag : ℕ) (rest : List ℕ)
    → tag / 2 ^ k ≡ mask bs
    → slow_word (length bs) k tag (nonzero bs ++ rest)
      ≡ record { word = bs; rest = rest; eof = false }
unfolding slow_word
slow_word-mask [] k tag rest h = refl
slow_word-mask (b ∷ bs) k tag rest h =
    ground
      (arith, bit_test tag k, one-le-pow k 2, next_bits tag k, slow_word-mask bs (k + 1) tag rest)

get_elem?-drop :
    (src : List ℕ) (i : ℕ)
    → IsBytes src
    → i < length src
    → (b : ℕ) × (b < 256) × (get_elem? src i ≡ some b) × (drop i src ≡ b ∷ drop (suc i) src)
get_elem?-drop [] i h lt = absurd (omega arith)
get_elem?-drop (b ∷ bs) zero (hb, h) lt = (b, hb, refl, refl)
get_elem?-drop (b ∷ bs) (suc i) (hb, h) lt = get_elem?-drop bs i h (omega arith)

-- The unrolled reads stay within src where it has the bytes left, and agree with the loop.
fast_word-slow_word :
    (left k i tag : ℕ) (src : List ℕ)
    → IsBytes src
    → i + left ≤ length src
    → (r : List ℕ × ℕ) × (fast_word left k i tag src ≡ some r)
      × (slow_word left k tag (drop i src)
          ≡ record { word = r.0; rest = drop r.1 src; eof = false })
unfolding fast_word slow_word
fast_word-slow_word zero k i tag src h room = (([], i), refl, refl)
fast_word-slow_word (suc left) k i tag src h room =
    let (b, byte, at, dropped) = get_elem?-drop src i h (omega arith) in
    elim (Bool-cases (tag / 2 ^ k % 2 == 0)) [
      | inl unset ↦
          let (r, fast, slow) = fast_word-slow_word left (k + 1) i tag src h (omega arith) in
          (
            (0 ∷ r.0, r.1),
            ground (arith, bit_and_low 1 (tag / 2 ^ k), bit_and-zero b, add-zero i, fast, at),
            ground (arith, bit_test tag k, slow),
          )
      | inr isset ↦
          let (r, fast, slow) = fast_word-slow_word left (k + 1) (suc i) tag src h (omega arith) in
          (
            (b ∷ r.0, r.1),
            ground (arith, bit_and_low 1 (tag / 2 ^ k), bit_and_low 8 b, add-one i, fast, at),
            ground (arith, bit_test tag k, one-le-pow k 2, dropped, slow),
          )
    ]

-- The unrolled path of Unpack is the loop: on bytes, it reads no index out of range, and the same
-- word and rest as the loop for the end of src.
pub read_word-slow_word :
    (tag : ℕ) (src : List ℕ)
    → IsBytes src
    → read_word tag src ≡ some (slow_word word_size 0 tag src)
unfolding read_word
read_word-slow_word tag src h = elim (Bool-cases (leb word_size (length src))) [
  | inl full ↦
      let (r, fast, slow) = fast_word-slow_word word_size 0 0 tag src h (leb→le _ _ full) in
      rw (full, fast, slow)
  | inr near_end ↦ rw near_end
]
