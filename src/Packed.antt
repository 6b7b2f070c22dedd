-- ===== src/Packed.antt =====
-- packed/packed.go: Pack and Unpack, over lists of bytes. A packed stream is a tag byte for each
-- word, the word's bytes that are not zero, and a run after the tags 0x00 and 0xff.
pub mod Word
pub mod Step
pub mod RoundTrip
mod Tests
use go_capnp.Base.{ℕ, zero, suc, ◌+◌, ◌-◌, ◌*◌, ◌/◌, ◌%◌, ◌^◌, Bool, true, false, min, List, []}
use go_capnp.Base.{◌∷◌, ◌++◌, Option, none, some, length, take, drop, replicate, get_elem?, leb}
use go_capnp.Base.{ltb, ◌==◌, if◌then◌else◌, bit_and, bit_or, u8, ◌<<◌, ◌>>◌}
use go_capnp.Base.Result.{Result, GoError, new, ok, panic}

abbrev pub word_size : ℕ
word_size = 8

abbrev pub zero_tag : ℕ
zero_tag = 0x00

abbrev pub unpacked_tag : ℕ
unpacked_tag = 0xff

-- The loop over a word's bytes from byte i on, with the header and the bytes that are not zero.
unfoldable pub scan_word : ℕ → ℕ → List ℕ → List ℕ → ℕ × List ℕ
scan_word i hdr buf [] = (hdr, buf)
scan_word i hdr buf (b ∷ bs) =
    scan_word (i + 1) (if b == 0 then hdr else bit_or hdr (1 << i))
      (if b == 0 then buf else buf ++ (b ∷ [])) bs

-- `numZeroWords`: the search for a byte that is not zero, from byte i on.
unfoldable pub zero_words_from : ℕ → List ℕ → ℕ
zero_words_from i [] = i / word_size
zero_words_from i (b ∷ bs) = elim (b == 0) [
  | true ↦ zero_words_from (i + 1) bs
  | false ↦ i / word_size
]

unfoldable pub num_zero_words : List ℕ → ℕ
unfolding zero_words_from
num_zero_words bs = zero_words_from 0 bs

unfoldable pub count_zeros : List ℕ → ℕ
count_zeros [] = 0
count_zeros (b ∷ bs) = (if b == 0 then 1 else 0) + count_zeros bs

-- The loop that finds the end of the words to copy: those with at most one zero byte.
-- One round takes a word off `end - i`, so as many rounds as words are enough.
unfoldable pub raw_end : ℕ → ℕ → ℕ → List ℕ → ℕ
unfolding count_zeros
raw_end zero i end src = i
raw_end (suc rounds) i end src =
    let next = raw_end rounds (i + word_size) end src in
    if ltb i end then (if ltb 1 (count_zeros (take word_size (drop i src))) then i else next) else i

-- The switch on the header: what is appended behind the word, and what is left of src.
unfoldable pub pack_run : ℕ → List ℕ → List ℕ × List ℕ
pack_run hdr src =
    if hdr == zero_tag
    then (let z = min (num_zero_words src) 0xff in (u8 z ∷ [], drop (z * word_size) src))
    else if hdr == unpacked_tag
    then (let end = min (length src) (0xff * word_size) in
        let i = raw_end (end / word_size + 1) 0 end src in
        (u8 (i / word_size) ∷ take i src, drop i src))
    else ([], src)

-- The loop of `Pack`; none if the fuel runs out.
unfoldable pub pack_loop : ℕ → List ℕ → List ℕ → Option (List ℕ)
pack_loop fuel dst [] = some dst
pack_loop zero dst (b ∷ bs) = none
pack_loop (suc fuel) dst (b ∷ bs) =
    let (hdr, buf) = scan_word 0 0 [] (take word_size (b ∷ bs)) in
    let (run, rest) = pack_run hdr (drop word_size (b ∷ bs)) in
    pack_loop fuel (dst ++ (hdr ∷ (buf ++ run))) rest

abbrev packed_result : Option (List ℕ) → Result (List ℕ)
packed_result (some p) = ok p
packed_result none = panic "out of fuel"

unfoldable pub pack : List ℕ → List ℕ → Result (List ℕ)
pack dst src =
    if length src % word_size == 0
    then packed_result (pack_loop (length src) dst src)
    else panic "packed.Pack len(src) must be a multiple of 8"

-- The unrolled reads of `Unpack` and `ReadWord`, from byte k of the word and byte i of src on: the
-- bytes of the word, and the final i. None is an index out of range.
unfoldable pub fast_word : ℕ → ℕ → ℕ → ℕ → List ℕ → Option (List ℕ × ℕ)
fast_word zero k i tag src = some ([], i)
fast_word (suc left) k i tag src =
    let nz = bit_and (tag >> k) 1 in
    elim (get_elem? src i) [
      | none ↦ none
      | some b ↦ elim (fast_word left (k + 1) (i + nz) tag src) [
        | none ↦ none
        | some (bs, last) ↦ some (bit_and b (u8 (256 - nz)) ∷ bs, last)
      ]
    ]

pub record WordRead : Type 0 where
  pub word : List ℕ
  pub rest : List ℕ
  pub eof : Bool

-- The loop near the end of src, from byte k of the word on. At the end of src the rest of the
-- word stays zero.
unfoldable pub slow_word : ℕ → ℕ → ℕ → List ℕ → WordRead
slow_word zero k tag src = record { word = []; rest = src; eof = false }
slow_word (suc left) k tag src = elim (bit_and tag (1 << k) == 0) [
  | true ↦ let r = slow_word left (k + 1) tag src in record r { word = 0 ∷ r.word }
  | false ↦ elim src [
    | [] ↦ record { word = replicate (suc left) 0; rest = []; eof = true }
    | b ∷ bs ↦ let r = slow_word left (k + 1) tag bs in record r { word = b ∷ r.word }
  ]
]

abbrev from_fast : List ℕ → Option (List ℕ × ℕ) → Option WordRead
from_fast src none = none
from_fast src (some (w, i)) = some (record { word = w; rest = drop i src; eof = false })

-- The word behind a tag.
unfoldable pub read_word : ℕ → List ℕ → Option WordRead
read_word tag src =
    if leb word_size (length src)
    then from_fast src (fast_word word_size 0 0 tag src)
    else some (slow_word word_size 0 tag src)

abbrev pub unexpected_eof : GoError
unexpected_eof = new "unexpected EOF"

-- `allocWords`, as the value that it returns.
unfoldable pub alloc_words : List ℕ → ℕ → List ℕ
alloc_words p n = p ++ replicate (n * word_size) 0

-- The switch on the tag: the new dst and what is left of src; none at the end of src.
unfoldable pub unpack_run : ℕ → List ℕ → List ℕ → Option (List ℕ × List ℕ)
unfolding alloc_words
unpack_run tag dst src =
    if tag == zero_tag
    then elim src [ [] ↦ none | n ∷ more ↦ some (alloc_words dst n, more) ]
    else if tag == unpacked_tag
    then elim src [
      | [] ↦ none
      | n ∷ more ↦
          let copied = take (n * word_size) more in
          some (
            dst ++ (copied ++ replicate (n * word_size - length copied) 0),
            drop (n * word_size) more,
          )
    ]
    else some (dst, src)

-- The returned dst and error; none is a panic or the end of the fuel.
abbrev pub Unpacked : Type 0
Unpacked = Option (List ℕ × Option GoError)

-- The loop of `Unpack`. A round takes a tag off src at least.
unfoldable pub unpack_loop : ℕ → List ℕ → List ℕ → Unpacked
unpack_loop fuel dst [] = some (dst, none)
unpack_loop zero dst (tag ∷ src) = none
unpack_loop (suc fuel) dst (tag ∷ src) = elim (read_word tag src) [
  | none ↦ none
  | some r ↦ elim r.eof [
    | true ↦ some (dst ++ r.word, some unexpected_eof)
    | false ↦ elim (unpack_run tag (dst ++ r.word) r.rest) [
      | none ↦ some (dst ++ r.word, some unexpected_eof)
      | some (dst', more) ↦ unpack_loop fuel dst' more
    ]
  ]
]

unfoldable pub unpack : List ℕ → List ℕ → Unpacked
unpack dst src = unpack_loop (length src) dst src
