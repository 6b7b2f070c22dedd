-- ===== src/Packed/Tests.antt =====
-- The theorems on packing at concrete inputs, and runs of the code.
use go_capnp.Base.{ℕ, ◌≡◌, refl, arith, List, [], ◌∷◌, ◌++◌, some, none}
use go_capnp.Base.Result.{ok}
use go_capnp.Slice.{IsBytes}
use go_capnp.Packed.{pack, pack_loop, pack_run, scan_word, num_zero_words, unpack, unpack_loop}
use go_capnp.Packed.{read_word, slow_word, word_size, unexpected_eof}
use go_capnp.Packed.Word.{read_word-slow_word}
use go_capnp.Packed.RoundTrip.{unpack-pack}

abbrev mixed : List ℕ
mixed = 0 ∷ 0 ∷ 12 ∷ 0 ∷ 0 ∷ 34 ∷ 0 ∷ 0 ∷ 0 ∷ 0 ∷ 0 ∷ 0 ∷ 0 ∷ 0 ∷ 0 ∷ 0 ∷ []

mixed_form : pack [] mixed ≡ ok (0x24 ∷ 12 ∷ 34 ∷ 0 ∷ 0 ∷ [])
unfolding pack pack_loop pack_run scan_word num_zero_words
mixed_form = refl

truncated :
    unpack [] (0x24 ∷ 12 ∷ []) ≡ some (0 ∷ 0 ∷ 12 ∷ 0 ∷ 0 ∷ 0 ∷ 0 ∷ 0 ∷ [], some unexpected_eof)
unfolding unpack unpack_loop read_word slow_word
truncated = refl

unpack-pack_example :
    (p : List ℕ) × (pack (7 ∷ []) mixed ≡ ok ((7 ∷ []) ++ p))
    × IsBytes p
    × ((out : List ℕ) → unpack out p ≡ some (out ++ mixed, none))
unpack-pack_example = unpack-pack (7 ∷ []) mixed (omega arith) (omega arith)

abbrev nine : List ℕ
nine = 1 ∷ 2 ∷ 3 ∷ 4 ∷ 5 ∷ 6 ∷ 7 ∷ 8 ∷ 9 ∷ []

read_word-slow_word_example : read_word 0xa5 nine ≡ some (slow_word word_size 0 0xa5 nine)
read_word-slow_word_example = read_word-slow_word 0xa5 nine (omega arith)
