-- ===== src/Address/Tests.antt =====
-- The theorems on addresses at concrete inputs, and runs of the code.
use go_capnp.Base.{◌+◌, ◌*◌, ◌%◌, ◌≤◌, ◌<◌, ◌≡◌, refl, ◌↔◌, true, false, arith}
use go_capnp.Base.Int.{pos, negsuc, pos_part, neg_part}
use go_capnp.Address.{max_segment_size, word_size, add_size, element, times, pad_to_word}
use go_capnp.Address.{ObjectSize, is_valid, total_size}
use go_capnp.Address.Bounds.{add_size_exact, element_exact, times_exact, pad_to_word_lem}
use go_capnp.Address.Bounds.{total_size_exact}

element_back : element 100 (negsuc 2) 8 ≡ (76, true)
unfolding element
element_back = refl

element_below_zero : element 16 (negsuc 2) 8 ≡ (0xffff_ffff, false)
unfolding element
element_below_zero = refl

add_size_exact_example :
    ((add_size 8 16).1 ≡ true ↔ (8 + 16 ≤ max_segment_size))
    × ((add_size 8 16).1 ≡ true → (add_size 8 16).0 ≡ 8 + 16)
add_size_exact_example = add_size_exact 8 16

element_exact_example :
    ((element 100 (negsuc 2) 8).1 ≡ true
      ↔ (neg_part (negsuc 2) * 8 ≤ 100 + pos_part (negsuc 2) * 8)
        × (100 + pos_part (negsuc 2) * 8 ≤ max_segment_size + neg_part (negsuc 2) * 8))
    × ((element 100 (negsuc 2) 8).1 ≡ true
        → (element 100 (negsuc 2) 8).0 + neg_part (negsuc 2) * 8 ≡ 100 + pos_part (negsuc 2) * 8)
element_exact_example = element_exact 100 (negsuc 2) 8

times_exact_example :
    ((times 24 (pos 5)).1 ≡ true
      ↔ (24 * neg_part (pos 5) ≡ 0) × (24 * pos_part (pos 5) ≤ max_segment_size))
    × ((times 24 (pos 5)).1 ≡ true → (times 24 (pos 5)).0 ≡ 24 * pos_part (pos 5))
times_exact_example = times_exact 24 (pos 5)

pad_to_word_example :
    (pad_to_word 13 % word_size ≡ 0) × (13 ≤ pad_to_word 13) × (pad_to_word 13 < 13 + word_size)
pad_to_word_example = pad_to_word_lem 13 (omega arith)

abbrev three_words : ObjectSize
three_words = record { data_size = 16; pointer_count = 1 }

three_words_valid : is_valid three_words ≡ true
unfolding is_valid
three_words_valid = refl

total_size_exact_example :
    (total_size three_words ≡ 16 + word_size * 1) × (total_size three_words ≤ 0xf_fff0)
total_size_exact_example = total_size_exact three_words three_words_valid (omega arith)
