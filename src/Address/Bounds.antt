-- ===== src/Address/Bounds.antt =====
-- The checked operations of address.go are exact, and answer `ok` exactly when no bound is passed.
use go_capnp.Base.{ℕ, ◌+◌, ◌*◌, ◌/◌, ◌%◌, ◌^◌, ◌≤◌, ◌<◌, ◌≡◌, ◌↔◌, true, arith, u32}
use go_capnp.Base.Bits.{and_not, bit_and_low}
use go_capnp.Base.Int.{ℤ, pos, negsuc, pos_part, neg_part}
use go_capnp.Address.{max_segment_size, word_size, add_size, element, times, pad_to_word}
use go_capnp.Address.{ObjectSize, is_valid, total_size}

-- `addSize` answers ok exactly when the sum is at most maxSegmentSize, and then it is the sum.
pub add_size_exact :
    (a sz : ℕ)
    → ((add_size a sz).1 ≡ true ↔ (a + sz ≤ max_segment_size))
      × ((add_size a sz).1 ≡ true → (add_size a sz).0 ≡ a + sz)
unfolding add_size
add_size_exact a sz = ground arith

-- `element` answers ok exactly when a + i * sz lies in [0, maxSegmentSize], and then it is that
-- address, also for a negative i (the integer i is its positive part less its negative part).
pub element_exact :
    (a : ℕ) (i : ℤ) (sz : ℕ)
    → ((element a i sz).1 ≡ true
        ↔ (neg_part i * sz ≤ a + pos_part i * sz)
          × (a + pos_part i * sz ≤ max_segment_size + neg_part i * sz))
      × ((element a i sz).1 ≡ true → (element a i sz).0 + neg_part i * sz ≡ a + pos_part i * sz)
unfolding element
element_exact a (pos n) sz = ground arith
element_exact a (negsuc n) sz = ground arith

-- `times` answers ok exactly when n is not negative, or sz is 0, and the product is at most
-- maxSegmentSize, and then it is the product.
pub times_exact :
    (sz : ℕ) (n : ℤ)
    → ((times sz n).1 ≡ true ↔ (sz * neg_part n ≡ 0) × (sz * pos_part n ≤ max_segment_size))
      × ((times sz n).1 ≡ true → (times sz n).0 ≡ sz * pos_part n)
unfolding times
times_exact sz (pos n) = ground arith
times_exact sz (negsuc n) = ground arith

pub and_not_seven : (a : ℕ) → and_not a 7 ≡ a / 8 * 8
unfolding and_not
and_not_seven a = omega (arith, bit_and_low 3 a)

-- Up to maxSegmentSize, `padToWord` gives the next multiple of the word size.
pub pad_to_word_lem :
    (sz : ℕ)
    → sz ≤ max_segment_size
    → (pad_to_word sz % word_size ≡ 0) × (sz ≤ pad_to_word sz) × (pad_to_word sz < sz + word_size)
unfolding pad_to_word
pad_to_word_lem sz h = omega (arith, and_not_seven (u32 (sz + 7)))

-- The total of a valid size is the sum of its sections, and at most 0xffff0.
pub total_size_exact :
    (sz : ObjectSize)
    → is_valid sz ≡ true
    → sz.pointer_count < 2 ^ 16
    → (total_size sz ≡ sz.data_size + word_size * sz.pointer_count) × (total_size sz ≤ 0xf_fff0)
unfolding is_valid total_size
total_size_exact sz v h = ground arith
