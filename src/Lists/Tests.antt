-- ===== src/Lists/Tests.antt =====
-- The theorems on list elements at concrete lists.
use go_capnp.Base.{◌≡◌, refl, true, arith, some, ℕ, ◌<◌, false, ◌==◌, if◌then◌else◌, ◌^◌, inr}
use go_capnp.Base.{inl}
use go_capnp.Memory.Examples.{two_words, message, message-IsMemory}
use go_capnp.Message.{Message}
use go_capnp.Segment.{ListRef}
use go_capnp.Memory.Stores.{IsStored}
use go_capnp.Lists.Elements.{IsLiveList, set_at_uint-at_uint, place}
use go_capnp.Lists.Integers.{set_at_uint, at_uint, set_at_int, at_int}
use go_capnp.Lists.{bit_at, set_bit_at, mismatched, ok, same_size, data_of}
use go_capnp.Base.Int.{pos, negsuc}
use go_capnp.Address.{is_valid, total_size, pointer_size}
use go_capnp.Base.Result.{ok, panic}
use go_capnp.Lists.BitElements.{set_bit_at-bit_at, bit_at_far}
use go_capnp.Lists.Signed.{set_at_int-at_int}

-- Four uint16, and twelve bits.
abbrev four_shorts : ListRef
four_shorts = record {
  seg = 0;
  off = 8;
  length = pos 4;
  size = record { data_size = 2; pointer_count = 0 };
  depth_limit = 64;
  is_composite = false;
  is_bit_list = false;
}

abbrev twelve_bits : ListRef
twelve_bits = record {
  seg = 0;
  off = 8;
  length = pos 12;
  size = record { data_size = 0; pointer_count = 0 };
  depth_limit = 64;
  is_composite = false;
  is_bit_list = true;
}

abbrev many_bits : ListRef
many_bits = record twelve_bits { length = pos (2 ^ 23) }

four_shorts-IsLiveList : IsLiveList message four_shorts
unfolding is_valid total_size pointer_size
four_shorts-IsLiveList = record {
  inside = record { inside = (two_words, refl, omega arith); short = omega arith; counted = refl };
  sized = refl;
  counted = omega arith;
  positive = refl;
}

twelve_bits-IsLiveList : IsLiveList message twelve_bits
unfolding is_valid total_size pointer_size
twelve_bits-IsLiveList = record {
  inside = record { inside = (two_words, refl, omega arith); short = omega arith; counted = refl };
  sized = refl;
  counted = omega arith;
  positive = refl;
}

four_shorts-mismatched : mismatched four_shorts (data_of 2) ≡ false
unfolding mismatched same_size
four_shorts-mismatched = refl

set_at_uint-at_uint_example :
    (m' : Message) × (set_at_uint 2 message (some four_shorts) (pos 3) 513 ≡ ok m')
    × IsStored message 2 0 (place four_shorts 3) 513 m'
    × ((j : ℕ)
        → j < 4
        → at_uint 2 m' (some four_shorts) (pos j)
          ≡ (if 3 == j then ok 513 else at_uint 2 message (some four_shorts) (pos j)))
set_at_uint-at_uint_example =
    set_at_uint-at_uint 2 message four_shorts 3 513 message-IsMemory four_shorts-IsLiveList
      four_shorts-mismatched (omega arith) (omega arith)

set_bit_at-bit_at_example :
    (m' : Message) × (b : ℕ) × (set_bit_at message (some twelve_bits) (pos 11) true ≡ ok m')
    × IsStored message 1 0 9 b m'
    × ((k : ℕ)
        → k < 12
        → k < 2 ^ 22
        → bit_at m' (some twelve_bits) (pos k)
          ≡ (if 11 == k then ok true else bit_at message (some twelve_bits) (pos k)))
set_bit_at-bit_at_example =
    set_bit_at-bit_at message twelve_bits 11 true message-IsMemory twelve_bits-IsLiveList refl
      (omega arith) (omega arith)

bit_at_far_example :
    (bit_at message (some many_bits) (pos (2 ^ 22)) ≡ panic "data offset overflow")
    × (set_bit_at message (some many_bits) (pos (2 ^ 22)) true ≡ panic "data offset overflow")
bit_at_far_example =
    bit_at_far message many_bits (2 ^ 22) true refl refl (omega arith) (omega arith) (omega arith)

set_at_int-at_int_example :
    (m' : Message) × (set_at_int 2 message (some four_shorts) (pos 3) (negsuc 4) ≡ ok m')
    × ((j : ℕ)
        → j < 4
        → at_int 2 m' (some four_shorts) (pos j)
          ≡ (if 3 == j then ok (negsuc 4) else at_int 2 message (some four_shorts) (pos j)))
set_at_int-at_int_example =
    set_at_int-at_int 2 message four_shorts 3 (negsuc 4) (inr (inl refl)) message-IsMemory
      four_shorts-IsLiveList four_shorts-mismatched (omega arith) (omega arith, omega arith)
