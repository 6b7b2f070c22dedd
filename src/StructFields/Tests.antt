-- ===== src/StructFields/Tests.antt =====
-- The theorems on fields at a concrete struct.
use go_capnp.Base.{◌≡◌, refl, true, arith, some, ℕ, ◌<◌, false, ◌==◌, if◌then◌else◌}
use go_capnp.Base.Result.{ok, panic}
use go_capnp.Address.{is_valid, total_size, pointer_size}
use go_capnp.Memory.Examples.{two_words, message, message-IsMemory}
use go_capnp.Message.{Message}
use go_capnp.Segment.{Struct}
use go_capnp.Memory.Stores.{IsStored}
use go_capnp.StructFields.{field_uint, set_field_uint, field_bit, set_field_bit}
use go_capnp.StructFields.Access.{IsLive, set_field_uint-field_uint, field_uint_outside}
use go_capnp.StructFields.Bits.{set_field_bit-field_bit}

abbrev one_word : Struct
one_word = record {
  seg = 0;
  off = 8;
  size = record { data_size = 8; pointer_count = 0 };
  depth_limit = 64;
  is_list_member = false;
}

one_word-IsLive : IsLive message one_word
unfolding is_valid total_size pointer_size
one_word-IsLive = record {
  inside = (two_words, refl, omega arith);
  sized = refl;
  counted = omega arith;
}

set_field_uint-field_uint_example :
    (m' : Message) × (set_field_uint 2 message (some one_word) 6 513 ≡ ok m')
    × (field_uint 2 m' (some one_word) 6 ≡ ok 513)
    × IsStored message 2 0 14 513 m'
set_field_uint-field_uint_example =
    set_field_uint-field_uint 2 message one_word 6 513 message-IsMemory one_word-IsLive
      (omega arith) (omega arith) (omega arith)

field_uint_outside_example :
    (field_uint 4 message (some one_word) 8 ≡ ok 0)
    × (set_field_uint 4 message (some one_word) 8 7
        ≡ panic "capnp: set field outside struct boundaries")
field_uint_outside_example = field_uint_outside 4 message one_word 8 7 (omega arith) (omega arith)

set_field_bit-field_bit_example :
    (m' : Message) × (b : ℕ) × (set_field_bit message (some one_word) 57 true ≡ ok m')
    × IsStored message 1 0 15 b m'
    × ((k : ℕ)
        → k < 64
        → field_bit m' (some one_word) k
          ≡ (if 57 == k then ok true else field_bit message (some one_word) k))
set_field_bit-field_bit_example =
    set_field_bit-field_bit message one_word 57 true message-IsMemory one_word-IsLive (omega arith)
