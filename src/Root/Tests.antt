-- ===== src/Root/Tests.antt =====
-- The theorems on whole messages at concrete ones.
use go_capnp.Root.Single.{one-IsBuilder}
use mathlib.Core.Option.{some-injective}
use go_capnp.Root.Setting.{IsReady, IsPointed, set_ptr-struct_ptr, set_root-root}
use go_capnp.Root.{alone, Slice, ObjectSize, Message, Struct, ok, struct_ptr, root, message_size}
use go_capnp.Root.{of_struct, pointer_address, set_root, set_ptr}
use go_capnp.Root.Reading.{struct_found}
use go_capnp.Base.{none, ap, ℕ, ◌≡◌, refl, arith, some, [], ◌∷◌, ◌≤◌, List, replicate, false, ◌+◌}
use go_capnp.Base.{length}
use go_capnp.Arena.Examples.{fresh, fresh-IsPool}
use go_capnp.Root.Delivery.{sent-received}
use go_capnp.Root.Build.{sent}
use go_capnp.Root.Stream.{received}
use go_capnp.Message.{Message, read_limit, init_read_limit, message_depth_limit}
use go_capnp.Arena.Allocate.{allocate_single, allocate_multi}
use go_capnp.Address.{total_size, is_valid, ObjectSize, pad_to_word}
use go_capnp.Framing.{stream_header_size, marshal}
use go_capnp.Segment.{Struct, of_struct}
use go_capnp.Slice.{Slice}
use go_capnp.Base.Bits.{and_not}
use go_capnp.Arena.Meets.{allocate_multi-IsArena}
use go_capnp.Slice.Bytes.{zeros-IsBytes}
use go_capnp.Base.Result.{ok, Ensures}
use go_capnp.StructFields.Access.{IsLive}
use go_capnp.Memory.Examples.{message}
use go_capnp.StructFields.{struct_ptr, pointer_address}
use go_capnp.Root.Sizes.{message_size-marshal}
use go_capnp.Root.Counts.{allocate_multi-IsNumbered}

abbrev point : ObjectSize
point = record { data_size = 12; pointer_count = 1 }

abbrev buffer : List ℕ
buffer = replicate 64 0

sent-received_example :
    (stream : List ℕ) × (sent
        (allocate_single fresh)
        0
        point
        4
        8
        77
        (record { mem = buffer; len = 0 })
      ≡ ok stream)
    × (received 4 8 stream ≡ ok 77)
unfolding is_valid total_size pad_to_word and_not
sent-received_example =
    sent-received point 4 8 77 refl (omega arith) (omega arith) (omega arith) (omega arith)
      (allocate_single fresh) 0 buffer (zeros-IsBytes 64) (omega arith) (omega arith)

message_size-marshal_example :
    (stream : List ℕ) × (marshal message ≡ ok stream) × (message_size message ≡ ok (length stream))
unfolding stream_header_size and_not
message_size-marshal_example = message_size-marshal message (record {
  some_segment = omega arith;
  few = omega arith;
  framed = (record { within = omega arith; whole = refl; small = omega arith }, tt);
  room = omega arith;
})

-- A message of a root word and two structs of a pointer each.
abbrev three_words : Slice
three_words = record { mem = replicate 24 0; len = 24 }

abbrev pair : Message
pair = record { segs = three_words ∷ []; rlimit = none; traverse_limit = 0; depth_limit = 0 }

abbrev link : ℕ → Struct
link addr = record {
  seg = 0;
  off = addr;
  size = record { data_size = 0; pointer_count = 1 };
  depth_limit = 64;
  is_list_member = false;
}

link-IsLive : (addr : ℕ) → addr + 8 ≤ 24 → IsLive pair (link addr)
unfolding is_valid total_size
link-IsLive addr h = record {
  inside = (three_words, refl, omega (arith, h));
  sized = refl;
  counted = omega arith;
}

pair-IsReady : IsReady (allocate_multi fresh) pair (link 16)
unfolding total_size
pair-IsReady = record {
  arena = allocate_multi-IsArena fresh fresh-IsPool;
  numbered = allocate_multi-IsNumbered fresh;
  few = omega arith;
  builder =
      one-IsBuilder three_words (record { within = omega arith; bytes = zeros-IsBytes 24 })
        (omega arith) refl;
  target = record {
    live = link-IsLive 16 (omega arith);
    aligned = refl;
    whole = refl;
    some_bytes = omega arith;
    own = refl;
  };
  padded = λ e found. omega (arith, ap (λ (s : Slice). s.len) (some-injective _ _ found));
}

set_ptr-struct_ptr_example :
    Ensures
      (λ w.
        ((struct_ptr w.dst (some (link 8)) 0).0
          ≡ ok (of_struct (struct_found (link 16).size 0 16 64)))
        × IsPointed pair 0 (pointer_address (link 8) 0) (link 16) w)
      (set_ptr (allocate_multi fresh) 1 (alone pair) (some (link 8)) 0 (of_struct (link 16)))
unfolding total_size read_limit init_read_limit
set_ptr-struct_ptr_example =
    set_ptr-struct_ptr (allocate_multi fresh) pair (link 16) pair-IsReady (omega arith) 0 (link 8) 0
      (link-IsLive 8 (omega arith)) refl refl (omega arith) (omega arith)

set_root-root_example :
    Ensures
      (λ w.
        ((root w.dst).0
          ≡ ok (of_struct (struct_found (link 16).size 0 16 (message_depth_limit pair))))
        × IsPointed pair 0 0 (link 16) w)
      (set_root (allocate_multi fresh) 1 (alone pair) (of_struct (link 16)))
unfolding total_size read_limit init_read_limit
set_root-root_example =
    set_root-root (allocate_multi fresh) pair (link 16) pair-IsReady (omega arith) 0
      (three_words, refl, omega arith)
