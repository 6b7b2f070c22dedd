-- ===== src/Builder/Tests.antt =====
-- The theorems on building at concrete messages.
use go_capnp.Base.{ℕ, zero, suc, ◌^◌, ◌≡◌, refl, arith, some, [], ◌∷◌, get_elem?, inl, ◌%◌, ◌≤◌}
use mathlib.Core.Path.{subst}
use mathlib.Core.Option.{some-injective}
use go_capnp.Arena.Examples.{fresh, fresh-IsPool}
use go_capnp.Builder.Examples.{message-IsBuilder}
use go_capnp.Base.Result.{Ensures}
use go_capnp.Address.{ObjectSize, pad_to_word, max_segment_size}
use go_capnp.Slice.{Slice, IsSlice}
use go_capnp.Message.{Message}
use go_capnp.Memory.Examples.{two_words, message, two_words-IsSlice}
use go_capnp.Arena.Allocate.{allocate_multi}
use go_capnp.Arena.Meets.{allocate_multi-IsArena}
use go_capnp.Builder.{alloc}
use go_capnp.Builder.Fresh.{IsFresh, alloc-IsFresh}
use go_capnp.Builder.Objects.{new_struct, new_primitive_list}
use go_capnp.Builder.NewStructs.{IsNewStruct, new_struct-IsNewStruct}
use go_capnp.Builder.Pointers.{place_pointer}
use go_capnp.Builder.Leads.{ArePlaces, IsPlaced}
use go_capnp.Builder.Placed.{place_pointer-IsPlaced}
use go_capnp.RawPointer.{pointer_type, offset}
use go_capnp.Builder.NewLists.{IsNewList, new_primitive_list-IsNewList}
use go_capnp.Base.Int.{pos}

alloc-IsFresh_example :
    Ensures (IsFresh message (pad_to_word 5)) (alloc (allocate_multi fresh) message 0 5)
alloc-IsFresh_example =
    alloc-IsFresh (allocate_multi fresh) message 0 5 (allocate_multi-IsArena fresh fresh-IsPool)
      message-IsBuilder (omega arith) (omega arith)

abbrev three_words : ObjectSize
three_words = record { data_size = 12; pointer_count = 1 }

new_struct-IsNewStruct_example :
    Ensures
      (IsNewStruct message three_words)
      (new_struct (allocate_multi fresh) message 0 three_words)
new_struct-IsNewStruct_example =
    new_struct-IsNewStruct (allocate_multi fresh) message 0 three_words
      (allocate_multi-IsArena fresh fresh-IsPool) message-IsBuilder (omega arith) (omega arith)
      (omega arith)

-- Two full segments: a pointer in the first to a word of the second needs a landing pad elsewhere.
abbrev two_segments : Message
two_segments = record message { segs = two_words ∷ two_words ∷ [] }

either_segment :
    (id : ℕ) (d : Slice)
    → get_elem? two_segments.segs id ≡ some d
    → (P : Slice → Type 0) → P two_words
    → P d
either_segment zero d e P p = subst P (some-injective _ _ e) p
either_segment (suc zero) d e P p = subst P (some-injective _ _ e) p
either_segment (suc (suc id)) d e P p = absurd (cc)

two_segments-ArePlaces : ArePlaces two_segments 0 0 1 8 (2 ^ 32)
unfolding pointer_type offset
two_segments-ArePlaces = record {
  builder = record {
    segments = record {
      slices = λ id d e. either_segment id d e IsSlice two_words-IsSlice;
      small = λ id d e. either_segment id d e (λ s. s.len ≤ max_segment_size) (omega arith);
    };
    whole = λ id d e. either_segment id d e (λ s. s.len % 8 ≡ 0) refl;
  };
  slot = (two_words, refl, omega arith);
  slot_aligned = refl;
  object = (two_words, refl, omega arith);
  object_aligned = refl;
  kind = inl refl;
  small = omega arith;
  zero_offset = refl;
  numbered = omega arith;
}

place_pointer-IsPlaced_example :
    Ensures
      (IsPlaced two_segments 0 0 1 8 (2 ^ 32))
      (place_pointer (allocate_multi fresh) two_segments 0 0 1 8 (2 ^ 32))
place_pointer-IsPlaced_example =
    place_pointer-IsPlaced (allocate_multi fresh) two_segments 0 0 1 8 (2 ^ 32) two_words
      (allocate_multi-IsArena fresh fresh-IsPool) two_segments-ArePlaces refl (omega arith)

new_primitive_list-IsNewList_example :
    Ensures (IsNewList message 4 3) (new_primitive_list (allocate_multi fresh) message 0 4 (pos 3))
new_primitive_list-IsNewList_example =
    new_primitive_list-IsNewList (allocate_multi fresh) message 0 4 3
      (allocate_multi-IsArena fresh fresh-IsPool) message-IsBuilder (omega arith) (omega arith)
      (omega arith)
