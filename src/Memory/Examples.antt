-- ===== src/Memory/Examples.antt =====
-- A message of one segment, for runs of the code.
use go_capnp.Base.{zero, suc, ◌≡◌, ◌≤◌, ℕ, arith, [], ◌∷◌, none, some, get_elem?}
use go_capnp.Slice.{Slice, IsSlice}
use go_capnp.Message.{Message}
use go_capnp.Address.{max_segment_size}
use go_capnp.Memory.Stores.{IsMemory}
use mathlib.Core.Path.{subst}
use mathlib.Core.Option.{some-injective}

abbrev pub two_words : Slice
two_words = record {
  mem = 0 ∷ 0 ∷ 0 ∷ 0 ∷ 1 ∷ 0 ∷ 0 ∷ 0 ∷ 42 ∷ 0 ∷ 0 ∷ 0 ∷ 0 ∷ 0 ∷ 0 ∷ 9 ∷ [];
  len = 16;
}

abbrev pub message : Message
message = record { segs = two_words ∷ []; rlimit = none; traverse_limit = 0; depth_limit = 0 }

pub two_words-IsSlice : IsSlice two_words
two_words-IsSlice = record { within = omega arith; bytes = omega arith }

pub first_segment :
    (id : ℕ) (d : Slice)
    → get_elem? message.segs id ≡ some d
    → (P : Slice → Type 0) → P two_words
    → P d
first_segment zero d e P p = subst P (some-injective _ _ e) p
first_segment (suc id) d e P p = absurd (cc)

pub message-IsMemory : IsMemory message
message-IsMemory = record {
  slices = λ id d e. first_segment id d e IsSlice two_words-IsSlice;
  small = λ id d e. first_segment id d e (λ s. s.len ≤ max_segment_size) (omega arith);
}
