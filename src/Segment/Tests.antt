-- ===== src/Segment/Tests.antt =====
-- The theorems on reading pointers at a concrete message, and runs of the code.
use go_capnp.Base.{zero, suc, ◌≡◌, refl, true, arith, [], ◌∷◌, none, List, ◌+◌, ℕ, ◌≤◌}
use go_capnp.Base.Result.{Ensures}
use go_capnp.Slice.{Slice, IsSlice, region_in_bounds}
use go_capnp.Message.{Message, Segment, read_limit}
use go_capnp.Segment.{read_ptr}
use go_capnp.Segment.Resolve.{IsMessage, IsLoaded}
use go_capnp.Segment.Safe.{IsSafe, read_ptr-IsSafe}
use mathlib.Core.Path.{subst}
use mathlib.Core.Option.{some-injective}
use go_capnp.Segment.Amplified.{read_each, read_each-bounded}

-- A struct pointer with offset 0, one data word and no pointers, and that word.
abbrev one_struct : Slice
one_struct = record {
  mem = 0 ∷ 0 ∷ 0 ∷ 0 ∷ 1 ∷ 0 ∷ 0 ∷ 0 ∷ 42 ∷ 0 ∷ 0 ∷ 0 ∷ 0 ∷ 0 ∷ 0 ∷ 0 ∷ [];
  len = 16;
}

abbrev message : Message
message = record { segs = one_struct ∷ []; rlimit = none; traverse_limit = 0; depth_limit = 0 }

abbrev first : Segment
first = record { id = 0; bytes = one_struct }

one_struct-IsSlice : IsSlice one_struct
one_struct-IsSlice = record { within = omega arith; bytes = omega arith }

message-IsMessage : IsMessage message
message-IsMessage zero d e = subst IsSlice (some-injective _ _ e) one_struct-IsSlice
message-IsMessage (suc id) d e = absurd (cc)

first-IsLoaded : IsLoaded message first
first-IsLoaded = record { found = refl; slice = one_struct-IsSlice }

root_in_bounds : region_in_bounds one_struct 0 8 ≡ true
unfolding region_in_bounds
root_in_bounds = refl

read_ptr-IsSafe_example : Ensures (IsSafe message 64) (read_ptr message first 0 64).0
read_ptr-IsSafe_example =
    read_ptr-IsSafe message first 0 64 message-IsMessage first-IsLoaded root_in_bounds

-- A limit of two structs: the third read is refused.
abbrev limited : Message
limited = record message { traverse_limit = 20 }

abbrev three_reads : List (Segment × ℕ × ℕ)
three_reads = (first, 0, 64) ∷ (first, 0, 64) ∷ (first, 0, 64) ∷ []

read_each-bounded_example :
    ((read_each limited three_reads).0 + read_limit (read_each limited three_reads).1
      ≤ read_limit limited)
    × ((read_each limited three_reads).1.segs ≡ limited.segs)
read_each-bounded_example = read_each-bounded limited three_reads
