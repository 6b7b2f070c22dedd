-- ===== src/IdGen.antt =====
-- rpc/idgen.go: the ids of questions, answers, exports and embargoes of an RPC connection, and the set of words of
-- 64 bits that holds the ids to be used again. A generator's counter is a uint32.
pub mod Bits
pub mod Sets
pub mod Minimum
pub mod Fresh
mod Tests
use go_capnp.Base.{ℕ, zero, suc, ◌+◌, ◌-◌, ◌*◌, ◌/◌, ◌%◌, ◌^◌, Bool, true, false, not, ◌&&◌, ◌==◌}
use go_capnp.Base.{List, [], ◌∷◌, ◌++◌, length, set, get_or, replicate, ltb, u64, ◌<<◌, bit_and}
use go_capnp.Base.{bit_or, if◌then◌else◌, Option, none, some}
use go_capnp.Base.Bits.{and_not}
use go_capnp.Base.Result.{Result, ok, panic}

-- `uint64(1) << (i % 64)`
abbrev pub mask : ℕ → ℕ
mask i = u64 (1 << (i % 64))

-- uintSet.has.
unfoldable pub has : List ℕ → ℕ → Bool
has s i = ltb (i / 64) (length s) && not (bit_and (get_or s (i / 64) 0) (mask i) == 0)

-- `make(uintSet, n)`, with the old words copied into it.
abbrev pub widened : List ℕ → ℕ → List ℕ
widened s n = if ltb (n - 1) (length s) then s else s ++ replicate (n - length s) 0

-- uintSet.add.
unfoldable pub add : List ℕ → ℕ → List ℕ
add s i =
    let s2 = widened s (i / 64 + 1) in set s2 (i / 64) (bit_or (get_or s2 (i / 64) 0) (mask i))

-- uintSet.remove.
unfoldable pub remove : List ℕ → ℕ → List ℕ
remove s i =
    if ltb (i / 64) (length s) then set s (i / 64) (and_not (get_or s (i / 64) 0) (mask i)) else s

-- The inner loop of uintSet.min, with some bits left, from bit j on.
unfoldable pub first_bit : ℕ → ℕ → ℕ → Option ℕ
first_bit x zero j = none
first_bit x (suc left) j =
    let rest = first_bit x left (j + 1) in
    if not (bit_and x (u64 (1 << j)) == 0) then some j else rest

abbrev found_at : ℕ → Option ℕ → Option ℕ → Option ℕ
found_at i (some j) rest = some (i * 64 + j)
found_at i none rest = rest

-- uintSet.min, from word i on.
unfoldable pub min_from : List ℕ → ℕ → Option ℕ
min_from [] i = none
min_from (x ∷ s) i =
    let rest = min_from s (i + 1) in if x == 0 then rest else found_at i (first_bit x 64 0) rest

unfoldable pub min_of : List ℕ → Option ℕ
min_of s = min_from s 0

pub record IdGen : Type 0 where
  pub i : ℕ
  pub free : List ℕ

abbrev next_new : IdGen → Result (ℕ × IdGen)
next_new g = if g.i == 2 ^ 32 - 1 then panic "overflow ID" else ok (g.i, record g { i = g.i + 1 })

abbrev next_of : IdGen → Option ℕ → Result (ℕ × IdGen)
next_of g (some first) = ok (first, record g { free = remove g.free first })
next_of g none = next_new g

-- idgen.next.
unfoldable pub next_id : IdGen → Result (ℕ × IdGen)
next_id g = next_of g (min_of g.free)

-- idgen.remove.
unfoldable pub remove_id : IdGen → ℕ → IdGen
remove_id g id = record g { free = add g.free id }
