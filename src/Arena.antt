-- ===== src/Arena.antt =====
-- arena.go: how much space an arena adds. An int64 that is not negative is a natural number, and the
-- sum of two such is negative, after the wrap-around, exactly if it is 2 ^ 63 or more.
pub mod Enough
pub mod Growth
pub mod Allocate
pub mod Contract
pub mod Meets
pub mod Examples
mod Tests
use go_capnp.Base.{ℕ, zero, suc, ◌+◌, ◌-◌, ◌*◌, ◌/◌, ◌^◌, Bool, ◌&&◌, ◌||◌, not, ltb, leb, ◌==◌}
use go_capnp.Base.{if◌then◌else◌, u32, Option, none, some}
use go_capnp.Base.Bits.{and_not}
use go_capnp.Base.Result.{Result, new, numbered, ok, err, panic}
use go_capnp.Address.{max_alloc_size, pad_to_word}
use go_capnp.Slice.{Slice, cap}

abbrev pub is_negative : ℕ → Bool
is_negative sum = leb (2 ^ 63) sum

abbrev runs : ℕ → ℕ → Bool
runs want size = ltb 0 size && (not (is_negative size) && ltb size want)

-- The loop that makes `new` at least `want`; none if the rounds do not suffice.
unfoldable pub grow_by_quarters : ℕ → ℕ → ℕ → Option ℕ
grow_by_quarters zero want size = if runs want size then none else some size
grow_by_quarters (suc left) want size =
    let next = grow_by_quarters left want (size + size / 4) in
    if runs want size then next else some size

-- The default case, with the size that the loop ends with.
abbrev grown : ℕ → ℕ → Option ℕ → Result ℕ
grown curr padreq none = panic "out of fuel"
grown curr padreq (some size) =
    if size == 0 || is_negative size
    then ok padreq
    else if ltb max_alloc_size (size - curr)
    then ok max_alloc_size
    else ok (and_not (size - curr + 7) 7)

-- The switch, for the padded request.
unfoldable pub alloc_more : ℕ → ℕ → Result ℕ
alloc_more curr padreq =
    let want = curr + padreq in
    let double = curr + curr in
    let next = and_not (1024 - curr + 7) 7 in
    if ltb want 1024
    then (if ltb next curr then ok (and_not (curr + 7) 7) else ok next)
    else if is_negative double || ltb double want
    then ok padreq
    else grown curr padreq (grow_by_quarters 4 want curr)

unfoldable pub next_alloc : ℕ → ℕ → ℕ → Result ℕ
next_alloc curr max req =
    let want = curr + pad_to_word req in
    if req == 0
    then ok 0
    else if ltb max_alloc_size req
    then err (numbered "alloc " req " bytes: too large")
    else if is_negative want || (leb want curr || ltb max want)
    then err (numbered "alloc " req " bytes: message size overflow")
    else alloc_more curr (pad_to_word req)

unfoldable pub has_capacity : Slice → ℕ → Bool
has_capacity b sz = leb sz (u32 (cap b - b.len))
