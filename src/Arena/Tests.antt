-- ===== src/Arena/Tests.antt =====
-- arena.go: nextAlloc at concrete sizes.
use go_capnp.Arena.Meets.{allocate_multi-IsArena}
use go_capnp.Base.{◌%◌, ◌≤◌, ◌≡◌, ◌^◌, ◌-◌, refl, arith, ◌/◌, ◌⊎◌}
use go_capnp.Base.Result.{Ensures, ok}
use go_capnp.Base.Bits.{and_not}
use go_capnp.Address.{max_alloc_size, pad_to_word}
use go_capnp.Arena.{next_alloc, alloc_more, grow_by_quarters}
use go_capnp.Arena.Enough.{next_alloc-enough}
use go_capnp.Arena.Growth.{next_alloc-grows}
use go_capnp.Arena.Contract.{IsArena}
use go_capnp.Arena.Allocate.{allocate_multi}
use go_capnp.Arena.Examples.{fresh, fresh-IsPool}

-- The size that a second word gets at 4096 bytes, and a size for a single segment near the limit:
-- with the current size it is above `max`.
next_at_4096 : next_alloc 4096 (2 ^ 32 - 8) 8 ≡ ok 1024
unfolding next_alloc alloc_more grow_by_quarters pad_to_word and_not max_alloc_size
next_at_4096 = refl

next_above_max : next_alloc (2 ^ 32 - 16) (2 ^ 32 - 8) 8 ≡ ok 1073741824
unfolding next_alloc alloc_more grow_by_quarters pad_to_word and_not max_alloc_size
next_above_max = refl

next_alloc-enough_example :
    Ensures (λ n. (100 ≤ n) × (n % 8 ≡ 0) × (n ≤ max_alloc_size)) (next_alloc 4096 (2 ^ 32 - 8) 100)
next_alloc-enough_example = next_alloc-enough 4096 (2 ^ 32 - 8) 100 (omega arith) (omega arith)

next_alloc-grows_example :
    Ensures (λ n. (4096 / 4 ≤ n) ⊎ (n ≡ max_alloc_size)) (next_alloc 4096 (2 ^ 32 - 8) 100)
next_alloc-grows_example =
    next_alloc-grows 4096 (2 ^ 32 - 8) 100 (omega arith) (omega arith) (omega arith)

allocate_multi-IsArena_example : IsArena (allocate_multi fresh)
allocate_multi-IsArena_example = allocate_multi-IsArena fresh fresh-IsPool
