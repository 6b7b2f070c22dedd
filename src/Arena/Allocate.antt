-- ===== src/Arena/Allocate.antt =====
-- arena.go: Allocate of both arenas. `pool` is bufferpool.Default.Get, which may return a used buffer: the
-- memory of a buffer whose length is the number asked for. The old buffer, which Allocate gives back to
-- the pool, is not used again. The segments are the current data of the
-- arena's segments by their ids, which a message keeps: for each segment of the arena the data that the
-- message has for it. A SegmentID is a uint32, so an index turned into one wraps.
use go_capnp.Base.{
  ℕ, suc, ◌+◌, ◌-◌, ◌%◌, ◌^◌, List, [], ◌∷◌, ◌++◌, ◌==◌, if◌then◌else◌, take, drop, min, not, u32,
}
use go_capnp.Base.Result.{Result, new, numbered, ok, err, ◌>>=◌}
use go_capnp.Address.{word_size, max_alloc_size}
use go_capnp.Slice.{Slice, cap}
use go_capnp.Arena.{next_alloc, has_capacity, is_negative}

-- `buf := Get(n); copied := copy(buf, data); buf[:copied]`
abbrev pub moved : (ℕ → List ℕ) → ℕ → Slice → Slice
moved pool n d =
    let copied = min n d.len in
    record { mem = take copied d.mem ++ drop copied (pool n); len = copied }

-- SingleSegmentArena.Allocate, of the data of its segment.
unfoldable pub grow_single : (ℕ → List ℕ) → ℕ → Slice → Result (ℕ × Slice)
grow_single pool sz d =
    if not (d.len % word_size == 0)
    then err (new "segment size is not a multiple of word size")
    else if has_capacity d sz
    then ok (0, d)
    else do inc ← next_alloc d.len max_alloc_size sz; ok (0, moved pool (cap d + inc) d)

abbrev pub allocate_single : (ℕ → List ℕ) → ℕ → List Slice → Result (ℕ × Slice)
allocate_single pool sz [] = grow_single pool sz (record { mem = []; len = 0 })
allocate_single pool sz (d ∷ segs) = grow_single pool sz d

-- The loop of MultiSegmentArena.Allocate, from a segment on, and the new segment behind it.
unfoldable pub allocate_from : (ℕ → List ℕ) → ℕ → ℕ → ℕ → List Slice → Result (ℕ × Slice)
allocate_from pool id total sz [] = do
  n ← next_alloc total (2 ^ 63 - 1) sz
  ok (u32 id, record { mem = pool n; len = 0 })
allocate_from pool id total sz (d ∷ segs) =
    let rest = allocate_from pool (suc id) (total + cap d) sz segs in
    if has_capacity d sz
    then ok (u32 id, d)
    else if is_negative (total + cap d)
    then err (numbered "alloc " sz " bytes: message too large")
    else rest

abbrev pub allocate_multi : (ℕ → List ℕ) → ℕ → List Slice → Result (ℕ × Slice)
allocate_multi pool sz segs = allocate_from pool 0 0 sz segs
