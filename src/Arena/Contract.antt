-- ===== src/Arena/Contract.antt =====
-- arena.go: what the interface Arena asks of Allocate.
use go_capnp.Base.{ℕ, ◌+◌, ◌≤◌, ◌<◌, ◌^◌, ◌≡◌, ◌⊎◌, List, length, take, get_elem?, some}
use go_capnp.Base.Result.{Result, Ensures}
use go_capnp.Address.{max_segment_size}
use go_capnp.Slice.{Slice, IsSlice, IsBytes}

-- The segments of a message: slices no larger than the format allows.
pub record AreSegments (segs : List Slice) : Type 0 where
  pub slices : (id : ℕ) (d : Slice) → get_elem? segs id ≡ some d → IsSlice d
  pub small : (id : ℕ) (d : Slice) → get_elem? segs id ≡ some d → d.len ≤ max_segment_size

-- The data of a loaded segment, kept where its buffer grew, or an empty segment behind the last.
abbrev pub IsKept : List Slice → ℕ → Slice → Type 0
IsKept segs id d =
    ((old : Slice) × (get_elem? segs id ≡ some old)
      × (d.len ≡ old.len)
      × (take old.len d.mem ≡ take old.len old.mem))
    ⊎ ((id ≡ length segs) × (d.len ≡ 0))

-- A segment with room for the request.
pub record IsRoom (sz : ℕ) (segs : List Slice) (a : ℕ × Slice) : Type 0 where
  pub slice : IsSlice a.1
  pub enough : a.1.len + sz ≤ length a.1.mem
  pub kept : IsKept segs a.0 a.1

-- On fewer than 2 ^ 32 segments, which is as many as ids, Allocate does not panic, and where it returns
-- no error, there is room.
abbrev pub IsArena : (ℕ → List Slice → Result (ℕ × Slice)) → Type 0
IsArena allocate =
    (sz : ℕ) (segs : List Slice)
    → AreSegments segs
    → length segs < 2 ^ 32
    → Ensures (IsRoom sz segs) (allocate sz segs)

-- What the pool of buffers promises.
pub record IsPool (pool : ℕ → List ℕ) : Type 0 where
  pub room : (n : ℕ) → n ≤ length (pool n)
  pub bytes : (n : ℕ) → IsBytes (pool n)
