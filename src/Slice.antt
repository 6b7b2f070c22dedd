-- ===== src/Slice.antt =====
-- Go's byte slices, and the reads and writes of segment.go through them.
-- A slice is its memory up to the capacity, with the length; slicing is bounded by the capacity.
pub mod Bytes
pub mod ReadWrite
mod Tests
use go_capnp.Base.{ℕ, zero, suc, ◌+◌, ◌-◌, ◌*◌, ◌/◌, ◌%◌, ◌≤◌, ◌<◌, ◌≡◌, Bool, true, false, ◌&&◌}
use go_capnp.Base.{List, [], ◌∷◌, ◌++◌, length, take, drop, u32, ltb, leb, if◌then◌else◌}
use go_capnp.Base.Result.{Result, ok, panic, ◌>>=◌}
use go_capnp.Address.{add_size, add_size_unchecked}

pub record Slice : Type 0 where
  pub mem : List ℕ
  pub len : ℕ

abbrev pub cap : Slice → ℕ
cap s = length s.mem

abbrev pub IsBytes : List ℕ → Type 0
IsBytes [] = Unit {0}
IsBytes (b ∷ bs) = (b < 256) × IsBytes bs

pub record IsSlice (s : Slice) : Type 0 where
  pub within : s.len ≤ length s.mem
  pub bytes : IsBytes s.mem

unfoldable pub in_bounds : Slice → ℕ → Bool
in_bounds s addr = ltb addr (u32 s.len)

abbrev region_ends : Slice → ℕ × Bool → Bool
region_ends s (end, true) = leb end (u32 s.len)
region_ends s (end, false) = false

unfoldable pub region_in_bounds : Slice → ℕ → ℕ → Bool
unfolding add_size
region_in_bounds s base sz = region_ends s (add_size base sz)

-- The bytes of `mem` from `lo` up to `hi`.
abbrev pub range : List ℕ → ℕ → ℕ → List ℕ
range mem lo hi = take (hi - lo) (drop lo mem)

-- `s.data[base:base.addSizeUnchecked(sz)]` as a read.
unfoldable pub slice : Slice → ℕ → ℕ → Result (List ℕ)
unfolding add_size_unchecked
slice s base sz =
    let end = add_size_unchecked base sz in
    if leb base end && leb end (cap s)
    then ok (range s.mem base end)
    else panic "slice bounds out of range"

-- binary.LittleEndian: the number of some bytes, and the n bytes of a number.
unfoldable pub le_uint : List ℕ → ℕ
le_uint [] = 0
le_uint (b ∷ bs) = b + 256 * le_uint bs

unfoldable pub put_le : ℕ → ℕ → List ℕ
put_le zero v = []
put_le (suc n) v = v % 256 ∷ put_le n (v / 256)

-- readUint8, readUint16, readUint32 and readUint64 take n = 1, 2, 4 and 8 bytes.
unfoldable pub read_uint : ℕ → Slice → ℕ → Result ℕ
unfolding ◌>>=◌ slice le_uint
read_uint n s addr = do bs ← slice s addr n; ok (le_uint bs)

-- Overwrites the bytes of `mem` from `at` on, where the range check has passed.
abbrev pub splice : List ℕ → ℕ → List ℕ → List ℕ
splice mem zero bs = bs ++ drop (length bs) mem
splice [] (suc at) bs = []
splice (m ∷ mem) (suc at) bs = m ∷ splice mem at bs

-- writeUint8, writeUint16, writeUint32 and writeUint64, as the slice after the write.
unfoldable pub write_uint : ℕ → Slice → ℕ → ℕ → Result Slice
unfolding ◌>>=◌ slice put_le
write_uint n s addr v = do
  _ ← slice s addr n
  ok (record s { mem = splice s.mem addr (put_le n v) })

unfoldable pub read_raw_pointer : Slice → ℕ → Result ℕ
unfolding read_uint
read_raw_pointer s addr = read_uint 8 s addr

unfoldable pub write_raw_pointer : Slice → ℕ → ℕ → Result Slice
unfolding write_uint
write_raw_pointer s addr p = write_uint 8 s addr p
