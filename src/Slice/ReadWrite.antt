-- ===== src/Slice/ReadWrite.antt =====
-- Reads and writes of segments: no panic in bounds, what is written is read back, and nothing
-- else changes.
use go_capnp.Base.{ℕ, ◌+◌, ◌^◌, ◌≤◌, ◌<◌, ◌≡◌, ◌⊎◌, inl, inr, refl, ap, sym, ◌∙◌, arith}
use go_capnp.Base.{length-take, length-drop, true, List, length, take, drop}
use mathlib.Core.Path.{subst}
use go_capnp.Base.Result.{ok}
use go_capnp.Address.{max_segment_size}
use go_capnp.Slice.{Slice, IsSlice, slice, read_uint, write_uint, region_in_bounds, le_uint}
use go_capnp.Slice.{splice, put_le}
use go_capnp.Slice.Bytes.{length-put_le, put_le-IsBytes, le_uint-put_le, le_uint-lt, take-IsBytes}
use go_capnp.Slice.Bytes.{drop-IsBytes, length-splice, splice-IsBytes, range-splice_self}
use go_capnp.Slice.Bytes.{range-splice_before, drop-splice_behind}

-- `regionInBounds` answers true exactly when the region lies within the length, for a segment
-- that is no larger than the format allows.
pub region_in_bounds_exact :
    (s : Slice) (base sz : ℕ)
    → s.len ≤ max_segment_size
    → (region_in_bounds s base sz ≡ true → base + sz ≤ s.len)
      × (base + sz ≤ s.len → region_in_bounds s base sz ≡ true)
unfolding region_in_bounds
region_in_bounds_exact s base sz h = ground arith

-- Whatever the length, a region that passes the check lies within it, below 2 ^ 32.
pub region_in_bounds_sound :
    (s : Slice) (base sz : ℕ)
    → region_in_bounds s base sz ≡ true
    → (base + sz ≤ s.len) × (base + sz ≤ max_segment_size)
unfolding region_in_bounds
region_in_bounds_sound s base sz h = ground arith

pub slice_in_range :
    (s : Slice) (base n : ℕ)
    → base + n ≤ length s.mem
    → base + n < 2 ^ 32
    → slice s base n ≡ ok (take n (drop base s.mem))
unfolding slice
slice_in_range s base n h k = ground arith

pub read_in_range :
    (n : ℕ) (s : Slice) (base : ℕ)
    → base + n ≤ length s.mem
    → base + n < 2 ^ 32
    → read_uint n s base ≡ ok (le_uint (take n (drop base s.mem)))
unfolding read_uint
read_in_range n s base h k = ground arith

pub write_in_range :
    (n : ℕ) (s : Slice) (base v : ℕ)
    → base + n ≤ length s.mem
    → base + n < 2 ^ 32
    → write_uint n s base v ≡ ok (record s { mem = splice s.mem base (put_le n v) })
unfolding write_uint
write_in_range n s base v h k = ground arith

-- A read of a region that passed the check does not panic, and gives a number of n bytes.
pub read_total :
    (n : ℕ) (s : Slice) (base : ℕ)
    → IsSlice s
    → region_in_bounds s base n ≡ true
    → (v : ℕ) × (read_uint n s base ≡ ok v) × (v < 256 ^ n)
read_total n s base valid checked = (
  le_uint part,
  read_in_range n s base fits (omega (arith, region_in_bounds_sound s base n checked)),
  subst (λ k. le_uint part < 256 ^ k) n_bytes
      (le_uint-lt part (take-IsBytes n _ (drop-IsBytes base s.mem valid.bytes))),
)
  where
    part : List ℕ
    part = take n (drop base s.mem)

    fits : base + n ≤ length s.mem
    fits = omega (arith, region_in_bounds_sound s base n checked)

    n_bytes : length part ≡ n
    n_bytes = omega (arith, fits, length-take n (drop base s.mem), length-drop base s.mem)

-- A read of a checked region does not see bytes that are written apart from it.
pub read_splice :
    (s : Slice) (base : ℕ) (bs : List ℕ) (k other : ℕ)
    → IsSlice s
    → region_in_bounds s other k ≡ true
    → (other + k ≤ base) ⊎ (base + length bs ≤ other)
    → base + length bs ≤ length s.mem
    → read_uint k (record s { mem = splice s.mem base bs }) other ≡ read_uint k s other
read_splice s base bs k other valid inside apart fits =
    read_in_range k t other (omega (arith, length-splice s.mem bs base fits, room)) below
    ∙ ap (λ bytes. ok (le_uint bytes)) (same apart)
    ∙ sym (read_in_range k s other room below)
  where
    t : Slice
    t = record s { mem = splice s.mem base bs }

    room : other + k ≤ length s.mem
    room = omega (arith, region_in_bounds_sound s other k inside, valid.within)

    below : other + k < 2 ^ 32
    below = omega (arith, region_in_bounds_sound s other k inside)

    same :
        (other + k ≤ base) ⊎ (base + length bs ≤ other)
        → take k (drop other t.mem) ≡ take k (drop other s.mem)
    same (inl before) = range-splice_before s.mem bs base other k (omega arith) before
    same (inr behind) = ap (take k) (drop-splice_behind s.mem bs base other fits behind)

-- A write into a checked region does not panic, keeps the slice well formed with its length, is
-- read back at the same place, and leaves every read of a region apart from it as it was.
pub write_read :
    (n : ℕ) (s : Slice) (base v : ℕ)
    → IsSlice s
    → region_in_bounds s base n ≡ true
    → v < 256 ^ n
    → (t : Slice) × (write_uint n s base v ≡ ok t)
      × IsSlice t
      × (t.len ≡ s.len)
      × (read_uint n t base ≡ ok v)
      × ((k other : ℕ)
          → region_in_bounds s other k ≡ true
          → (other + k ≤ base) ⊎ (base + n ≤ other)
          → read_uint k t other ≡ read_uint k s other)
write_read n s base v valid checked fits_v = (
  t,
  write_in_range n s base v fits below,
  record {
    within = omega (arith, same_length, valid.within);
    bytes = splice-IsBytes s.mem (put_le n v) base valid.bytes (put_le-IsBytes n v);
  },
  refl,
  read_in_range n t base (omega (arith, fits, same_length)) below
      ∙ ap ok (ap le_uint written ∙ le_uint-put_le n v fits_v),
  λ k other inside apart.
      read_splice s base (put_le n v) k other valid inside (rw (length-put_le n v) apart)
        (omega (arith, fits, length-put_le n v)),
)
  where
    t : Slice
    t = record s { mem = splice s.mem base (put_le n v) }

    fits : base + n ≤ length s.mem
    fits = omega (arith, region_in_bounds_sound s base n checked, valid.within)

    below : base + n < 2 ^ 32
    below = omega (arith, region_in_bounds_sound s base n checked)

    same_length : length (splice s.mem base (put_le n v)) ≡ length s.mem
    same_length = length-splice s.mem (put_le n v) base (omega (arith, fits, length-put_le n v))

    written : take n (drop base t.mem) ≡ put_le n v
    written =
        rw (length-put_le n v) at (range-splice_self s.mem (put_le n v) base (omega (arith, fits)))
