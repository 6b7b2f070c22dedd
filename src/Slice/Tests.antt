-- ===== src/Slice/Tests.antt =====
-- The theorems on slices at concrete inputs, and runs of the code.
use go_capnp.Base.{ℕ, ◌+◌, ◌^◌, ◌≤◌, ◌<◌, ◌≡◌, ◌⊎◌, refl, true, arith, [], ◌∷◌}
use go_capnp.Base.Result.{ok, panic}
use go_capnp.Slice.{Slice, IsSlice, region_in_bounds, read_uint, write_uint, slice}
use go_capnp.Slice.ReadWrite.{region_in_bounds_exact, read_total, write_read}

-- Eight bytes, of which the last two lie behind the length.
abbrev six_of_eight : Slice
six_of_eight = record { mem = 1 ∷ 2 ∷ 3 ∷ 4 ∷ 5 ∷ 6 ∷ 7 ∷ 8 ∷ []; len = 6 }

six_of_eight-IsSlice : IsSlice six_of_eight
six_of_eight-IsSlice = record { within = omega arith; bytes = omega arith }

reads_little_endian : read_uint 2 six_of_eight 1 ≡ ok 0x0302
unfolding read_uint slice
reads_little_endian = refl

reads_past_capacity : read_uint 4 six_of_eight 6 ≡ panic "slice bounds out of range"
unfolding read_uint slice
reads_past_capacity = refl

in_six : region_in_bounds six_of_eight 2 4 ≡ true
unfolding region_in_bounds
in_six = refl

region_in_bounds_example :
    (region_in_bounds six_of_eight 2 4 ≡ true → 2 + 4 ≤ six_of_eight.len)
    × (2 + 4 ≤ six_of_eight.len → region_in_bounds six_of_eight 2 4 ≡ true)
region_in_bounds_example = region_in_bounds_exact six_of_eight 2 4 (omega arith)

read_total_example : (v : ℕ) × (read_uint 4 six_of_eight 2 ≡ ok v) × (v < 256 ^ 4)
read_total_example = read_total 4 six_of_eight 2 six_of_eight-IsSlice in_six

write_read_example :
    (t : Slice) × (write_uint 4 six_of_eight 2 0xdead_beef ≡ ok t)
    × IsSlice t
    × (t.len ≡ six_of_eight.len)
    × (read_uint 4 t 2 ≡ ok 0xdead_beef)
    × ((k other : ℕ)
        → region_in_bounds six_of_eight other k ≡ true
        → (other + k ≤ 2) ⊎ (2 + 4 ≤ other)
        → read_uint k t other ≡ read_uint k six_of_eight other)
write_read_example =
    write_read 4 six_of_eight 2 0xdead_beef six_of_eight-IsSlice in_six (omega arith)
