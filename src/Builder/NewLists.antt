-- ===== src/Builder/NewLists.antt =====
-- list.go: a new list of integers is live, apart from everything else, and all its elements are zero.
use go_capnp.Base.{refl, suc, ℕ, ◌≤◌, ◌<◌, ◌≡◌, false, arith, ◌^◌, ◌*◌, get_elem?, some, ◌%◌}
use go_capnp.Base.{List, length, Bool-cases, inr, ◌∙◌, inl, ◌+◌}
use go_capnp.Base.Result.{Ensures-wrap, Ensures-bind, returns, fails, ok, Result, Ensures}
use native.Mathlib.Nat.{mul-le-mul_right, mul_comm}
use go_capnp.Lists.{mismatched, same_size, data_of}
use go_capnp.Address.{times_unchecked, total_size, pointer_size, pad_to_word, max_segment_size}
use go_capnp.Address.{is_valid}
use go_capnp.Message.{Message}
use go_capnp.Segment.{ListRef}
use go_capnp.Builder.Extends.{IsBuilder, Extends, IsBuilder-IsMemory}
use go_capnp.Base.Int.{pos, pos_part}
use go_capnp.Lists.Elements.{IsLiveList, at_uint_lem}
use go_capnp.Slice.{Slice}
use go_capnp.Lists.Integers.{at_uint}
use go_capnp.Builder.Objects.{new_primitive_list, list_at, in_length}
use go_capnp.Builder.Fresh.{IsFresh, alloc-IsFresh}
use go_capnp.Arena.Contract.{IsArena}
use go_capnp.Address.Bounds.{pad_to_word_lem}
use go_capnp.Segment.Safe.{list_extent}

-- The new list in the message after it.
pub record IsNewList (m : Message) (n count : ℕ) (r : Message × ListRef) : Type 0 where
  pub made : r.1 ≡ list_at (data_of n) (pos count) false false r.1.seg r.1.off
  pub builder : IsBuilder r.0
  pub extends : Extends m r.0
  pub live : IsLiveList r.0 r.1
  pub fits : mismatched r.1 (data_of n) ≡ false
  pub behind : (d : Slice) → get_elem? m.segs r.1.seg ≡ some d → d.len ≤ r.1.off
  pub zero_elements : (i : ℕ) → i < pos_part r.1.length → at_uint n r.0 (some r.1) (pos i) ≡ ok 0

integers : (sz count : ℕ) → sz ≤ 8 → count < 2 ^ 29 → times_unchecked sz (pos count) ≡ sz * count
unfolding times_unchecked
integers sz count small few =
    let bound : sz * count ≤ 8 * count = mul-le-mul_right count small in
    let low : count % 2 ^ 32 ≡ count = omega (arith, few) in rw low (omega (arith, bound, few))

list_total : (sz : ℕ) → sz ≤ 8 → total_size (data_of sz) ≡ sz
unfolding total_size pointer_size
list_total sz small = omega (arith, small)

data_fits :
    (l : ListRef) (sz : ℕ)
    → l.size ≡ data_of sz
    → l.is_bit_list ≡ false
    → l.is_composite ≡ false
    → mismatched l (data_of sz) ≡ false
unfolding mismatched same_size
data_fits l sz e b c = rw (e, b, c) (ground arith)

-- A new list of integers of `sz` bytes: alloc gives at least its bytes, so it is live and zero.
fresh_list :
    (m m' : Message) (id addr sz count : ℕ)
    → sz ≤ 8
    → count < 2 ^ 29
    → IsFresh m (pad_to_word (times_unchecked sz (pos count))) (m', id, addr)
    → IsNewList m sz count (m', list_at (data_of sz) (pos count) false false id addr)
fresh_list m m' id addr sz count small few f =
    let l = list_at (data_of sz) (pos count) false false id addr in
    let bytes = integers sz count small few in
    let bound : sz * count ≤ 8 * count = mul-le-mul_right count small in
    let limit : times_unchecked sz (pos count) ≤ max_segment_size =
      omega (arith, bytes, bound, few) in
    let pad = pad_to_word_lem (times_unchecked sz (pos count)) limit in
    let total = list_total sz small in
    let turned : count * sz ≡ sz * count = mul_comm count sz in
    let extent : list_extent l ≡ sz * count = rw total turned in
    let live : IsLiveList m' l = record {
      inside = record {
        inside =
            (let (d, found, room) = f.inside in
              (d, found, omega (arith, room, pad, bytes, extent)));
        short = few;
        counted = omega arith;
      };
      sized = unfold is_valid in ground (arith, small);
      counted = omega arith;
      positive = refl;
    } in
    let fits = data_fits l sz refl refl refl in
    record {
      made = refl;
      builder = f.builder;
      extends = f.extends;
      live = live;
      fits = fits;
      behind = f.behind;
      zero_elements = λ i inside.
          let rows : suc i * sz ≤ count * sz = mul-le-mul_right sz inside in
          at_uint_lem sz m' l i (IsBuilder-IsMemory m' f.builder) live fits inside
          ∙ rw total (
              f.zero_filled sz (addr + i * sz) (omega arith)
                (omega (arith, rows, turned, bytes, pad)));
    }

-- newPrimitiveList does not panic, for elements of at most 8 bytes, a message of fewer than 2 ^ 32
-- segments and an arena that keeps its contract. The list that it returns lies behind all that its segment held, each of its elements is
-- read as zero, and every load of what was in the message gives what it gave before.
pub new_primitive_list-IsNewList :
    (allocate : ℕ → List Slice → Result (ℕ × Slice)) (m : Message) (seg sz count : ℕ)
    → IsArena allocate
    → IsBuilder m
    → seg < length m.segs
    → length m.segs < 2 ^ 32
    → sz ≤ 8
    → Ensures (IsNewList m sz count) (new_primitive_list allocate m seg sz (pos count))
unfolding new_primitive_list
new_primitive_list-IsNewList allocate m seg sz count a w lt numbered small =
    elim (Bool-cases (in_length (pos count))) [
      | inr out ↦ rw out fails
      | inl fits ↦
          let few : count < 2 ^ 29 = ground (arith, fits) in
          rw fits (
            Ensures-bind (IsFresh m (pad_to_word (times_unchecked sz (pos count))))
              (Ensures-wrap "new list"
                (alloc-IsFresh allocate m seg (times_unchecked sz (pos count)) a w lt numbered))
              λ (m', id, addr) f. returns (fresh_list m m' id addr sz count small few f))
    ]
