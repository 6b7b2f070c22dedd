-- ===== src/Text/RoundTrip.antt =====
-- pointer.go and list.go: a new text is read back.
use mathlib.Core.Path.{subst}
use go_capnp.Base.{ℕ, zero, suc, refl, sym, ap, [], ◌∷◌, List, ◌≤◌, take, get_or, ◌++◌, length}
use go_capnp.Base.{◌+◌, ◌≡◌, drop, some, arith, length-append, ◌==◌, ◌∙◌, false, ◌-◌, length-drop}
use go_capnp.Base.{◌<◌, ◌^◌, inl, ◌*◌, get_elem?, u32, length-take, get_elem?-set_self, inr}
use go_capnp.Text.{terminated, ok, Message, ListRef, text, copy_bytes, new_text}
use go_capnp.Slice.{le_uint, Slice, IsSlice, read_uint, slice, splice, IsBytes}
use go_capnp.Address.{max_segment_size, total_size, pointer_size, is_one_byte}
use go_capnp.Base.Result.{ok, ok-injective, ◌>>=◌, Ensures, returns, Result, Ensures-bind}
use go_capnp.Slice.Bytes.{length-splice, range-splice_self, drop-splice_behind, take_append}
use go_capnp.Slice.Bytes.{splice-IsBytes}
use go_capnp.Slice.ReadWrite.{slice_in_range, read_splice, region_in_bounds_exact, read_in_range}
use go_capnp.Builder.Contents.{drop-drop}
use go_capnp.Message.{Message}
use go_capnp.Segment.{ListRef, of_list}
use go_capnp.Builder.Extends.{Extends, load_lem, IsBuilder-IsMemory, IsBuilder}
use go_capnp.Builder.NewLists.{IsNewList, new_primitive_list-IsNewList}
use go_capnp.Builder.Objects.{list_at}
use go_capnp.Lists.{data_of}
use go_capnp.Base.Int.{pos, to_u32, to_i32}
use go_capnp.Memory.Stores.{after, found_lengths, same_or_other, other-load, get_elem?-lt}
use go_capnp.Memory.Stores.{after-load, before-load}
use go_capnp.Lists.Elements.{at_uint_lem}
use go_capnp.Arena.Contract.{IsArena}

take_next : (n : ℕ) (xs : List ℕ) → take (suc n) xs ≡ take n xs ++ take 1 (drop n xs)
take_next zero xs = refl
take_next (suc n) [] = refl
take_next (suc n) (x ∷ xs) = ap (◌∷◌ x) (take_next n xs)

-- A single byte that reads as zero.
zero_byte : (xs : List ℕ) → 1 ≤ length xs → le_uint (take 1 xs) ≡ 0 → take 1 xs ≡ 0 ∷ []
unfolding le_uint
zero_byte [] h e = absurd (omega arith)
zero_byte (x ∷ xs) h e = let none : x ≡ 0 = omega (arith, e) in rw none refl

get_or-append : (v : List ℕ) (x : ℕ) → get_or (v ++ (x ∷ [])) (length v) 0 ≡ x
get_or-append [] x = refl
get_or-append (y ∷ v) x = get_or-append v x

terminated_lem : (v : List ℕ) → terminated (v ++ (0 ∷ [])) ≡ some v
unfolding terminated
terminated_lem v =
    let len : length (v ++ (0 ∷ [])) ≡ length v + 1 = length-append v (0 ∷ []) in
    let nonempty : (length v + 1 == 0) ≡ false = ground arith in
    let last : length v + 1 - 1 ≡ length v = omega arith in
    rw len (rw nonempty (rw last (rw (get_or-append v 0) (ap some (take_append v (0 ∷ []))))))

module _ (d : Slice) (off : ℕ) (v : List ℕ) (valid : IsSlice d) (small : d.len ≤ max_segment_size)
    (room : off + (length v + 1) ≤ d.len) (nul : read_uint 1 d (off + length v) ≡ ok 0) where
  abbrev written : Slice
  written = record d { mem = splice d.mem off v }

  in_mem : off + (length v + 1) ≤ length d.mem
  in_mem = omega (arith, room, valid.within)

  length_written : length written.mem ≡ length d.mem
  length_written = length-splice d.mem v off (omega (arith, in_mem))

  nul_byte : take 1 (drop (off + length v) d.mem) ≡ 0 ∷ []
  nul_byte =
      zero_byte (drop (off + length v) d.mem)
        (omega (arith, in_mem, length-drop (off + length v) d.mem))
        (ok-injective (
          sym (
            read_in_range 1 d (off + length v) (omega (arith, in_mem)) (omega (arith, room, small)))
          ∙ nul))

  text_bytes : take (suc (length v)) (drop off written.mem) ≡ v ++ (0 ∷ [])
  text_bytes =
      take_next (length v) (drop off written.mem)
      ∙ ap (λ bs. bs ++ take 1 (drop (length v) (drop off written.mem)))
          (range-splice_self d.mem v off (omega (arith, in_mem)))
      ∙ ap (λ bs. v ++ bs)
          (ap (take 1) (
              drop-drop written.mem off (length v)
              ∙ drop-splice_behind d.mem v off (off + length v) (omega (arith, in_mem))
                  (omega arith))
            ∙ nul_byte)

  slice_written : slice written off (suc (length v)) ≡ ok (v ++ (0 ∷ []))
  slice_written =
      slice_in_range written off (suc (length v)) (omega (arith, in_mem, length_written))
        (omega (arith, room, small))
      ∙ ap ok text_bytes

  written-IsSlice : IsBytes v → IsSlice written
  written-IsSlice bytes = record {
    within = omega (arith, length_written, valid.within);
    bytes = splice-IsBytes d.mem v off valid.bytes bytes;
  }

  read_before : (k a : ℕ) → a + k ≤ off → read_uint k written a ≡ read_uint k d a
  read_before k a low =
      read_splice d off v k a valid
        ((region_in_bounds_exact d a k small).1 (omega (arith, low, room))) (inl low)
        (omega (arith, in_mem))

take_length : (v : List ℕ) → take (length v) v ≡ v
take_length [] = refl
take_length (x ∷ v) = ap (◌∷◌ x) (take_length v)

-- What NewText returns for the text v.
pub record IsText (m : Message) (v : List ℕ) (r : Message × ListRef) : Type 0 where
  pub extends : Extends m r.0
  pub reads : text r.0 (of_list r.1) ≡ ok (some v)

module _ (m m' : Message) (v : List ℕ) (id addr : ℕ) (short : suc (length v) < 2 ^ 29)
    (bytes : IsBytes v)
    (new : IsNewList m 1
      (suc (length v))
      (m', list_at (data_of 1) (pos (suc (length v))) false false id addr)) where
  abbrev l : ListRef
  l = list_at (data_of 1) (pos (suc (length v))) false false id addr

  abbrev d : Slice
  d = new.live.inside.inside.0

  found : get_elem? m'.segs id ≡ some d
  found = new.live.inside.inside.1

  valid : IsSlice d
  valid = new.builder.segments.slices id d found

  small : d.len ≤ max_segment_size
  small = new.builder.segments.small id d found

  one : total_size (data_of 1) ≡ 1
  unfolding total_size pointer_size
  one = refl

  room : addr + (length v + 1) ≤ d.len
  room = omega (arith, new.live.inside.inside.2, one, products)
    where
      products : suc (length v) * total_size (data_of 1) ≡ suc (length v)
      products = rw one (omega arith)

  nul : read_uint 1 d (addr + length v) ≡ ok 0
  nul =
      let last : length v < suc (length v) = omega arith in
      let start : addr + length v ≡ addr + length v * total_size (data_of 1) =
        rw one (omega arith) in
      ap (read_uint 1 d) start
      ∙ sym (load_lem 1 m' id _ d found)
      ∙ sym
          (at_uint_lem 1 m' l (length v) (IsBuilder-IsMemory m' new.builder) new.live new.fits last)
      ∙ new.zero_elements (length v) last

  copied : copy_bytes m' l v ≡ ok (after m' id d (written d addr v valid small room nul) found refl)
  unfolding copy_bytes ◌>>=◌
  copied =
      let low : u32 (length v) ≡ length v = omega (arith, short) in
      let part =
        slice_in_range d addr (length v) (omega (arith, room, valid.within))
          (omega (arith, room, small)) in
      let count : length (take (length v) (drop addr d.mem)) ≡ length v = omega (
        arith,
        length-take (length v) (drop addr d.mem),
        length-drop addr d.mem,
        room,
        valid.within,
      ) in
      rw found (rw (low, part) (rw (count, take_length v) refl))

  abbrev ended : Message
  ended = after m' id d (written d addr v valid small room nul) found refl

  ended_reads : text ended (of_list l) ≡ ok (some v)
  unfolding text ◌>>=◌ is_one_byte
  ended_reads =
      let count : to_u32 (pos (suc (length v))) ≡ suc (length v) =
        unfold to_u32 in omega (arith, short) in
      rw
        (get_elem?-set_self m'.segs id (written d addr v valid small room nul)
          (get_elem?-lt m'.segs id found))
        (rw count (rw (slice_written d addr v valid small room nul) (ap ok (terminated_lem v))))

  ended-Extends : Extends m ended
  ended-Extends = record {
    lengths = λ i old here.
        let (e, there, up) = new.extends.lengths i old here in
        let (e', there', same) =
          found_lengths m' id d (written d addr v valid small room nul) found refl i e there in
        (e', there', omega (arith, up, same));
    kept = λ k i off (old, here, inside). elim (same_or_other id i) [
      | inr other ↦
          other-load m' id d (written d addr v valid small room nul) found refl k i off other
          ∙ new.extends.kept k i off (old, here, inside)
      | inl same ↦
          let below : off + k ≤ addr =
            omega (arith, inside, new.behind old (ap (get_elem? m.segs) same ∙ here)) in
          rw (← same) (
            after-load m' id d (written d addr v valid small room nul) found refl k off
              (read_before d addr v valid small room nul k off below)
            ∙ sym (before-load m' id d (written d addr v valid small room nul) found refl k off)
            ∙ rw (← same) at (new.extends.kept k i off (old, here, inside)))
    ];
  }

  IsText-end : Ensures (IsText m v) (do m'' ← copy_bytes m' l v; ok (m'', l))
  unfolding ◌>>=◌
  IsText-end = rw copied (returns (record { extends = ended-Extends; reads = ended_reads }))

-- NewText does not panic, for bytes that with a NUL make a list, a message of fewer than 2 ^ 32 segments,
-- and an arena that keeps its contract.
-- The list that it returns is read back as the text, and every load of what was in the message gives
-- what it gave before.
pub new_text-IsText :
    (allocate : ℕ → List Slice → Result (ℕ × Slice)) (m : Message) (seg : ℕ) (v : List ℕ)
    → IsArena allocate
    → IsBuilder m
    → seg < length m.segs
    → length m.segs < 2 ^ 32
    → IsBytes v
    → suc (length v) < 2 ^ 29
    → Ensures (IsText m v) (new_text allocate m seg v)
unfolding new_text
new_text-IsText allocate m seg v a w lt few bytes short =
    let count : to_i32 (length v + 1) ≡ pos (suc (length v)) =
      unfold to_i32 in ground (arith, short) in
    rw count (
      Ensures-bind (IsNewList m 1 (suc (length v)))
        (new_primitive_list-IsNewList allocate m seg 1 (suc (length v)) a w lt few (omega arith))
        λ (m', l) new. from_made m' l new)
  where
    from_made :
        (m' : Message) (l : ListRef)
        → IsNewList m 1 (suc (length v)) (m', l)
        → Ensures (IsText m v) (do m'' ← copy_bytes m' l v; ok (m'', l))
    from_made m' l new =
        subst
          (λ x.
            IsNewList m 1 (suc (length v)) (m', x)
            → Ensures (IsText m v) (do m'' ← copy_bytes m' x v; ok (m'', x)))
          (sym new.made) (IsText-end m m' v l.seg l.off short bytes) new
