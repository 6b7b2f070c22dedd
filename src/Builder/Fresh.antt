-- ===== src/Builder/Fresh.antt =====
-- What alloc returns is fresh: of zeros, and apart from all that was there.
use go_capnp.Base.{[], ◌∷◌, zero, suc, ℕ, ◌+◌, ◌≤◌, ◌<◌, ◌^◌, ◌≡◌, ◌%◌, refl, arith, List, length}
use go_capnp.Base.{some, get_elem?, Bool-cases, inl, inr, ltb, ◌==◌, u32, false, set, leb, ◌⊎◌}
use go_capnp.Base.{◌&&◌, ap, true, sym, ◌∙◌}
use go_capnp.Base.Result.{Result, ok, Ensures, Ensures-bind, Ensures-wrap, returns, fails, ◌>>=◌}
use go_capnp.Address.{max_alloc_size, pad_to_word, add_size, max_int, max_segment_size}
use go_capnp.Address.Bounds.{pad_to_word_lem}
use go_capnp.Slice.{Slice, IsSlice, cap}
use go_capnp.Message.{Message}
use go_capnp.Segment.Resolve.{InSegment}
use go_capnp.Memory.{load}
use go_capnp.Arena.{has_capacity}
use go_capnp.Arena.Contract.{IsArena, IsRoom}
use mathlib.Core.Option.{some-injective}
use go_capnp.Builder.{alloc, alloc_segment, choose_segment, extend_segment, carve, cleared}
use go_capnp.Builder.{placed, set_segment}
use go_capnp.Builder.Contents.{cleared-IsSlice, cleared-kept, cleared-zero}
use go_capnp.Builder.Extends.{IsBuilder, Extends, Extends-refl, Extends-trans, set_segment-IsPut}
use go_capnp.Builder.Extends.{set-IsPut, IsPut, load_lem}
use go_capnp.Arena.Meets.{has_capacity_sound}
use go_capnp.Memory.Stores.{get_elem?-lt}

-- A region of `sz` bytes behind all that its segment held, and within it now, of zeros.
pub record IsFresh (m : Message) (sz : ℕ) (r : Message × ℕ × ℕ) : Type 0 where
  pub builder : IsBuilder r.0
  pub extends : Extends m r.0
  pub inside : InSegment r.0 r.1 r.2 sz
  pub aligned : r.2 % 8 ≡ 0
  pub numbered : r.1 ≤ length m.segs
  pub behind : (d : Slice) → get_elem? m.segs r.1 ≡ some d → d.len ≤ r.2
  pub zero_filled : (k off : ℕ) → r.2 ≤ off → off + k ≤ r.2 + sz → load k r.0 r.1 off ≡ ok 0

-- A segment with room.
record HasRoom (m : Message) (sz : ℕ) (c : Message × ℕ) : Type 0 where
  builder : IsBuilder c.0
  extends : Extends m c.0
  numbered : c.1 ≤ length m.segs
  room : (d : Slice) × (get_elem? c.0.segs c.1 ≡ some d) × (d.len + sz ≤ length d.mem)

add_size_cases :
    (a sz : ℕ)
    → a ≤ max_segment_size
    → (add_size a sz ≡ (0xffff_ffff, false))
      ⊎ ((add_size a sz ≡ (a + sz, true)) × (a + sz ≤ max_segment_size))
unfolding add_size
add_size_cases a sz h = elim (Bool-cases (ltb max_segment_size (a + sz))) [
  | inl over ↦ rw over (inl refl)
  | inr fine ↦
      let low : u32 (a + sz) ≡ a + sz = ground arith in rw (fine, low) (inr (refl, ground arith))
]

add_size_fits : (a sz : ℕ) → a + sz ≤ max_segment_size → add_size a sz ≡ (a + sz, true)
unfolding add_size
add_size_fits a sz h = ground (arith, h)

get_elem?-some :
    (segs : List Slice) (i : ℕ) → i < length segs → (d : Slice) × (get_elem? segs i ≡ some d)
get_elem?-some [] i h = absurd (omega arith)
get_elem?-some (s ∷ segs) zero h = (s, refl)
get_elem?-some (s ∷ segs) (suc i) h = get_elem?-some segs i (omega arith)

module _ (allocate : ℕ → List Slice → Result (ℕ × Slice)) (a : IsArena allocate) (m : Message)
    (w : IsBuilder m) (few : length m.segs < 2 ^ 32) where
  placed-HasRoom :
      (sz id : ℕ) (d : Slice) → IsRoom sz m.segs (id, d) → HasRoom m sz (placed m (id, d))
  placed-HasRoom sz id d room = elim room.kept [
    | inl (old, here, len, same) ↦ from_put (omega (arith, get_elem?-lt m.segs id here)) (
        set_segment-IsPut m id d w room.slice (omega (arith, len, w.segments.small id old here))
          (omega (arith, len, w.whole id old here)) (inl (old, here, (omega (arith, len), same))))
    | inr (last, empty) ↦ from_put (omega (arith, last)) (
        set_segment-IsPut m id d w room.slice (omega (arith, empty)) (omega (arith, empty))
          (inr last))
  ]
    where
      from_put :
          id ≤ length m.segs → IsPut m id d (set_segment m id d) → HasRoom m sz (placed m (id, d))
      from_put n p = record {
        numbered = n;
        builder = p.builder;
        extends = p.extends;
        room = (d, p.found, room.enough);
      }

  alloc_segment-HasRoom : (sz : ℕ) → Ensures (HasRoom m sz) (alloc_segment allocate m sz)
  unfolding alloc_segment
  alloc_segment-HasRoom sz = elim (Bool-cases (ltb max_alloc_size sz)) [
    | inl large ↦ rw large fails
    | inr fits ↦ rw fits (elim (Bool-cases (length m.segs == max_int)) [
      | inl many ↦ rw many fails
      | inr below ↦ rw below (
          Ensures-bind (IsRoom sz m.segs) (Ensures-wrap "allocation" (a sz m.segs w.segments few))
            λ (id, d) room. returns (placed-HasRoom sz id d room))
    ])
  ]

  choose_segment-HasRoom :
      (seg sz : ℕ) → seg < length m.segs → Ensures (HasRoom m sz) (choose_segment allocate m seg sz)
  unfolding choose_segment ◌>>=◌
  choose_segment-HasRoom seg sz lt =
      let (d, found) = get_elem?-some m.segs seg lt in
      rw found (elim (Bool-cases (has_capacity d sz)) [
        | inl room ↦ rw room (
            returns (record {
              builder = w;
              extends = Extends-refl m;
              numbered = omega (arith, lt);
              room = (d, found, has_capacity_sound d sz (w.segments.slices seg d found) room);
            }))
        | inr full ↦ rw full (alloc_segment-HasRoom sz)
      ])

module _ (m : Message) (sz : ℕ) (c : Message × ℕ) (h : HasRoom m sz c) (whole : sz % 8 ≡ 0) where
  abbrev here : Slice
  here = h.room.0

  here-IsSlice : IsSlice here
  here-IsSlice = h.builder.segments.slices c.1 here h.room.1

  here_small : here.len ≤ max_segment_size
  here_small = h.builder.segments.small c.1 here h.room.1

  abbrev end : ℕ
  end = here.len + sz

  end_room : end ≤ length here.mem
  end_room = omega (arith, h.room.2)

  grown-IsFresh :
      end ≤ max_segment_size
      → IsFresh m sz (record c.0 { segs = set c.0.segs c.1 (cleared here end) }, c.1, here.len)
  grown-IsFresh small =
      let p =
        set-IsPut c.0 c.1 (cleared here end) h.builder
          (cleared-IsSlice here end here-IsSlice (omega arith) end_room) small
          (omega (arith, whole, h.builder.whole c.1 here h.room.1)) here h.room.1
          (omega arith, cleared-kept here end here-IsSlice (omega arith) end_room) in
      record {
        builder = p.builder;
        extends = Extends-trans h.extends p.extends;
        inside = (cleared here end, p.found, omega arith);
        aligned = h.builder.whole c.1 here h.room.1;
        numbered = h.numbered;
        behind = λ d found.
            let (d', found', up) = h.extends.lengths c.1 d found in
            omega
              (arith, up, ap (λ (s : Slice). s.len) (some-injective _ _ (sym found' ∙ h.room.1)));
        zero_filled = λ k off low high.
            load_lem k _ c.1 off (cleared here end) p.found
            ∙ cleared-zero here end here-IsSlice (omega arith) end_room off k low high
                (omega (arith, small));
      }

  extend_segment-IsFresh : Ensures (IsFresh m sz) (extend_segment c.0 c.1 sz)
  unfolding extend_segment carve ◌>>=◌
  extend_segment-IsFresh =
      let low : u32 here.len ≡ here.len = omega (arith, here_small) in
      rw (h.room.1, low)
        (elim (add_size_cases here.len sz here_small) [
          | inl over ↦ rw over fails
          | inr (fine, small) ↦
              let checked : (leb here.len end && leb end (cap here)) ≡ true =
                ground (arith, end_room) in
              rw fine (rw checked (returns (grown-IsFresh small)))
        ])

-- The message with a segment longer by some bytes, of zeros.
abbrev pub grown : Message → ℕ → Slice → ℕ → Message
grown m seg d sz = record m { segs = set m.segs seg (cleared d (d.len + sz)) }

-- Where the segment itself has the capacity, and stays within the format's limit, alloc succeeds there.
pub alloc_in_place_lem :
    (allocate : ℕ → List Slice → Result (ℕ × Slice)) (m : Message) (seg sz : ℕ) (d : Slice)
    → IsBuilder m
    → get_elem? m.segs seg ≡ some d
    → sz ≤ max_alloc_size
    → has_capacity d (pad_to_word sz) ≡ true
    → d.len + pad_to_word sz ≤ max_segment_size
    → (alloc allocate m seg sz ≡ ok (grown m seg d (pad_to_word sz), seg, d.len))
      × IsFresh m (pad_to_word sz) (grown m seg d (pad_to_word sz), seg, d.len)
unfolding alloc choose_segment extend_segment carve ◌>>=◌
alloc_in_place_lem allocate m seg sz d w found fits room limit =
    let valid = w.segments.slices seg d found in
    let enough = has_capacity_sound d (pad_to_word sz) valid room in
    let within : ltb max_alloc_size sz ≡ false = ground (arith, fits) in
    let small : sz ≤ max_segment_size = unfold max_alloc_size in omega (arith, fits) in
    let low : u32 d.len ≡ d.len = omega (arith, limit) in
    let checked : (leb d.len (d.len + pad_to_word sz) && leb (d.len + pad_to_word sz) (cap d))
        ≡ true =
      ground (arith, enough) in
    let f =
      grown-IsFresh m (pad_to_word sz) (m, seg)
        (record {
          builder = w;
          extends = Extends-refl m;
          numbered = omega (arith, get_elem?-lt m.segs seg found);
          room = (d, found, enough);
        })
        (pad_to_word_lem sz small).0 limit in
    (
      rw within (
          rw found (
            rw room
              (rw (found, low, add_size_fits d.len (pad_to_word sz) limit) (rw checked refl)))),
      f,
    )

pub alloc_in_place :
    (allocate : ℕ → List Slice → Result (ℕ × Slice)) (m : Message) (seg sz : ℕ) (d : Slice)
    → IsBuilder m
    → get_elem? m.segs seg ≡ some d
    → sz ≤ max_alloc_size
    → has_capacity d (pad_to_word sz) ≡ true
    → d.len + pad_to_word sz ≤ max_segment_size
    → (m' : Message) × (alloc allocate m seg sz ≡ ok (m', seg, d.len))
      × IsFresh m (pad_to_word sz) (m', seg, d.len)
alloc_in_place allocate m seg sz d w found fits room limit =
    let (done, f) = alloc_in_place_lem allocate m seg sz d w found fits room limit in (_, done, f)

-- On a message of fewer than 2 ^ 32 segments, well formed and of whole words, with an arena that keeps its
-- contract, alloc does not panic. What it returns is a region of at least the size asked for, at a
-- word's address, within its segment, filled with zeros, behind everything that the segment held; and
-- every load of what was in the message gives what it gave before.
pub alloc-IsFresh :
    (allocate : ℕ → List Slice → Result (ℕ × Slice)) (m : Message) (seg sz : ℕ)
    → IsArena allocate
    → IsBuilder m
    → seg < length m.segs
    → length m.segs < 2 ^ 32
    → Ensures (IsFresh m (pad_to_word sz)) (alloc allocate m seg sz)
unfolding alloc
alloc-IsFresh allocate m seg sz a w lt few = elim (Bool-cases (ltb max_alloc_size sz)) [
  | inl large ↦ rw large fails
  | inr fits ↦
      let small : sz ≤ max_segment_size = unfold max_alloc_size in ground arith in
      rw fits (
        Ensures-bind (HasRoom m (pad_to_word sz))
          (choose_segment-HasRoom allocate a m w few seg (pad_to_word sz) lt)
          λ c h. extend_segment-IsFresh m (pad_to_word sz) c h (pad_to_word_lem sz small).0)
]
