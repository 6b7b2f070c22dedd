-- ===== src/Arena/Meets.antt =====
-- Both arenas meet the contract of the interface Arena.
use go_capnp.Base.{ℕ, suc, ◌+◌, ◌-◌, ◌≤◌, ◌<◌, ◌≡◌, ◌^◌, refl, sym, arith, List, [], ◌∷◌, length}
use go_capnp.Base.{take, min, inl, inr, Bool-cases, true, get_elem?, length-take, some}
use go_capnp.Base.{length-append, not, ap, drop, ◌%◌, length-drop, u32, ◌∙◌, ◌==◌}
use go_capnp.Base.Result.{Ensures, Ensures-bind, returns, fails}
use go_capnp.Slice.{Slice, IsSlice, cap}
use go_capnp.Arena.{has_capacity, is_negative, some, not}
use go_capnp.Arena.Enough.{next_alloc-enough}
use go_capnp.Arena.Allocate.{grow_single, allocate_single, allocate_from, allocate_multi, moved}
use go_capnp.Arena.Contract.{AreSegments, IsRoom, IsArena, IsPool, IsKept}
use go_capnp.Address.{max_segment_size, max_alloc_size}
use go_capnp.Slice.Bytes.{append-IsBytes, take_append, take-IsBytes, drop-IsBytes}

pub has_capacity_sound :
    (d : Slice) (sz : ℕ) → IsSlice d → has_capacity d sz ≡ true → d.len + sz ≤ length d.mem
unfolding has_capacity
has_capacity_sound d sz v h = ground (arith, v.within)

module _ (pool : ℕ → List ℕ) (p : IsPool pool) where
  module _ (n : ℕ) (d : Slice) (v : IsSlice d) (fits : d.len ≤ n) where
    abbrev front : List ℕ
    front = take (min n d.len) d.mem

    length_front : length front ≡ d.len
    length_front = omega (arith, length-take (min n d.len) d.mem, v.within, fits)

    moved-kept : take d.len (moved pool n d).mem ≡ take d.len d.mem
    moved-kept =
        ap (λ k. take k (moved pool n d).mem) (sym length_front)
        ∙ take_append front (drop (min n d.len) (pool n))
        ∙ ap (λ k. take k d.mem) (omega (arith, fits))

    moved-length : n ≤ length (moved pool n d).mem
    moved-length = omega (
      arith,
      length-append front (drop (min n d.len) (pool n)),
      length_front,
      length-drop (min n d.len) (pool n),
      p.room n,
      fits,
      v.within,
    )

    moved-IsSlice : IsSlice (moved pool n d)
    moved-IsSlice = record {
      within = omega (arith, moved-length);
      bytes =
          append-IsBytes front (drop (min n d.len) (pool n))
            (take-IsBytes (min n d.len) d.mem v.bytes)
            (drop-IsBytes (min n d.len) (pool n) (p.bytes n));
    }

  grow_single-IsRoom :
      (sz : ℕ) (segs : List Slice) (d : Slice)
      → IsSlice d
      → d.len ≤ max_segment_size
      → ((a : Slice) → a.len ≡ d.len → take d.len a.mem ≡ take d.len d.mem → IsKept segs 0 a)
      → Ensures (IsRoom sz segs) (grow_single pool sz d)
  unfolding grow_single
  grow_single-IsRoom sz segs d v small kept = elim (Bool-cases (not (d.len % 8 == 0))) [
    | inl odd ↦ rw odd fails
    | inr whole ↦ rw whole (elim (Bool-cases (has_capacity d sz)) [
      | inl room ↦ rw room (
          returns (record {
            slice = v;
            enough = has_capacity_sound d sz v room;
            kept = kept d refl refl;
          }))
      | inr full ↦ rw full (
          Ensures-bind _
            (next_alloc-enough d.len max_alloc_size sz (omega arith)
              (unfold max_alloc_size in omega arith))
            λ inc (enough, whole, bound).
              let fits : d.len ≤ cap d + inc = omega (arith, v.within) in
              returns (record {
                slice = moved-IsSlice (cap d + inc) d v fits;
                enough = omega (arith, moved-length (cap d + inc) d v fits, enough, v.within, fits);
                kept =
                    kept (moved pool (cap d + inc) d) (omega (arith, fits))
                      (moved-kept (cap d + inc) d v fits);
              }))
    ])
  ]

  -- The arena of one segment.
  pub allocate_single-IsArena : IsArena (allocate_single pool)
  allocate_single-IsArena sz [] w few =
      grow_single-IsRoom sz [] _ (record { within = omega arith; bytes = tt }) (omega arith)
        (λ a e _. inr (refl, e))
  allocate_single-IsArena sz (d ∷ segs) w few =
      grow_single-IsRoom sz (d ∷ segs) d (w.slices 0 d refl) (w.small 0 d refl)
        (λ a e k. inl (d, refl, e, k))

  -- The segments from `id` on, of all.
  abbrev IsSuffix : List Slice → ℕ → List Slice → Type 0
  IsSuffix all id segs =
      (length all ≡ id + length segs) × ((j : ℕ) → get_elem? all (id + j) ≡ get_elem? segs j)

  allocate_from-IsRoom :
      (all : List Slice) (id total sz : ℕ) (segs : List Slice)
      → AreSegments all
      → length all < 2 ^ 32
      → IsSuffix all id segs
      → total < 2 ^ 63
      → Ensures (IsRoom sz all) (allocate_from pool id total sz segs)
  unfolding allocate_from
  allocate_from-IsRoom all id total sz [] w few (len, same) h =
      Ensures-bind _ (next_alloc-enough total (2 ^ 63 - 1) sz h (omega arith))
        λ n (enough, whole, bound). returns (record {
          slice = record { within = omega arith; bytes = p.bytes n };
          enough = omega (arith, p.room n, enough);
          kept = inr (omega (arith, len, few), refl);
        })
  allocate_from-IsRoom all id total sz (d ∷ segs) w few (len, same) h =
      let found : get_elem? all id ≡ some d = ap (get_elem? all) (omega arith) ∙ same 0 in
      let unwrapped : u32 id ≡ id = omega (arith, len, few) in
      let rest =
        allocate_from-IsRoom all (suc id) (total + cap d) sz segs w few
          (omega (arith, len), λ j. ap (get_elem? all) (omega arith) ∙ same (suc j)) in
      elim (Bool-cases (has_capacity d sz)) [
        | inl room ↦ rw room (
            returns (record {
              slice = w.slices id d found;
              enough = has_capacity_sound d sz (w.slices id d found) room;
              kept = inl (d, ap (get_elem? all) unwrapped ∙ found, refl, refl);
            }))
        | inr full ↦ rw full (elim (Bool-cases (is_negative (total + cap d))) [
          | inl over ↦ rw over fails
          | inr fine ↦ rw fine (rest (ground arith))
        ])
      ]

  -- Where the pool's buffers hold bytes and are as long as asked for at least, MultiSegmentArena.Allocate, on
  -- fewer than 2 ^ 32 well-formed segments, does not panic. Where it returns no error, the data that it
  -- returns has room for the request, and is that of the segment with the id that it returns, or empty with
  -- the id behind the last.
  pub allocate_multi-IsArena : IsArena (allocate_multi pool)
  allocate_multi-IsArena sz segs w few =
      allocate_from-IsRoom segs 0 0 sz segs w few
        (omega arith, λ j. ap (get_elem? segs) (omega arith)) (omega arith)
