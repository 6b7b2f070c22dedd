-- ===== src/Root/Counts.antt =====
-- message.go: the ids that an arena gives bound the number of a message's segments; nothing that is built
-- touches the read limits.
use go_capnp.Base.{none, some, refl, [], ◌∷◌, ℕ, List, length, ◌<◌, ◌≤◌, ltb, leb, ◌==◌, Bool}
use go_capnp.Base.{true, false, Option, ◌≡◌, get_elem?, Bool-cases, ◌&&◌, inl, arith, inr}
use go_capnp.Base.{length-set, length-append, ◌%◌, ◌^◌, ◌-◌, ◌+◌, suc}
use go_capnp.Base.Result.{Result, Gives, gives, errs, panics, Gives-bind, Gives-wrap, ok, err}
use go_capnp.Base.Result.{panic, any_value}
use go_capnp.Message.{Message}
use go_capnp.Builder.{alloc, carve, alloc_segment, extend_segment, set_segment, choose_segment}
use go_capnp.Builder.{cleared}
use go_capnp.Slice.{Slice, write_uint, cap}
use go_capnp.Builder.Pointers.{address_or_zero, place_pointer, place_near, place_far}
use go_capnp.Builder.Pointers.{place_double_far}
use go_capnp.Address.{max_alloc_size, max_int, pad_to_word, word_size}
use go_capnp.Memory.{segment_bytes, present, store}
use go_capnp.Arena.{has_capacity, next_alloc, is_negative}
use go_capnp.Arena.Allocate.{grow_single, allocate_single, allocate_from, allocate_multi}

-- The arena's ids are below a number.
abbrev pub IsNumbered : ℕ → (ℕ → List Slice → Result (ℕ × Slice)) → Type 0
IsNumbered k allocate = (sz : ℕ) (segs : List Slice) → Gives (λ a. a.0 < k) (allocate sz segs)

-- The limits on reading are those of another message.
pub record SameLimits (m m' : Message) : Type 0 where
  pub traverse : m'.traverse_limit ≡ m.traverse_limit
  pub depth : m'.depth_limit ≡ m.depth_limit
  pub rest : m'.rlimit ≡ m.rlimit

-- A message of at most k segments with the limits of m0, and an id below k.
abbrev pub AreCounted : ℕ → Message → Message × ℕ → Type 0
AreCounted k m0 (m, seg) = (length m.segs ≤ k) × (seg < k) × SameLimits m0 m

present-Gives : (o : Option Slice) → Gives (λ d. o ≡ some d) (present o)
present-Gives none = panics
present-Gives (some d) = gives refl

pub segment_bytes-Gives :
    (m : Message) (seg : ℕ) → Gives (λ d. get_elem? m.segs seg ≡ some d) (segment_bytes m seg)
segment_bytes-Gives m seg = present-Gives (get_elem? m.segs seg)

module _ (k : ℕ) (allocate : ℕ → List Slice → Result (ℕ × Slice)) (n : IsNumbered k allocate)
    (m0 m : Message) (few : length m.segs ≤ k) (same : SameLimits m0 m) where
  abbrev limits : (segs : List Slice) → SameLimits m0 (record m { segs = segs })
  limits segs = record { traverse = same.traverse; depth = same.depth; rest = same.rest }

  set_segment-AreCounted : (id : ℕ) (d : Slice) → id < k → AreCounted k m0 (set_segment m id d, id)
  unfolding set_segment
  set_segment-AreCounted id d lt = elim (Bool-cases (ltb id (length m.segs))) [
    | inl old ↦ rw old (omega (arith, few, length-set m.segs id d), lt, limits _)
    | inr new ↦ rw new (ground (arith, length-append m.segs (d ∷ []), few, lt), lt, limits _)
  ]

  pub alloc_segment-AreCounted : (sz : ℕ) → Gives (AreCounted k m0) (alloc_segment allocate m sz)
  unfolding alloc_segment
  alloc_segment-AreCounted sz = elim (Bool-cases (ltb max_alloc_size sz)) [
    | inl large ↦ rw large errs
    | inr fits ↦ rw fits (elim (Bool-cases (length m.segs == max_int)) [
      | inl many ↦ rw many errs
      | inr below ↦ rw below (
          Gives-bind (λ a. a.0 < k) (Gives-wrap "allocation" (n sz m.segs))
            λ (id, d) lt. gives (set_segment-AreCounted id d lt))
    ])
  ]

  choose_segment-AreCounted :
      (seg sz : ℕ) → seg < k → Gives (AreCounted k m0) (choose_segment allocate m seg sz)
  unfolding choose_segment
  choose_segment-AreCounted seg sz lt =
      Gives-bind (λ d. get_elem? m.segs seg ≡ some d) (segment_bytes-Gives m seg)
        λ d found. elim (Bool-cases (has_capacity d sz)) [
          | inl room ↦ rw room (gives (few, lt, same))
          | inr full ↦ rw full (alloc_segment-AreCounted sz)
        ]

carve-AreCounted :
    (k : ℕ) (m0 m : Message) (seg addr : ℕ) (d : Slice) (r : ℕ × Bool)
    → AreCounted k m0 (m, seg)
    → Gives (λ r. AreCounted k m0 (r.0, r.1)) (carve m seg addr d r)
unfolding carve
carve-AreCounted k m0 m seg addr d (end, false) h = errs
carve-AreCounted k m0 m seg addr d (end, true) (few, lt, same) =
    elim (Bool-cases (leb d.len end && leb end (length d.mem))) [
      | inl fits ↦ rw fits (
          gives (
            omega (arith, few, length-set m.segs seg (cleared d end)),
            lt,
            record { traverse = same.traverse; depth = same.depth; rest = same.rest },
          ))
      | inr over ↦ rw over panics
    ]

-- Where the arena's ids are below k, alloc leaves a message of at most k segments so, and the region that it
-- returns is of a segment with an id below k. It leaves the read limits.
pub alloc-AreCounted :
    (k : ℕ) (allocate : ℕ → List Slice → Result (ℕ × Slice)) (m0 m : Message) (seg sz : ℕ)
    → IsNumbered k allocate
    → AreCounted k m0 (m, seg)
    → Gives (λ r. AreCounted k m0 (r.0, r.1)) (alloc allocate m seg sz)
unfolding alloc extend_segment
alloc-AreCounted k allocate m0 m seg sz n (few, lt, same) =
    elim (Bool-cases (ltb max_alloc_size sz)) [
      | inl large ↦ rw large errs
      | inr fits ↦ rw fits (
          Gives-bind (AreCounted k m0)
            (choose_segment-AreCounted k allocate n m0 m few same seg (pad_to_word sz) lt)
            λ (m', seg') h.
              Gives-bind _ (segment_bytes-Gives m' seg')
                λ d found. carve-AreCounted k m0 m' seg' _ d _ h)
    ]

-- The same of a message alone.
abbrev pub IsCounted : ℕ → Message → Message → Type 0
IsCounted k m0 m = (length m.segs ≤ k) × SameLimits m0 m

pub store-IsCounted :
    (k : ℕ) (m0 : Message) (n : ℕ) (m : Message) (seg addr v : ℕ)
    → IsCounted k m0 m
    → Gives (IsCounted k m0) (store n m seg addr v)
unfolding store
store-IsCounted k m0 n m seg addr v (few, same) =
    Gives-bind _ (segment_bytes-Gives m seg) λ d found.
      Gives-bind (λ d'. Unit {0}) (any_value (write_uint n d addr v))
        λ d' tt. gives (
          omega (arith, few, length-set m.segs seg d'),
          record { traverse = same.traverse; depth = same.depth; rest = same.rest },
        )

module _ (k : ℕ) (allocate : ℕ → List Slice → Result (ℕ × Slice)) (n : IsNumbered k allocate)
    (m0 m : Message) (c : IsCounted k m0 m) (s off src addr raw : ℕ) (src_lt : src < k)
    (s_lt : s < k) where
  padded-IsCounted :
      (r : Result (Message × ℕ × ℕ))
      → Gives (λ r. AreCounted k m0 (r.0, r.1)) r
      → Gives (λ (r : Message × ℕ). IsCounted k m0 r.0) (address_or_zero m r)
  padded-IsCounted (ok (m', seg, a)) (gives (few, lt, same)) = gives (few, same)
  padded-IsCounted (err e) h = gives c
  padded-IsCounted (panic s) h = panics

  pub place_pointer-IsCounted : Gives (IsCounted k m0) (place_pointer allocate m s off src addr raw)
  unfolding place_pointer place_near place_far place_double_far
  place_pointer-IsCounted = elim (Bool-cases (src == s)) [
    | inl here ↦ rw here (store-IsCounted k m0 8 m s off _ c)
    | inr other ↦ rw other (
        Gives-bind _ (segment_bytes-Gives m src) λ d found. elim (Bool-cases (has_capacity d 8)) [
          | inl room ↦ rw room (
              Gives-bind _
                (padded-IsCounted _ (alloc-AreCounted k allocate m0 m src 8 n (c.0, src_lt, c.1)))
                λ (m1, pad) c1.
                  Gives-bind _ (store-IsCounted k m0 8 m1 src pad _ c1)
                    λ m2 c2. store-IsCounted k m0 8 m2 s off _ c2)
          | inr full ↦ rw full (
              Gives-bind _ (Gives-wrap _ (alloc-AreCounted k allocate m0 m s 16 n (c.0, s_lt, c.1)))
                λ (m1, pad, a) c1.
                  Gives-bind _ (store-IsCounted k m0 8 m1 pad a _ (c1.0, c1.2)) λ m2 c2.
                    Gives-bind _ (store-IsCounted k m0 8 m2 pad _ raw c2)
                      λ m3 c3. store-IsCounted k m0 8 m3 s off _ c3)
        ])
  ]

grow_single-Gives :
    (pool : ℕ → List ℕ) (sz : ℕ) (d : Slice) → Gives (λ a. a.0 < 1) (grow_single pool sz d)
unfolding grow_single
grow_single-Gives pool sz d = elim (Bool-cases (d.len % word_size == 0)) [
  | inr part ↦ rw part errs
  | inl whole ↦ rw whole (elim (Bool-cases (has_capacity d sz)) [
    | inl room ↦ rw room (gives (omega arith))
    | inr full ↦
        rw full (
          Gives-bind _ (any_value (next_alloc d.len max_alloc_size sz))
            λ inc t. gives (omega arith))
  ])
]

allocate_from-Gives :
    (pool : ℕ → List ℕ) (id total sz : ℕ) (segs : List Slice)
    → Gives (λ a. a.0 < 2 ^ 32) (allocate_from pool id total sz segs)
unfolding allocate_from
allocate_from-Gives pool id total sz [] =
    Gives-bind _ (any_value (next_alloc total (2 ^ 63 - 1) sz)) λ n t. gives (omega arith)
allocate_from-Gives pool id total sz (d ∷ segs) =
    let rest = allocate_from-Gives pool (suc id) (total + cap d) sz segs in
    elim (Bool-cases (has_capacity d sz)) [
      | inl room ↦ rw room (gives (omega arith))
      | inr full ↦ rw full (elim (Bool-cases (is_negative (total + cap d))) [
        | inl over ↦ rw over errs
        | inr fine ↦ rw fine rest
      ])
    ]

-- The ids of an arena of many segments are uint32 values.
pub allocate_multi-IsNumbered : (pool : ℕ → List ℕ) → IsNumbered (2 ^ 32) (allocate_multi pool)
allocate_multi-IsNumbered pool sz segs = allocate_from-Gives pool 0 0 sz segs

-- A single-segment arena has only the id 0.
pub allocate_single-IsNumbered : (pool : ℕ → List ℕ) → IsNumbered 1 (allocate_single pool)
allocate_single-IsNumbered pool sz [] = grow_single-Gives pool sz _
allocate_single-IsNumbered pool sz (d ∷ segs) = grow_single-Gives pool sz d
