-- ===== src/Memory/Stores.antt =====
-- A store into a checked region: it does not panic, and what other loads see.
use go_capnp.Base.{ℕ, ◌+◌, ◌^◌, ◌≤◌, ◌<◌, ◌≡◌, ◌≢◌, ◌⊎◌, inl, inr, refl, sym, ap, ◌∙◌, arith}
use go_capnp.Base.{some, length, List, [], ◌∷◌, set, get_elem?, get_elem?-set_self}
use go_capnp.Base.{get_elem?-set_ne, zero, suc, length-set}
use go_capnp.Base.Result.{ok, ◌>>=◌, Result}
use go_capnp.Slice.{Slice, IsSlice, read_uint}
use go_capnp.Slice.ReadWrite.{write_read, region_in_bounds_exact}
use go_capnp.Address.{max_segment_size}
use go_capnp.Message.{Message}
use go_capnp.Segment.Resolve.{IsMessage, InSegment}
use go_capnp.Memory.{load, store}

-- Every segment is a slice of bytes no larger than the format allows.
pub record IsMemory (m : Message) : Type 0 where
  pub slices : IsMessage m
  pub small : (id : ℕ) (d : Slice) → get_elem? m.segs id ≡ some d → d.len ≤ max_segment_size

pub get_elem?-lt :
    {A : Type 0} (xs : List A) (i : ℕ) {x : A} → get_elem? xs i ≡ some x → i < length xs
get_elem?-lt [] i e = absurd (cc)
get_elem?-lt (x ∷ xs) zero e = omega arith
get_elem?-lt (x ∷ xs) (suc i) e = omega (arith, get_elem?-lt xs i e)

-- Two regions of segments that do not meet.
abbrev pub Apart : ℕ → ℕ → ℕ → ℕ → ℕ → ℕ → Type 0
Apart seg off n seg' off' n' = (seg ≢ seg') ⊎ ((off' + n' ≤ off) ⊎ (off + n ≤ off'))

-- The message after a store, and what it reads.
pub record IsStored (m : Message) (n seg off v : ℕ) (m' : Message) : Type 0 where
  pub memory : IsMemory m'
  pub lengths :
      (id : ℕ) (d : Slice)
      → get_elem? m.segs id ≡ some d
      → (d' : Slice) × (get_elem? m'.segs id ≡ some d') × (d'.len ≡ d.len)
  pub count : length m'.segs ≡ length m.segs
  pub sources :
      (id : ℕ) (d' : Slice)
      → get_elem? m'.segs id ≡ some d'
      → (j : ℕ) × (d : Slice) × (get_elem? m.segs j ≡ some d) × (d'.len ≡ d.len)
  pub stored : load n m' seg off ≡ ok v
  pub kept :
      (k seg' off' : ℕ)
      → InSegment m seg' off' k
      → Apart seg off n seg' off' k
      → load k m' seg' off' ≡ load k m seg' off'

-- The segments once that of `seg` is replaced.
pub set_found :
    (segs : List Slice) (seg : ℕ) (t : Slice) (id : ℕ) (d : Slice)
    → seg < length segs
    → get_elem? (set segs seg t) id ≡ some d
    → (d ≡ t) ⊎ (get_elem? segs id ≡ some d)
set_found [] seg t id d h e = absurd (omega arith)
set_found (s ∷ segs) zero t zero d h e = inl (cc)
set_found (s ∷ segs) zero t (suc id) d h e = inr e
set_found (s ∷ segs) (suc seg) t zero d h e = inr e
set_found (s ∷ segs) (suc seg) t (suc id) d h e = set_found segs seg t id d (omega arith) e

pub same_or_other : (a b : ℕ) → (a ≡ b) ⊎ (a ≢ b)
same_or_other a b = ground arith

module _ (m : Message) (seg : ℕ) (d t : Slice) (found : get_elem? m.segs seg ≡ some d)
    (same_len : t.len ≡ d.len) where
  abbrev pub after : Message
  after = record m { segs = set m.segs seg t }

  found_self : get_elem? after.segs seg ≡ some t
  found_self = get_elem?-set_self m.segs seg t (get_elem?-lt m.segs seg found)

  found_same : (id : ℕ) (e : Slice) → seg ≡ id → get_elem? m.segs id ≡ some e → e ≡ d
  found_same id e same here = cc (found, ap (get_elem? m.segs) same)

  pub found_lengths :
      (id : ℕ) (e : Slice)
      → get_elem? m.segs id ≡ some e
      → (e' : Slice) × (get_elem? after.segs id ≡ some e') × (e'.len ≡ e.len)
  found_lengths id e here = elim (same_or_other seg id) [
    | inl same ↦ (
      t,
      rw (← same) found_self,
      same_len ∙ sym (ap (λ (x : Slice). x.len) (found_same id e same here)),
    )
    | inr other ↦ (e, get_elem?-set_ne m.segs t other ∙ here, refl)
  ]

  pub after-IsMemory : IsMemory m → IsSlice t → IsMemory after
  after-IsMemory w valid = record {
    slices = λ id e here. elim (set_found m.segs seg t id e (get_elem?-lt m.segs seg found) here) [
      | inl same ↦ rw same valid
      | inr old ↦ w.slices id e old
    ];
    small = λ id e here. elim (set_found m.segs seg t id e (get_elem?-lt m.segs seg found) here) [
      | inl same ↦ rw same (omega (arith, same_len, w.small seg d found))
      | inr old ↦ w.small id e old
    ];
  }

  pub after-load : (k addr : ℕ) {r : Result ℕ} → read_uint k t addr ≡ r → load k after seg addr ≡ r
  unfolding load ◌>>=◌
  after-load k addr e = rw found_self e

  pub before-load : (k addr : ℕ) → load k m seg addr ≡ read_uint k d addr
  unfolding load ◌>>=◌
  before-load k addr = rw found refl

  pub other-load : (k seg' addr : ℕ) → seg ≢ seg' → load k after seg' addr ≡ load k m seg' addr
  unfolding load
  other-load k seg' addr other = rw (get_elem?-set_ne m.segs t other) refl

pub store_lem :
    (n : ℕ) (m : Message) (seg off v : ℕ)
    → IsMemory m
    → InSegment m seg off n
    → v < 256 ^ n
    → (m' : Message) × (store n m seg off v ≡ ok m') × IsStored m n seg off v m'
unfolding store ◌>>=◌
store_lem n m seg off v w (d, found, room) lt =
    let checked = (region_in_bounds_exact d off n (w.small seg d found)).1 room in
    let (t, e, valid, same_len, self, others) =
      write_read n d off v (w.slices seg d found) checked lt in
    (
      after m seg d t found same_len,
      rw found (rw e refl),
      record {
        memory = after-IsMemory m seg d t found same_len w valid;
        lengths = found_lengths m seg d t found same_len;
        count = length-set m.segs seg t;
        sources = λ id e' here.
            elim (set_found m.segs seg t id e' (get_elem?-lt m.segs seg found) here) [
              | inl same ↦ (seg, d, found, ap (λ (x : Slice). x.len) same ∙ same_len)
              | inr old ↦ (id, e', old, refl)
            ];
        stored = after-load m seg d t found same_len n off self;
        kept = λ k seg' off' (d', found', room') apart. elim apart [
          | inl other ↦ other-load m seg d t found same_len k seg' off' other
          | inr beside ↦ elim (same_or_other seg seg') [
            | inr other ↦ other-load m seg d t found same_len k seg' off' other
            | inl same ↦
                let e' : d' ≡ d = found_same m seg d t found same_len seg' d' same found' in
                let inside : off' + k ≤ d.len = rw e' at room' in
                let seen = (region_in_bounds_exact d off' k (w.small seg d found)).1 inside in
                rw (← same) (
                  after-load m seg d t found same_len k off' (others k off' seen beside)
                  ∙ sym (before-load m seg d t found same_len k off'))
          ]
        ];
      },
    )
