-- ===== src/Builder/Extends.antt =====
-- When a segment of a message grows, or one is added, all that was there stays.
use go_capnp.Base.{ℕ, zero, suc, ◌≤◌, ◌≡◌, ◌⊎◌, inl, inr, refl, sym, ap, ◌∙◌, arith, List, []}
use go_capnp.Base.{◌∷◌, ◌++◌, length, take, some, set, get_elem?, ◌%◌, ltb, true, false}
use go_capnp.Base.{get_elem?-set_self, get_elem?-set_ne}
use go_capnp.Base.Result.{◌>>=◌}
use go_capnp.Address.{max_segment_size}
use go_capnp.Slice.{Slice, IsSlice, read_uint}
use go_capnp.Message.{Message}
use go_capnp.Segment.Resolve.{InSegment}
use go_capnp.Memory.{load}
use go_capnp.Memory.Stores.{IsMemory, get_elem?-lt, set_found, same_or_other, IsStored}
use go_capnp.Arena.Contract.{AreSegments}
use go_capnp.Builder.{set_segment}
use mathlib.Core.Option.{some-injective}
use go_capnp.Builder.Contents.{read_prefix}

-- A message to build in: its segments are of whole words.
pub record IsBuilder (m : Message) : Type 0 where
  pub segments : AreSegments m.segs
  pub whole : (id : ℕ) (d : Slice) → get_elem? m.segs id ≡ some d → d.len % 8 ≡ 0

pub IsBuilder-IsMemory : (m : Message) → IsBuilder m → IsMemory m
IsBuilder-IsMemory m w = record { slices = w.segments.slices; small = w.segments.small }

pub IsBuilder-stored :
    {m m' : Message} {n seg off v : ℕ} → IsStored m n seg off v m' → IsBuilder m → IsBuilder m'
IsBuilder-stored s w = record {
  segments = record { slices = s.memory.slices; small = s.memory.small };
  whole = λ id d' found.
      let (j, d, here, same) = s.sources id d' found in omega (arith, same, w.whole j d here);
}

-- Every segment of m is one of m', at least as long, and loads of its bytes give the same.
pub record Extends (m m' : Message) : Type 0 where
  pub lengths :
      (id : ℕ) (d : Slice)
      → get_elem? m.segs id ≡ some d
      → (d' : Slice) × (get_elem? m'.segs id ≡ some d') × (d.len ≤ d'.len)
  pub kept : (k seg off : ℕ) → InSegment m seg off k → load k m' seg off ≡ load k m seg off

pub Extends-refl : (m : Message) → Extends m m
Extends-refl m = record { lengths = λ id d e. (d, e, omega arith); kept = λ k seg off h. refl }

pub InSegment-Extends :
    {m m' : Message} (seg off k : ℕ) → Extends m m' → InSegment m seg off k → InSegment m' seg off k
InSegment-Extends seg off k x (d, found, room) =
    let (d', found', up) = x.lengths _ d found in (d', found', omega (arith, room, up))

pub Extends-trans : {m m' m'' : Message} → Extends m m' → Extends m' m'' → Extends m m''
Extends-trans x y = record {
  lengths = λ id d e.
      let (d', e', up) = x.lengths id d e in
      let (d'', e'', up') = y.lengths id d' e' in (d'', e'', omega (arith, up, up'));
  kept = λ k seg off h. y.kept k seg off (InSegment-Extends seg off k x h) ∙ x.kept k seg off h;
}

-- A slice that continues another.
abbrev pub Continues : Slice → Slice → Type 0
Continues old d = (old.len ≤ d.len) × (take old.len d.mem ≡ take old.len old.mem)

abbrev pub IsNew : List Slice → ℕ → Slice → Type 0
IsNew segs id d =
    ((old : Slice) × (get_elem? segs id ≡ some old) × Continues old d) ⊎ (id ≡ length segs)

get_elem?-append_front :
    (segs : List Slice) (d : Slice) (id : ℕ) {e : Slice}
    → get_elem? segs id ≡ some e
    → get_elem? (segs ++ (d ∷ [])) id ≡ some e
get_elem?-append_front [] d id h = absurd (cc)
get_elem?-append_front (s ∷ segs) d zero h = h
get_elem?-append_front (s ∷ segs) d (suc id) h = get_elem?-append_front segs d id h

get_elem?-append_last :
    (segs : List Slice) (d : Slice) → get_elem? (segs ++ (d ∷ [])) (length segs) ≡ some d
get_elem?-append_last [] d = refl
get_elem?-append_last (s ∷ segs) d = get_elem?-append_last segs d

-- What is there after an append is the last, or was there.
append_found :
    (segs : List Slice) (d : Slice) (id : ℕ) (e : Slice)
    → get_elem? (segs ++ (d ∷ [])) id ≡ some e
    → (e ≡ d) ⊎ (get_elem? segs id ≡ some e)
append_found [] d zero e h = inl (cc)
append_found [] d (suc id) e h = absurd (cc)
append_found (s ∷ segs) d zero e h = inr h
append_found (s ∷ segs) d (suc id) e h = append_found segs d id e h

pub load_lem :
    (k : ℕ) (m : Message) (seg off : ℕ) (d : Slice)
    → get_elem? m.segs seg ≡ some d
    → load k m seg off ≡ read_uint k d off
unfolding load ◌>>=◌
load_lem k m seg off d found = rw found refl

-- Any change of the segments in which each continues what it was.
pub continued-Extends :
    (m m' : Message)
    → IsBuilder m
    → AreSegments m'.segs
    → ((id : ℕ) (old : Slice)
        → get_elem? m.segs id ≡ some old
        → (d : Slice) × (get_elem? m'.segs id ≡ some d) × Continues old d)
    → Extends m m'
continued-Extends m m' w w' each = record {
  lengths = λ id old e. let (d, e', (up, same)) = each id old e in (d, e', up);
  kept = λ k seg off (old, found, room).
      let (d, found', (up, same)) = each seg old found in
      load_lem k m' seg off d found'
      ∙ read_prefix d old old.len off k same (omega (arith, up, (w'.slices seg d found').within))
          (w.segments.slices seg old found).within (omega (arith, w.segments.small seg old found))
          room
      ∙ sym (load_lem k m seg off old found);
}

-- The message with a segment's data replaced.
pub record IsPut (m : Message) (id : ℕ) (d : Slice) (m' : Message) : Type 0 where
  pub builder : IsBuilder m'
  pub extends : Extends m m'
  pub found : get_elem? m'.segs id ≡ some d

module _ (m : Message) (id : ℕ) (d : Slice) (w : IsBuilder m) (valid : IsSlice d)
    (small : d.len ≤ max_segment_size) (aligned : d.len % 8 ≡ 0) where
  Continues-at :
      (j : ℕ) (e : Slice)
      → get_elem? m.segs j ≡ some e
      → id ≡ j
      → (old : Slice) → get_elem? m.segs id ≡ some old
      → Continues old d
      → Continues e d
  Continues-at j e h same old here goes_on =
      let equal : old ≡ e = some-injective _ _ (sym here ∙ ap (get_elem? m.segs) same ∙ h) in
      rw (← equal) goes_on

  -- From what each segment of the new message is.
  IsPut-from :
      (segs : List Slice)
      → ((j : ℕ) (e : Slice) → get_elem? segs j ≡ some e → (e ≡ d) ⊎ (get_elem? m.segs j ≡ some e))
      → ((j : ℕ) (old : Slice)
          → get_elem? m.segs j ≡ some old
          → (e : Slice) × (get_elem? segs j ≡ some e) × Continues old e)
      → get_elem? segs id ≡ some d
      → IsPut m id d (record m { segs = segs })
  IsPut-from segs back each found =
      let built : IsBuilder (record m { segs = segs }) = record {
        segments = record {
          slices = λ j e h. elim (back j e h) [
            | inl same ↦ rw same valid
            | inr old ↦ w.segments.slices j e old
          ];
          small = λ j e h. elim (back j e h) [
            | inl same ↦ rw same small
            | inr old ↦ w.segments.small j e old
          ];
        };
        whole =
            λ j e h. elim (back j e h) [ inl same ↦ rw same aligned | inr old ↦ w.whole j e old ];
      } in
      record {
        builder = built;
        extends = continued-Extends m (record m { segs = segs }) w built.segments each;
        found = found;
      }

  pub set-IsPut :
      (old : Slice)
      → get_elem? m.segs id ≡ some old
      → Continues old d
      → IsPut m id d (record m { segs = set m.segs id d })
  set-IsPut old here goes_on =
      let lt = get_elem?-lt m.segs id here in
      IsPut-from (set m.segs id d) (λ j e h. set_found m.segs id d j e lt h)
        (λ j e h. elim (same_or_other id j) [
          | inl same ↦ (
            d,
            rw (← same) (get_elem?-set_self m.segs id d lt),
            Continues-at j e h same old here goes_on,
          )
          | inr other ↦ (e, get_elem?-set_ne m.segs d other ∙ h, (omega arith, refl))
        ])
        (get_elem?-set_self m.segs id d lt)

  pub append-IsPut : id ≡ length m.segs → IsPut m id d (record m { segs = m.segs ++ (d ∷ []) })
  append-IsPut last =
      IsPut-from (m.segs ++ (d ∷ [])) (append_found m.segs d)
        (λ j e h. (e, get_elem?-append_front m.segs d j h, (omega arith, refl)))
        (rw last (get_elem?-append_last m.segs d))

  pub set_segment-IsPut : IsNew m.segs id d → IsPut m id d (set_segment m id d)
  unfolding set_segment
  set_segment-IsPut (inl (old, here, goes_on)) =
      let inside : ltb id (length m.segs) ≡ true = ground (arith, get_elem?-lt m.segs id here) in
      rw inside (set-IsPut old here goes_on)
  set_segment-IsPut (inr last) =
      let outside : ltb id (length m.segs) ≡ false = ground (arith, last) in
      rw outside (append-IsPut last)
