-- ===== src/Builder/Leads.antt =====
-- segment.go: where a pointer leads, and what its stores leave as it was.
use go_capnp.Base.{ℕ, ◌≤◌, ◌≡◌, get_elem?, ◌<◌, ◌^◌, some, ◌%◌, ◌≢◌, ◌+◌, arith, inl, inr, true}
use go_capnp.Base.{ap, ◌∙◌, length}
use go_capnp.RawPointer.Fields.{with_offset_sum}
use go_capnp.Message.{Message}
use go_capnp.Builder.Fresh.{IsFresh}
use go_capnp.Slice.{Slice}
use go_capnp.Builder.Resolves.{IsObject, at}
use go_capnp.RawPointer.{pointer_type, struct_size, list_type, num_list_elements, far_pointer}
use go_capnp.RawPointer.{double_far_pointer, with_offset, resolve, near_pointer_offset, offset}
use go_capnp.Builder.Extends.{IsBuilder, Extends, InSegment-Extends, IsBuilder-stored}
use go_capnp.Builder.Extends.{IsBuilder-IsMemory}
use go_capnp.Memory.Stores.{IsStored, Apart, same_or_other, get_elem?-lt, store_lem}
use go_capnp.Segment.Resolve.{InSegment}
use go_capnp.Segment.{resolve_far_pointer}
use go_capnp.Memory.{load, store}
use go_capnp.Base.Result.{ok, Ensures, Ensures-ok}
use go_capnp.Address.{max_segment_size}
use go_capnp.RawPointer.Landing.{near_pointer_resolves}
use go_capnp.RawPointer.RoundTrip.{with_offset_lem}
use go_capnp.Base.Int.{pos}

-- The kind, the size and the length that a pointer word carries.
pub record SameObject (raw val : ℕ) : Type 0 where
  pub kind : pointer_type val ≡ pointer_type raw
  pub size : struct_size val ≡ struct_size raw
  pub list_kind : list_type val ≡ list_type raw
  pub count : num_list_elements val ≡ num_list_elements raw

-- Following the pointer at `off` of segment s ends at the object at `addr` of segment src.
abbrev pub LeadsTo : Message → ℕ → ℕ → ℕ → ℕ → ℕ → Type 0
LeadsTo m s off src addr raw =
    (d : Slice) × (get_elem? m.segs s ≡ some d)
    × (e : Slice) × (get_elem? m.segs src ≡ some e)
    × (base : ℕ) × (val : ℕ) × (resolve_far_pointer m (at s d) off ≡ ok (at src e, base, val))
    × (resolve (offset val) base ≡ (addr, true))
    × SameObject raw val

pub record IsPlaced (m : Message) (s off src addr raw : ℕ) (m' : Message) : Type 0 where
  pub builder : IsBuilder m'
  pub lengths :
      (id : ℕ) (d : Slice)
      → get_elem? m.segs id ≡ some d
      → (d' : Slice) × (get_elem? m'.segs id ≡ some d') × (d.len ≤ d'.len)
  pub kept :
      (k seg a : ℕ) → InSegment m seg a k → Apart s off 8 seg a k → load k m' seg a ≡ load k m seg a
  pub leads : LeadsTo m' s off src addr raw

-- A store into what is behind everything else changes nothing else.
pub stored_fresh :
    {m fresh m1 m2 : Message} {sz seg addr n a v : ℕ}
    → IsFresh m sz (fresh, seg, addr)
    → addr ≤ a
    → IsStored m1 n seg a v m2
    → Extends m m1
    → Extends m m2
stored_fresh {seg = seg} f up s x = record {
  lengths = λ id d found.
      let (d', found', le) = x.lengths id d found in
      let (d'', found'', same) = s.lengths id d' found' in (d'', found'', omega (arith, le, same));
  kept = λ k id off (d, found, room).
      s.kept k id off (InSegment-Extends id off k x (d, found, room)) (elim (same_or_other seg id) [
        | inl same ↦ inr (inl (omega (arith, up, room, f.behind d (ap (get_elem? _) same ∙ found))))
        | inr other ↦ inl other
      ])
      ∙ x.kept k id off (d, found, room);
}

pub InSegment-stored :
    {m m' : Message} {n seg off v : ℕ} (id a k : ℕ)
    → IsStored m n seg off v m'
    → InSegment m id a k
    → InSegment m' id a k
InSegment-stored id a k t (d, found, room) =
    let (d', found', same) = t.lengths id d found in (d', found', omega (arith, room, same))

pub store-Ensures :
    (n : ℕ) (m : Message) (seg off v : ℕ)
    → IsBuilder m
    → InSegment m seg off n
    → v < 256 ^ n
    → Ensures (IsStored m n seg off v) (store n m seg off v)
store-Ensures n m seg off v w region lt =
    let (m', e, t) = store_lem n m seg off v (IsBuilder-IsMemory m w) region lt in
    Ensures-ok (IsStored m n seg off v) e t

module _ (raw : ℕ) (kind : IsObject raw) (raw_lt : raw < 2 ^ 64) where
  pub not_far : (pointer_type raw ≢ far_pointer) × (pointer_type raw ≢ double_far_pointer)
  not_far = ground (arith, kind)

  -- The near pointer from a word to the object.
  pub near_word :
      (paddr addr : ℕ)
      → paddr % 8 ≡ 0
      → addr % 8 ≡ 0
      → paddr + 8 ≤ max_segment_size
      → addr ≤ max_segment_size
      → let val = with_offset raw (near_pointer_offset paddr addr) in
        (val < 256 ^ 8)
        × IsObject val
        × (resolve (offset val) (paddr + 8) ≡ (addr, true))
        × SameObject raw val
  near_word paddr addr hp ha fits_p fits_a =
      let (is_offset, ends) = near_pointer_resolves paddr addr hp ha fits_p fits_a in
      let off = near_pointer_offset paddr addr in
      let (o, k, size, list_kind, count) = with_offset_lem raw off is_offset not_far.0 not_far.1 in
      (
        omega (arith, with_offset_sum raw off, raw_lt),
        rw k kind,
        rw o ends,
        record { kind = k; size = size; list_kind = list_kind; count = count },
      )

-- The pointer's word, and the object, in a message that is built.
pub record ArePlaces (m : Message) (s off src addr raw : ℕ) : Type 0 where
  pub builder : IsBuilder m
  pub slot : InSegment m s off 8
  pub slot_aligned : off % 8 ≡ 0
  pub object : InSegment m src addr 0
  pub object_aligned : addr % 8 ≡ 0
  pub kind : IsObject raw
  pub small : raw < 2 ^ 64
  pub zero_offset : offset raw ≡ pos 0
  pub numbered : length m.segs < 2 ^ 32

module _ (m : Message) (s off src addr raw : ℕ) (h : ArePlaces m s off src addr raw) where
  pub slot_small : off + 8 ≤ max_segment_size
  slot_small =
      let (d, found, room) = h.slot in omega (arith, room, h.builder.segments.small s d found)

  pub object_small : addr ≤ max_segment_size
  object_small =
      let (e, found, room) = h.object in omega (arith, room, h.builder.segments.small src e found)

  pub src_lt : src < 2 ^ 32
  src_lt =
      let (e, found, room) = h.object in omega (arith, get_elem?-lt m.segs src found, h.numbered)

  -- The last store, of the pointer's word, in a message that extends the first.
  pub last_store :
      (m1 : Message) (v : ℕ)
      → IsBuilder m1
      → Extends m m1
      → v < 256 ^ 8
      → (m' : Message) × (store 8 m1 s off v ≡ ok m') × IsStored m1 8 s off v m'
  last_store m1 v w x lt =
      store_lem 8 m1 s off v (IsBuilder-IsMemory m1 w) (InSegment-Extends s off 8 x h.slot) lt

  pub placed :
      (m1 m' : Message) (v : ℕ)
      → IsBuilder m1
      → Extends m m1
      → IsStored m1 8 s off v m'
      → LeadsTo m' s off src addr raw
      → IsPlaced m s off src addr raw m'
  placed m1 m' v w x t leads = record {
    builder = IsBuilder-stored t w;
    lengths = λ id d found.
        let (d', found', up) = x.lengths id d found in
        let (d'', found'', same) = t.lengths id d' found' in
        (d'', found'', omega (arith, up, same));
    kept = λ k seg a region apart.
        t.kept k seg a (InSegment-Extends seg a k x region) apart ∙ x.kept k seg a region;
    leads = leads;
  }
