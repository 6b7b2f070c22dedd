-- ===== src/Builder/Placed.antt =====
-- segment.go: a pointer that writePtr places leads to its object, however it has to be written.
use go_capnp.Base.{refl, sym, ℕ, ◌≤◌, ◌≡◌, get_elem?, ◌<◌, ◌^◌, some, ◌≢◌, ◌+◌, arith, inl, inr}
use go_capnp.Base.{true, ap, ◌∙◌, List, Bool-cases, ◌==◌, ==_iff}
use go_capnp.RawPointer.Fields.{raw_far_pointer_sum, raw_double_far_pointer_sum}
use go_capnp.Message.{Message}
use go_capnp.Builder.Fresh.{IsFresh, alloc_in_place, alloc-IsFresh}
use go_capnp.Slice.{Slice}
use go_capnp.Builder.Resolves.{resolve_near_lem, resolve_far_lem, resolve_double_far_lem}
use go_capnp.RawPointer.{with_offset, near_pointer_offset, raw_far_pointer}
use go_capnp.RawPointer.{raw_double_far_pointer}
use go_capnp.Builder.Extends.{IsBuilder, Extends, InSegment-Extends, IsBuilder-stored}
use go_capnp.Builder.Extends.{Extends-refl, IsBuilder-IsMemory}
use go_capnp.Memory.Stores.{IsStored, Apart, same_or_other, get_elem?-lt, store_lem}
use go_capnp.Segment.Resolve.{InSegment}
use go_capnp.Memory.{load, store}
use go_capnp.Base.Result.{ok, Ensures, ◌>>=◌, Ensures-ok, Result, Ensures-bind, Ensures-wrap}
use go_capnp.Base.Result.{Ensures-weaken}
use go_capnp.Address.{max_segment_size, pad_to_word, max_alloc_size, add_size_unchecked}
use go_capnp.RawPointer.Landing.{landing_pad_resolves}
use go_capnp.Builder.Pointers.{place_near, place_far, place_double_far, place_pointer}
use go_capnp.Arena.{has_capacity}
use go_capnp.Base.Bits.{and_not}
use go_capnp.Arena.Contract.{IsArena}
use go_capnp.Builder.Leads.{ArePlaces, IsPlaced, LeadsTo, InSegment-stored, near_word, src_lt}
use go_capnp.Builder.Leads.{object_small, not_far, slot_small, stored_fresh, last_store}
use go_capnp.Builder.Leads.{store-Ensures, placed}

module _ (m : Message) (s off src addr raw : ℕ) (h : ArePlaces m s off src addr raw) where
  place_near_lem : src ≡ s → Ensures (IsPlaced m s off src addr raw) (place_near m s off addr raw)
  unfolding place_near
  place_near_lem same =
      let (lt, object, ends, alike) =
        near_word raw h.kind h.small off addr h.slot_aligned h.object_aligned
          (slot_small m s off src addr raw h) (object_small m s off src addr raw h) in
      let (m', e, t) = (last_store m s off src addr raw h) m _ h.builder (Extends-refl m) lt in
      let (d, found, room) = h.slot in
      let (d', found', len) = t.lengths s d found in
      let w' = IsBuilder-stored t h.builder in
      Ensures-ok _ e (
        (placed m s off src addr raw h) m m' _ h.builder (Extends-refl m) t (
          d',
          found',
          d',
          ap (get_elem? m'.segs) same ∙ found',
          off + 8,
          _,
          rw same (
              resolve_near_lem m' s off d' found' (w'.segments.small s d' found')
                (omega (arith, len, room)) _ t.stored object),
          ends,
          alike,
        ))

  place_far_lem :
      (allocate : ℕ → List Slice → Result (ℕ × Slice)) (e : Slice)
      → src ≢ s
      → get_elem? m.segs src ≡ some e
      → has_capacity e 8 ≡ true
      → e.len + 8 ≤ max_segment_size
      → Ensures (IsPlaced m s off src addr raw) (place_far allocate m s off src addr raw)
  unfolding place_far ◌>>=◌
  place_far_lem allocate e other found room limit =
      let eight : pad_to_word 8 ≡ 8 = unfold pad_to_word and_not in refl in
      let (m1, done, f) =
        alloc_in_place allocate m src 8 e h.builder found (unfold max_alloc_size in omega arith)
          (rw eight room) (rw eight limit) in
      let inside : InSegment m1 src e.len 8 = rw eight at f.inside in
      let (lt, object, ends, alike) =
        near_word raw h.kind h.small e.len addr f.aligned h.object_aligned limit
          (object_small m s off src addr raw h) in
      let (m2, stored, t) =
        store_lem 8 m1 src e.len _ (IsBuilder-IsMemory m1 f.builder) inside lt in
      let x = stored_fresh f (omega arith) t f.extends in
      let w2 = IsBuilder-stored t f.builder in
      let far_lt : raw_far_pointer src e.len < 256 ^ 8 = omega (
        arith,
        raw_far_pointer_sum src e.len (src_lt m s off src addr raw h) (omega (arith, limit)),
        (src_lt m s off src addr raw h),
        limit,
      ) in
      let (m', last, t') = (last_store m s off src addr raw h) m2 _ w2 x far_lt in
      let w' = IsBuilder-stored t' w2 in
      let (d', found', room') = InSegment-stored s off 8 t' (InSegment-Extends s off 8 x h.slot) in
      let pad2 = InSegment-stored src e.len 8 t inside in
      let (e', efound, eroom) = InSegment-stored src e.len 8 t' pad2 in
      let near : load 8 m' src e.len ≡ ok (with_offset raw (near_pointer_offset e.len addr)) =
        t'.kept 8 src e.len pad2 (inl (λ same. other (sym same))) ∙ t.stored in
      rw done (
        rw stored (
          Ensures-ok _ last (
            (placed m s off src addr raw h) m2 m' _ w2 x t' (
              d',
              found',
              e',
              efound,
              e.len + 8,
              _,
              resolve_far_lem m' s off d' found' (w'.segments.small s d' found') room' src e.len e'
                  efound (src_lt m s off src addr raw h) f.aligned (w'.segments.small src e' efound)
                  _ t'.stored eroom near,
              ends,
              alike,
            ))))

  -- The stores into a landing pad of two words, and the pointer to it.
  module _ (m1 : Message) (pad at : ℕ) (f : IsFresh m 16 (m1, pad, at)) where
    pad_small : at + 16 ≤ max_segment_size
    pad_small =
        let (p, found, room) = f.inside in omega (arith, room, f.builder.segments.small pad p found)

    pad_lt : pad < 2 ^ 32
    pad_lt = omega (arith, f.numbered, h.numbered)

    pad_word : (a : ℕ) → a + 8 ≤ at + 16 → InSegment m1 pad a 8
    pad_word a low = let (p, found, room) = f.inside in (p, found, omega (arith, room, low))

    -- The slot is not in the landing pad.
    beside : (a : ℕ) → at ≤ a → Apart s off 8 pad a 8
    beside a up = elim (same_or_other s pad) [
      | inl same ↦
          let (d, found, room) = h.slot in
          inr (inr (omega (arith, up, room, f.behind d (ap (get_elem? m.segs) (sym same) ∙ found))))
      | inr other ↦ inl other
    ]

    double_leads :
        (m2 m3 m' : Message)
        → IsStored m1 8 pad at (raw_far_pointer src addr) m2
        → IsStored m2 8 pad (at + 8) raw m3
        → IsStored m3 8 s off (raw_double_far_pointer pad at) m'
        → Extends m m3
        → IsBuilder m'
        → LeadsTo m' s off src addr raw
    double_leads m2 m3 m' t2 t3 t' x3 w' =
        let first2 = InSegment-stored pad at 8 t2 (pad_word at (omega arith)) in
        let first3 = InSegment-stored pad at 8 t3 first2 in
        let second3 =
          InSegment-stored pad (at + 8) 8 t3
            (InSegment-stored pad (at + 8) 8 t2 (pad_word (at + 8) (omega arith))) in
        let (d, found, room) = InSegment-stored s off 8 t' (InSegment-Extends s off 8 x3 h.slot) in
        let (p, pfound, proom) = InSegment-stored pad (at + 8) 8 t' second3 in
        let (e, efound, _) =
          InSegment-stored src addr 0 t' (InSegment-Extends src addr 0 x3 h.object) in
        let first : load 8 m' pad at ≡ ok (raw_far_pointer src addr) =
          t'.kept 8 pad at first3 (beside at (omega arith))
          ∙ t3.kept 8 pad at first2 (inr (inl (omega arith)))
          ∙ t2.stored in
        let second : load 8 m' pad (at + 8) ≡ ok raw =
          t'.kept 8 pad (at + 8) second3 (beside (at + 8) (omega arith)) ∙ t3.stored in
        let apart = not_far raw h.kind h.small in
        let (ends, kind, size, list_kind, count) =
          landing_pad_resolves src addr raw (src_lt m s off src addr raw h)
            (object_small m s off src addr raw h) h.object_aligned apart.0 apart.1 in
        (
          d,
          found,
          e,
          efound,
          0,
          _,
          resolve_double_far_lem m' s off d found (w'.segments.small s d found) room pad at p pfound
              pad_lt f.aligned (w'.segments.small pad p pfound) src addr raw e t'.stored
              (omega (arith, proom)) first second efound (src_lt m s off src addr raw h)
              (omega (arith, (object_small m s off src addr raw h))) h.object_aligned h.kind
              h.zero_offset,
          ends,
          record { kind = kind; size = size; list_kind = list_kind; count = count },
        )

    pad_stores : Ensures (IsPlaced m s off src addr raw) (do
      m2 ← store 8 m1 pad at (raw_far_pointer src addr)
      m3 ← store 8 m2 pad (add_size_unchecked at 8) raw
      store 8 m3 s off (raw_double_far_pointer pad at))
    pad_stores =
        let next : add_size_unchecked at 8 ≡ at + 8 =
          unfold add_size_unchecked in omega (arith, pad_small) in
        let far_lt : raw_far_pointer src addr < 256 ^ 8 = omega (
          arith,
          raw_far_pointer_sum src addr (src_lt m s off src addr raw h)
              (omega (arith, (object_small m s off src addr raw h))),
          (src_lt m s off src addr raw h),
          (object_small m s off src addr raw h),
        ) in
        let double_lt : raw_double_far_pointer pad at < 256 ^ 8 = omega (
          arith,
          raw_double_far_pointer_sum pad at pad_lt (omega (arith, pad_small)),
          pad_lt,
          pad_small,
        ) in
        rw next (
          Ensures-bind _ (store-Ensures 8 m1 pad at _ f.builder (pad_word at (omega arith)) far_lt)
            λ m2 t2.
              let w2 = IsBuilder-stored t2 f.builder in
              let x2 = stored_fresh f (omega arith) t2 f.extends in
              let second2 = InSegment-stored pad (at + 8) 8 t2 (pad_word (at + 8) (omega arith)) in
              Ensures-bind _
                (store-Ensures 8 m2 pad (at + 8) raw w2 second2 (omega (arith, h.small)))
                λ m3 t3.
                  let w3 = IsBuilder-stored t3 w2 in
                  let x3 = stored_fresh f (omega arith) t3 x2 in
                  let slot3 = InSegment-Extends s off 8 x3 h.slot in
                  Ensures-weaken _
                    (λ m' t'.
                      (placed m s off src addr raw h) m3 m' _ w3 x3 t'
                        (double_leads m2 m3 m' t2 t3 t' x3 (IsBuilder-stored t' w3)))
                    (store-Ensures 8 m3 s off _ w3 slot3 double_lt))

  place_double_far_lem :
      (allocate : ℕ → List Slice → Result (ℕ × Slice))
      → IsArena allocate
      → Ensures (IsPlaced m s off src addr raw) (place_double_far allocate m s off src addr raw)
  unfolding place_double_far
  place_double_far_lem allocate a =
      let sixteen : pad_to_word 16 ≡ 16 = unfold pad_to_word and_not in refl in
      let (sd, sfound, sroom) = h.slot in
      Ensures-bind (IsFresh m 16)
        (Ensures-wrap "write pointer: make landing pad" (
          rw sixteen at
            (alloc-IsFresh allocate m s 16 a h.builder (get_elem?-lt m.segs s sfound) h.numbered)))
        λ (m1, pad, pad_addr) f. pad_stores m1 pad pad_addr f

-- Placing a pointer to a struct or a list of the same message, of fewer than 2 ^ 32 segments, does not
-- panic, given an arena that keeps its contract, words for the pointer and the object, and a segment of the object with eight
-- bytes to the format's limit. Following the pointer then ends at the object's address and segment,
-- with the kind, size and length of its pointer word, whether it is near, far or double-far; the
-- segments stay well formed, and every load that does not meet the pointer's word gives what it gave.
pub place_pointer-IsPlaced :
    (allocate : ℕ → List Slice → Result (ℕ × Slice)) (m : Message) (s off src addr raw : ℕ)
    (e : Slice)
    → IsArena allocate
    → ArePlaces m s off src addr raw
    → get_elem? m.segs src ≡ some e
    → e.len + 8 ≤ max_segment_size
    → Ensures (IsPlaced m s off src addr raw) (place_pointer allocate m s off src addr raw)
unfolding place_pointer ◌>>=◌
place_pointer-IsPlaced allocate m s off src addr raw e a h found limit =
    elim (Bool-cases (src == s)) [
      | inl same ↦ rw same (place_near_lem m s off src addr raw h ((==_iff src s).0 same))
      | inr differ ↦
          let other : src ≢ s = ground arith in
          rw differ (
            rw found (elim (Bool-cases (has_capacity e 8)) [
              | inl room ↦
                  rw room (place_far_lem m s off src addr raw h allocate e other found room limit)
              | inr full ↦ rw full (place_double_far_lem m s off src addr raw h allocate a)
            ]))
    ]
