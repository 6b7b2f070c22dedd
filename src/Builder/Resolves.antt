-- ===== src/Builder/Resolves.antt =====
-- What `resolveFarPointer` finds at a near, a far and a double-far pointer.
use go_capnp.Base.{ℕ, ◌+◌, ◌^◌, ◌≤◌, ◌<◌, ◌≡◌, ◌⊎◌, inl, inr, refl, sym, ap, ◌∙◌, arith, some}
use go_capnp.Base.{get_elem?, Bool-cases, ◌==◌, ==_iff, true, false, ◌%◌, ◌||◌}
use mathlib.Core.Option.{some-injective}
use go_capnp.Base.Int.{pos}
use go_capnp.Base.Result.{ok, ◌>>=◌, ◌>>◌, require, wrap_error}
use go_capnp.Address.{add_size, max_segment_size}
use go_capnp.Slice.{Slice, region_in_bounds, read_raw_pointer}
use go_capnp.Slice.ReadWrite.{region_in_bounds_exact}
use go_capnp.Message.{Message, Segment, segment}
use go_capnp.RawPointer.{pointer_type, offset, struct_pointer, list_pointer, raw_far_pointer}
use go_capnp.RawPointer.{raw_double_far_pointer, landing_pad_near_pointer, double_far_pointer}
use go_capnp.RawPointer.{far_pointer}
use go_capnp.RawPointer.RoundTrip.{read_far_pointers}
use go_capnp.Segment.{lookup_segment, resolve_far_pointer, resolve_far, resolve_near}
use go_capnp.Segment.{resolve_double_far}
use go_capnp.Memory.{load}
use go_capnp.Builder.Extends.{load_lem}

abbrev pub at : ℕ → Slice → Segment
at id d = record { id = id; bytes = d }

pub lookup_lem :
    (m : Message) (s id : ℕ) (d e : Slice)
    → get_elem? m.segs s ≡ some d
    → get_elem? m.segs id ≡ some e
    → lookup_segment m (at s d) id ≡ ok (at id e)
unfolding lookup_segment segment
lookup_lem m s id d e here there = elim (Bool-cases (s == id)) [
  | inl same ↦
      let equal : s ≡ id = (==_iff s id).0 same in
      let bytes : d ≡ e = some-injective _ _ (sym here ∙ ap (get_elem? m.segs) equal ∙ there) in
      rw same (rw equal (rw bytes refl))
  | inr other ↦ rw (other, there) refl
]

add_word : (a : ℕ) → a + 8 ≤ max_segment_size → add_size a 8 ≡ (a + 8, true)
unfolding add_size
add_word a h = ground (arith, h)

abbrev pub IsObject : ℕ → Type 0
IsObject v = (pointer_type v ≡ struct_pointer) ⊎ (pointer_type v ≡ list_pointer)

object_not_far :
    (v : ℕ)
    → IsObject v
    → ((pointer_type v == double_far_pointer) ≡ false) × ((pointer_type v == far_pointer) ≡ false)
object_not_far v (inl e) = rw e (refl, refl)
object_not_far v (inr e) = rw e (refl, refl)

object_tag :
    (v : ℕ)
    → IsObject v
    → (pointer_type v == struct_pointer || pointer_type v == list_pointer) ≡ true
object_tag v (inl e) = rw e refl
object_tag v (inr e) = rw e refl

inside_bounds :
    (e : Slice) (a n : ℕ) → e.len ≤ max_segment_size → a + n ≤ e.len → region_in_bounds e a n ≡ true
inside_bounds e a n small room = (region_in_bounds_exact e a n small).1 room

pub word_at :
    (m : Message) (s off : ℕ) (d : Slice) (v : ℕ)
    → get_elem? m.segs s ≡ some d
    → load 8 m s off ≡ ok v
    → read_raw_pointer d off ≡ ok v
unfolding read_raw_pointer
word_at m s off d v here e = sym (load_lem 8 m s off d here) ∙ e

module _ (m : Message) (s off : ℕ) (d : Slice) (here : get_elem? m.segs s ≡ some d)
    (small : d.len ≤ max_segment_size) (room : off + 8 ≤ d.len) where
  pub resolve_near_lem :
      (v : ℕ)
      → load 8 m s off ≡ ok v
      → IsObject v
      → resolve_far_pointer m (at s d) off ≡ ok (at s d, off + 8, v)
  unfolding resolve_far_pointer resolve_near ◌>>=◌ ◌>>◌ require
  resolve_near_lem v e kind =
      let (not_double, not_far) = object_not_far v kind in
      rw
        (word_at m s off d v here e, not_double, not_far, add_word off (omega (arith, room, small)))
        refl

  -- A pointer over a landing pad, at its segment.
  module _ (pad_seg pad : ℕ) (p : Slice) (there : get_elem? m.segs pad_seg ≡ some p)
      (lt : pad_seg < 2 ^ 32) (aligned : pad % 8 ≡ 0) (small' : p.len ≤ max_segment_size) where
    pub resolve_far_lem :
        (near : ℕ)
        → load 8 m s off ≡ ok (raw_far_pointer pad_seg pad)
        → pad + 8 ≤ p.len
        → load 8 m pad_seg pad ≡ ok near
        → resolve_far_pointer m (at s d) off ≡ ok (at pad_seg p, pad + 8, near)
    unfolding resolve_far_pointer resolve_far ◌>>=◌ ◌>>◌ require wrap_error
    resolve_far_lem near l room' l' =
        let ((kind, addr, seg), _, _) =
          read_far_pointers pad_seg pad 0 lt (omega (arith, room', small')) (omega arith) aligned in
        rw (word_at m s off d _ here l, kind, addr, seg, lookup_lem m s pad_seg d p here there)
          (rw (inside_bounds p pad 8 small' room', add_word pad (omega (arith, room', small')))
            (rw (word_at m pad_seg pad p near there l') refl))

    pub resolve_double_far_lem :
        (src addr raw : ℕ) (e : Slice)
        → load 8 m s off ≡ ok (raw_double_far_pointer pad_seg pad)
        → pad + 16 ≤ p.len
        → load 8 m pad_seg pad ≡ ok (raw_far_pointer src addr)
        → load 8 m pad_seg (pad + 8) ≡ ok raw
        → get_elem? m.segs src ≡ some e
        → src < 2 ^ 32
        → addr < 2 ^ 32
        → addr % 8 ≡ 0
        → IsObject raw
        → offset raw ≡ pos 0
        → resolve_far_pointer m (at s d) off
          ≡ ok (at src e, 0, landing_pad_near_pointer (raw_far_pointer src addr) raw)
    unfolding resolve_far_pointer resolve_double_far ◌>>=◌ ◌>>◌ require wrap_error
    resolve_double_far_lem src addr raw e l room' first second found src_lt addr_lt addr_aligned
          kind zero_offset =
        let (_, (double, pad_addr, seg), _) =
          read_far_pointers pad_seg pad 0 lt (omega (arith, room', small')) (omega arith) aligned in
        let ((far, _, far_seg), _, _) =
          read_far_pointers src addr 0 src_lt addr_lt (omega arith) addr_aligned in
        rw
          (word_at m s off d _ here l, double, pad_addr, seg, lookup_lem m s pad_seg d p here there)
          (rw
            (
              inside_bounds p pad 16 small' room',
              word_at m pad_seg pad p _ there first,
              far,
              add_word pad (omega (arith, room', small')),
            )
            (rw
              (
                word_at m pad_seg (pad + 8) p raw there second,
                object_tag raw kind,
                zero_offset,
                far_seg,
                lookup_lem m s src d e here found,
              )
              refl))
