-- ===== src/Root/Near.antt =====
-- segment.go: a pointer to a struct of the same segment, which is written without an allocation.
use go_capnp.Base.{==_iff, ℕ, ◌≡◌, refl, true, false, arith, List, ◌%◌, ◌+◌, suc, inl, ◌==◌}
use go_capnp.Base.Result.{Result, ok, ◌>>=◌, else_branch}
use go_capnp.Copying.{write_ptr, place_struct, write_with}
use go_capnp.Root.{alone, Message, Struct, Slice, of_struct}
use go_capnp.Root.Setting.{IsTarget, not_zero}
use go_capnp.Base.Int.{pos}
use go_capnp.Message.{Message}
use go_capnp.Slice.{Slice}
use go_capnp.Memory.{load}
use go_capnp.Segment.{Struct, of_struct}
use go_capnp.Memory.Stores.{IsMemory, IsStored, store_lem}
use go_capnp.Segment.Resolve.{InSegment}
use go_capnp.Root.Reading.{IsStructWord}
use go_capnp.Builder.Extends.{IsBuilder, IsBuilder-IsMemory}
use go_capnp.Builder.Resolves.{IsObject, resolve_near_lem}
use go_capnp.Builder.Leads.{LeadsTo, SameObject, near_word}
use go_capnp.RawPointer.{resolve, offset, with_offset, near_pointer_offset}
use go_capnp.Builder.Pointers.{place_pointer, place_near}
use go_capnp.RawPointer.RoundTrip.{read_struct_pointer}
use go_capnp.Address.{is_zero}

-- The word at `off` of segment s is a near pointer to what lies at `addr` of it.
pub record IsNear (m : Message) (s off addr raw : ℕ) : Type 0 where
  pub word : ℕ
  pub stored : load 8 m s off ≡ ok word
  pub object : IsObject word
  pub ends : resolve (offset word) (off + 8) ≡ (addr, true)
  pub alike : SameObject raw word

pub near-LeadsTo :
    (m : Message) (s off addr raw : ℕ)
    → IsMemory m
    → InSegment m s off 8
    → IsNear m s off addr raw
    → LeadsTo m s off s addr raw
near-LeadsTo m s off addr raw w (d, found, room) near = (
  d,
  found,
  d,
  found,
  off + 8,
  near.word,
  resolve_near_lem m s off d found (w.small s d found) room near.word near.stored near.object,
  near.ends,
  near.alike,
)

-- The message after a near pointer to a struct is written.
pub record IsNearWritten (m : Message) (s off : ℕ) (st : Struct) (m' : Message) : Type 0 where
  pub raw : ℕ
  pub struct_word : IsStructWord st.size raw
  pub near : IsNear m' s off st.off raw
  pub after : IsStored m 8 s off near.word m'

module _ (allocate : ℕ → List Slice → Result (ℕ × Slice)) (m : Message) (w : IsBuilder m)
    (st : Struct) (t : IsTarget m st) (off : ℕ) (slot : InSegment m st.seg off 8)
    (aligned : off % 8 ≡ 0) where
  pub place_struct_near :
      (m' : Message) × (place_struct allocate (alone m) st.seg off st ≡ ok (alone m'))
      × IsNearWritten m st.seg off st m'
  unfolding place_struct place_pointer place_near ◌>>=◌
  place_struct_near =
      let (raw, e, small, kind, at_zero, size) =
        read_struct_pointer (pos 0) st.size (omega arith)
          (record { in_range = t.live.sized; aligned = t.whole; pointers = t.live.counted }) in
      let (d, found, room) = slot in
      let (d', found', room') = t.live.inside in
      let (lt, object, ends, alike) =
        near_word raw (inl kind) small off st.off aligned t.aligned
          (omega (arith, room, w.segments.small st.seg d found))
          (omega (arith, room', w.segments.small st.seg d' found')) in
      let (m', done, after) = store_lem 8 m st.seg off _ (IsBuilder-IsMemory m w) slot lt in
      let here : (st.seg == st.seg) ≡ true = (==_iff st.seg st.seg).1 refl in
      (
        m',
        rw e (rw here (rw done refl)),
        record {
          raw = raw;
          struct_word = record { kind = kind; size = size };
          near = record {
            word = with_offset raw (near_pointer_offset off st.off);
            stored = after.stored;
            object = object;
            ends = ends;
            alike = alike;
          };
          after = after;
        },
      )

  pub write_ptr_near :
      (fuel : ℕ)
      → (m' : Message) × (write_ptr allocate (suc fuel) (alone m) st.seg off (of_struct st) false
          ≡ ok (alone m'))
        × IsNearWritten m st.seg off st m'
  unfolding write_ptr write_with
  write_ptr_near fuel =
      let (m', e, written) = place_struct_near in
      let some_size : is_zero st.size ≡ false = not_zero st.size t.some_bytes in
      (m', rw some_size (else_branch _ t.own e), written)
