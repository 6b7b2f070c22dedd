-- ===== src/Copying/Sections.antt =====
-- struct.go: the data section of a struct copied, and its extra pointers cleared.
use go_capnp.Slice.ReadWrite.{slice_in_range}
use mathlib.Core.Path.{subst}
use go_capnp.Memory.Stores.{IsStored, IsMemory}
use go_capnp.Builder.Leads.{store-Ensures}
use go_capnp.Copying.Keeps.{Keeps-refl, Keeps, Keeps-outer, put_bytes-Keeps, stored-Keeps}
use go_capnp.Copying.Keeps.{InSegment-Keeps}
use Prim.Native.Nat.{max}
use go_capnp.Base.{ℕ, zero, suc, ◌+◌, ◌-◌, ◌≤◌, ◌≡◌, arith, some, get_elem?, List, length, take}
use go_capnp.Base.{drop, replicate, ap, ◌∙◌, length-append, length-take, length-replicate}
use go_capnp.Base.{length-drop}
use go_capnp.Base.Result.{Result, ok, Ensures, returns, Ensures-bind, ◌>>=◌, Ensures-weaken}
use go_capnp.Copying.{put_bytes, fitted, copy_data, zero_pointers, World, Struct, total_size}
use go_capnp.Copying.{Slice, pointer_address}
use go_capnp.Builder.Extends.{IsBuilder, IsBuilder-IsMemory}
use go_capnp.Copying.Reads.{world, IsAt}
use go_capnp.Slice.{IsBytes, Slice}
use go_capnp.Message.{Message}
use go_capnp.Slice.Bytes.{append-IsBytes, take-IsBytes, zeros-IsBytes, drop-IsBytes}
use go_capnp.Segment.{Struct}
use go_capnp.StructFields.Access.{IsLive}
use go_capnp.Segment.Resolve.{InSegment}
use go_capnp.Address.{total_size}
use go_capnp.Root.Setting.{pointer_address_lem}
use go_capnp.Address.Bounds.{total_size_exact}
use go_capnp.StructFields.{pointer_address}

-- What a part of a copy leaves: a message in which only the n bytes at `off` may differ, of what was in it,
-- and a source with its segments and a limit that is not higher.
pub data After (o m : Message) (ts : List ℕ) (off n limit : ℕ) : World → Type 0 where
  after_world :
      {m' s : Message} {cs : List ℕ}
      → Keeps m off n m'
      → IsAt o limit s
      → After o m ts off n limit (world m' s cs ts)

pub After-part :
    {o m : Message} {ts : List ℕ} {off n limit : ℕ} {x : World} {Q : World → Type 0}
    (f : World → Result World)
    → ((m' s : Message) (cs : List ℕ)
        → Keeps m off n m'
        → IsAt o limit s
        → Ensures Q (f (world m' s cs ts)))
    → After o m ts off n limit x
    → Ensures Q (f x)
After-part f k (after_world {m'} {s} {cs} h a) = k m' s cs h a

-- A message to copy into: of one segment, of whole words.
pub record IsTargetOf (m : Message) : Type 0 where
  pub builder : IsBuilder m
  pub single : length m.segs ≤ 1

pub Keeps-IsTargetOf : {m m' : Message} {off n : ℕ} → Keeps m off n m' → IsTargetOf m'
Keeps-IsTargetOf h = record { builder = h.builder; single = h.single }

length-fitted : (b : List ℕ) (n : ℕ) → length (fitted b n) ≡ n
length-fitted b n = ground (
  arith,
  length-append (take n b) (replicate (n - length b) 0),
  length-take n b,
  length-replicate {A = ℕ} (n - length b) 0,
)

fitted-IsBytes : (b : List ℕ) (n : ℕ) → IsBytes b → IsBytes (fitted b n)
fitted-IsBytes b n h =
    append-IsBytes (take n b) _ (take-IsBytes n b h) (zeros-IsBytes (n - length b))

module _ (o : Message) (ts : List ℕ) (w : IsMemory o) where
  -- A part within a region, and then the rest of the region.
  pub widened-After :
      (m m' : Message) (off n off' n' limit : ℕ)
      → Keeps m off' n' m'
      → off ≤ off'
      → off' + n' ≤ off + n
      → (x : World) → After o m' ts off n limit x
      → After o m ts off n limit x
  widened-After m m' off n off' n' limit h low high x (after_world g a) =
      after_world (Keeps-outer off' n' h g low high) a

  put_section :
      (m s : Message) (cs : List ℕ) (limit : ℕ) (d : Struct) (e : Slice) (b : List ℕ)
      → IsTargetOf m
      → IsAt o limit s
      → d.seg ≡ 0
      → get_elem? m.segs 0 ≡ some e
      → length (take d.size.data_size (drop d.off e.mem)) ≡ d.size.data_size
      → d.off + d.size.data_size ≤ e.len
      → IsBytes b
      → Ensures (After o m ts d.off d.size.data_size limit) (
          ok (
            world
              (put_bytes m d.seg e d.off
                (fitted b (length (take d.size.data_size (drop d.off e.mem)))))
              s
              cs
              ts))
  put_section m s cs limit d e b t a first found len room bytes =
      rw (len, first)
        (returns (
          after_world
            (put_bytes-Keeps m e d.off (fitted b d.size.data_size) t.builder t.single found
              (omega (arith, length-fitted b d.size.data_size, room))
              (fitted-IsBytes b d.size.data_size bytes) d.size.data_size
              (omega (arith, length-fitted b d.size.data_size)))
            a))

  pub copy_data-After :
      (m s : Message) (cs : List ℕ) (limit : ℕ) (d st : Struct)
      → IsTargetOf m
      → IsAt o limit s
      → d.seg ≡ 0
      → InSegment m 0 d.off d.size.data_size
      → InSegment o st.seg st.off st.size.data_size
      → Ensures (After o m ts d.off d.size.data_size limit) (copy_data (world m s cs ts) d st)
  unfolding copy_data ◌>>=◌
  copy_data-After m s cs limit d st t a first (e, found, room) (e', found', room') =
      let here : get_elem? s.segs st.seg ≡ some e' =
        ap (λ segs. get_elem? segs st.seg) a.segs ∙ found' in
      let there : get_elem? m.segs d.seg ≡ some e = ap (get_elem? m.segs) first ∙ found in
      let small = w.small st.seg e' found' in
      let small' = t.builder.segments.small 0 e found in
      let valid = w.slices st.seg e' found' in
      let valid' = t.builder.segments.slices 0 e found in
      let from =
        slice_in_range e' st.off st.size.data_size (omega (arith, room', valid.within))
          (omega (arith, room', small)) in
      let to =
        slice_in_range e d.off d.size.data_size (omega (arith, room, valid'.within))
          (omega (arith, room, small')) in
      rw here (
        rw from (
          rw there (
            rw to (
              put_section m s cs limit d e _ t a first found
                (omega (
                  arith,
                  room,
                  length-take d.size.data_size (drop d.off e.mem),
                  length-drop d.off e.mem,
                  valid'.within,
                ))
                room (take-IsBytes st.size.data_size _ (drop-IsBytes st.off e'.mem valid.bytes))))))

  pub zero_pointers-After :
      (m s : Message) (cs : List ℕ) (limit : ℕ) (d : Struct) (left j : ℕ)
      → IsTargetOf m
      → IsAt o limit s
      → d.seg ≡ 0
      → IsLive m d
      → j + left ≤ max d.size.pointer_count j
      → Ensures
          (After o m ts d.off (total_size d.size) limit)
          (zero_pointers (world m s cs ts) d left j)
  unfolding zero_pointers
  zero_pointers-After m s cs limit d zero j t a first live fits =
      returns (after_world (Keeps-refl m d.off (total_size d.size) t.builder t.single) a)
  zero_pointers-After m s cs limit d (suc left) j t a first live fits =
      let (e, found, room) = live.inside in
      let place =
        pointer_address_lem m d j (IsBuilder-IsMemory m t.builder) live (omega (arith, fits)) in
      let total = total_size_exact d.size live.sized live.counted in
      let slot : InSegment m d.seg (pointer_address d j) 8 =
        (e, found, omega (arith, room, place, total, fits)) in
      Ensures-bind (IsStored m 8 d.seg (pointer_address d j) 0)
        (store-Ensures 8 m d.seg (pointer_address d j) 0 t.builder slot (omega arith))
        λ m' stored.
          let h =
            stored-Keeps t.builder t.single
              (subst (λ seg. IsStored m 8 seg (pointer_address d j) 0 m') first stored) in
          let live' : IsLive m' d = record {
            inside = InSegment-Keeps d.seg d.off _ h live.inside;
            sized = live.sized;
            counted = live.counted;
          } in
          Ensures-weaken (After o m' ts d.off (total_size d.size) limit)
            (widened-After m m' d.off (total_size d.size) (pointer_address d j) 8 limit h
              (omega (arith, place)) (omega (arith, place, total, fits)))
            (zero_pointers-After m' s cs limit d left (j + 1) (Keeps-IsTargetOf h) a first live'
              (omega (arith, fits)))
