-- ===== src/Root/Setting.antt =====
-- struct.go: the pointer that SetPtr sets is the one that Ptr reads; message.go: so are SetRoot and Root.
use go_capnp.Base.{ℕ, ◌≡◌, ◌≤◌, ◌<◌, refl, some, true, false, get_elem?, arith, List, ◌^◌, ◌+◌}
use go_capnp.Base.{◌%◌, length, ◌*◌, suc, inl, leb, ap}
use go_capnp.Base.Result.{Result, ok, wrap_error, ◌>>=◌, Ensures, Ensures-bind, Ensures-and}
use go_capnp.Base.Result.{returns, Ensures-ok, Ensures-else, Ensures-weaken, Ensures-wrap}
use go_capnp.Copying.{with_dst, World, write_ptr, place_struct, write_with}
use go_capnp.Root.{alone, pointer_address, Message, Struct, Slice, of_struct, read_at, set_ptr}
use go_capnp.Root.{root, struct_ptr, set_root, set_pointer_at, primitive_elem, segment_root}
use go_capnp.Root.{region_in_bounds, pointer_at, root_list, Ptr, one_pointer}
use go_capnp.Root.Counts.{IsNumbered, SameLimits, place_pointer-IsCounted}
use go_capnp.Base.Int.{pos}
use go_capnp.StructFields.{pointer_address, read_at, struct_ptr}
use go_capnp.Message.{Message, read_limit, message_depth_limit, init_read_limit, segment}
use go_capnp.Slice.{Slice, region_in_bounds}
use go_capnp.Segment.{Struct, of_struct, Ptr}
use go_capnp.StructFields.Access.{IsLive}
use go_capnp.Segment.Resolve.{InSegment}
use go_capnp.Memory.Stores.{IsMemory, get_elem?-lt}
use go_capnp.Arena.Contract.{IsArena}
use go_capnp.Root.Reading.{IsStructWord, struct_found, read_ptr-leads}
use go_capnp.Builder.Leads.{IsPlaced, ArePlaces}
use go_capnp.Address.{is_zero, total_size, max_segment_size, add_size, element, ObjectSize}
use go_capnp.Builder.Extends.{IsBuilder, IsBuilder-IsMemory}
use go_capnp.Address.Bounds.{total_size_exact}
use go_capnp.RawPointer.RoundTrip.{read_struct_pointer}
use go_capnp.Builder.Placed.{place_pointer-IsPlaced}
use go_capnp.RawPointer.{pointer_type, struct_pointer, offset, struct_size}
use go_capnp.Builder.Pointers.{place_pointer}
use go_capnp.Lists.{primitive_elem, mismatched, same_size}
use go_capnp.Slice.ReadWrite.{region_in_bounds_exact}

-- A struct of the message that a pointer can lead to as it is: no element of a list, at a word, of whole words.
pub record IsTarget (m : Message) (st : Struct) : Type 0 where
  pub live : IsLive m st
  pub aligned : st.off % 8 ≡ 0
  pub whole : st.size.data_size % 8 ≡ 0
  pub some_bytes : 1 ≤ total_size st.size
  pub own : st.is_list_member ≡ false

-- What is known of a message and its arena when a pointer to a struct is set. The ids that an arena gives
-- are SegmentIDs, which are uint32 values.
pub record IsReady (allocate : ℕ → List Slice → Result (ℕ × Slice)) (m : Message) (st : Struct)
    : Type 0 where
  pub arena : IsArena allocate
  pub numbered : IsNumbered (2 ^ 32) allocate
  pub few : length m.segs < 2 ^ 32
  pub builder : IsBuilder m
  pub target : IsTarget m st
  pub padded : (e : Slice) → get_elem? m.segs st.seg ≡ some e → e.len + 8 ≤ max_segment_size

-- The pointer's word at `off` of segment s leads to the struct, in a message that keeps the rest.
pub record IsPointed (m : Message) (s off : ℕ) (st : Struct) (w : World) : Type 0 where
  pub raw : ℕ
  pub word : IsStructWord st.size raw
  pub placed : IsPlaced m s off st.seg st.off raw w.dst
  pub limits : SameLimits m w.dst

pub pointer_address_lem :
    (m : Message) (p : Struct) (i : ℕ)
    → IsMemory m
    → IsLive m p
    → i < p.size.pointer_count
    → pointer_address p i ≡ p.off + p.size.data_size + i * 8
unfolding pointer_address
pointer_address_lem m p i w live lt =
    let (d, found, room) = live.inside in
    let small = w.small p.seg d found in
    let total = total_size_exact p.size live.sized live.counted in
    let section : (add_size p.off p.size.data_size) ≡ (p.off + p.size.data_size, true) =
      unfold add_size in ground (arith, room, small, total) in
    rw (pointer_address, section) (unfold element in ground (arith, room, small, total, lt))

pub not_zero : (sz : ObjectSize) → 1 ≤ total_size sz → is_zero sz ≡ false
unfolding is_zero total_size
not_zero sz h = ground (arith, h)

module _ (allocate : ℕ → List Slice → Result (ℕ × Slice)) (m : Message) (st : Struct)
    (h : IsReady allocate m st) (s off : ℕ) (slot : InSegment m s off 8)
    (aligned : off % 8 ≡ 0) where
  object : InSegment m st.seg st.off 0
  object = let (d, found, room) = h.target.live.inside in (d, found, omega (arith, room))

  place_word-IsPointed :
      (raw : ℕ)
      → raw < 2 ^ 64
      → pointer_type raw ≡ struct_pointer
      → offset raw ≡ pos 0
      → struct_size raw ≡ st.size
      → Ensures
          (IsPointed m s off st)
          (place_pointer allocate m s off st.seg st.off raw >>= λ m'. ok (with_dst (alone m) m'))
  place_word-IsPointed raw small kind at_zero size =
      let places : ArePlaces m s off st.seg st.off raw = record {
        builder = h.builder;
        slot = slot;
        slot_aligned = aligned;
        object = object;
        object_aligned = h.target.aligned;
        kind = inl kind;
        small = small;
        zero_offset = at_zero;
        numbered = h.few;
      } in
      let (d, found, room) = object in
      let src_lt : st.seg < 2 ^ 32 = omega (arith, get_elem?-lt m.segs st.seg found, h.few) in
      let (d0, found0, room0) = slot in
      let s_lt : s < 2 ^ 32 = omega (arith, get_elem?-lt m.segs s found0, h.few) in
      Ensures-bind _
        (Ensures-and _ _
          (place_pointer-IsPlaced allocate m s off st.seg st.off raw d h.arena places found
            (h.padded d found))
          (place_pointer-IsCounted (2 ^ 32) allocate h.numbered m m
            (omega (arith, h.few), record { traverse = refl; depth = refl; rest = refl }) s off
            st.seg st.off raw src_lt s_lt))
        λ m' (placed, (few, limits)). returns (record {
          raw = raw;
          word = record { kind = kind; size = size };
          placed = placed;
          limits = limits;
        })

  place_struct-IsPointed : Ensures (IsPointed m s off st) (place_struct allocate (alone m) s off st)
  unfolding place_struct
  place_struct-IsPointed =
      let t = h.target in
      let (raw, e, small, kind, at_zero, size) =
        read_struct_pointer (pos 0) st.size (omega arith)
          (record { in_range = t.live.sized; aligned = t.whole; pointers = t.live.counted }) in
      Ensures-bind
        (λ r.
          (r < 2 ^ 64)
          × (pointer_type r ≡ struct_pointer)
          × (offset r ≡ pos 0)
          × (struct_size r ≡ st.size))
        (Ensures-ok _ e (small, kind, at_zero, size))
        λ r (lt, is_struct, zero_off, has_size).
          place_word-IsPointed r lt is_struct zero_off has_size

  pub write_ptr-IsPointed :
      (fuel : ℕ)
      → Ensures
          (IsPointed m s off st)
          (write_ptr allocate (suc fuel) (alone m) s off (of_struct st) false)
  unfolding write_ptr write_with
  write_ptr-IsPointed fuel =
      let some_size : is_zero st.size ≡ false = not_zero st.size h.target.some_bytes in
      rw some_size (Ensures-else _ h.target.own place_struct-IsPointed)

pub root_elem :
    (seg depth : ℕ) → primitive_elem (some (root_list seg depth)) (pos 0) one_pointer ≡ ok 0
unfolding primitive_elem mismatched same_size element total_size
root_elem seg depth = refl

-- Root reads the first word of the first segment.
pub root_lem :
    (m : Message) (d : Slice) {p : Ptr}
    → IsMemory m
    → get_elem? m.segs 0 ≡ some d
    → 8 ≤ d.len
    → (read_at m 0 0 (get_elem? m.segs 0) (message_depth_limit m)).0 ≡ ok p
    → (root m).0 ≡ ok p
unfolding root segment segment_root pointer_at wrap_error
root_lem m d w found room e =
    let bounds : region_in_bounds d 0 8 ≡ true =
      (region_in_bounds_exact d 0 8 (w.small 0 d found)).1 (omega (arith, room)) in
    let word = root_elem 0 (message_depth_limit m) in
    rw (found, bounds) (rw word (ap (wrap_error "read root") e))

-- Reading at a word that leads to the struct.
pub pointed_read :
    (m : Message) (s off : ℕ) (st : Struct) (w : World) (d : Slice) (depth : ℕ)
    → IsLive m st
    → IsPointed m s off st w
    → 1 ≤ total_size st.size
    → total_size st.size ≤ read_limit m
    → 1 ≤ depth
    → get_elem? w.dst.segs s ≡ some d
    → (read_at w.dst s off (get_elem? w.dst.segs s) depth).0
      ≡ ok (of_struct (struct_found st.size st.seg st.off depth))
pointed_read m s off st w d depth live p some_bytes allowed deep found =
    let (e, here, room) = live.inside in
    let (e', there, up) = p.placed.lengths st.seg e here in
    let same_limit : read_limit w.dst ≡ read_limit m =
      unfold read_limit init_read_limit in rw (p.limits.rest, p.limits.traverse) refl in
    let (m', read, left) =
      read_ptr-leads w.dst s off st.seg st.off p.raw depth st.size p.word p.placed.leads
        (IsBuilder-IsMemory w.dst p.placed.builder) (e', there, omega (arith, room, up)) some_bytes
        deep (omega (arith, same_limit, allowed)) d found in
    rw (found, read) refl

module _ (allocate : ℕ → List Slice → Result (ℕ × Slice)) (m : Message) (st : Struct)
    (h : IsReady allocate m st) (allowed : total_size st.size ≤ read_limit m) (fuel : ℕ) where
  -- Setting a pointer of a struct to a struct of the same message that is not a list member (that would be
  -- copied) and is not empty, both structs at words with data sections of whole words, does not panic. This
  -- takes a well-formed message of fewer than 2 ^ 32 segments, an arena that keeps its contract and gives
  -- uint32 ids, and a segment of the target with eight bytes to the format's limit. Where SetPtr returns no
  -- error, that pointer then reads as the target, its place and its size, with the depth limit one less,
  -- if the depth limit is not used up and the read limit allows the target. Every load that does not meet the
  -- pointer's word gives what it gave before.
  pub set_ptr-struct_ptr :
      (p : Struct) (i : ℕ)
      → IsLive m p
      → p.off % 8 ≡ 0
      → p.size.data_size % 8 ≡ 0
      → i < p.size.pointer_count
      → 1 ≤ p.depth_limit
      → Ensures
          (λ w.
            ((struct_ptr w.dst (some p) i).0
              ≡ ok (of_struct (struct_found st.size st.seg st.off p.depth_limit)))
            × IsPointed m p.seg (pointer_address p i) st w)
          (set_ptr allocate (suc fuel) (alone m) (some p) i (of_struct st))
  unfolding set_ptr struct_ptr
  set_ptr-struct_ptr p i live aligned whole lt deep =
      let within : leb p.size.pointer_count i ≡ false = ground (arith, lt) in
      let place = pointer_address_lem m p i (IsBuilder-IsMemory m h.builder) live lt in
      let (d, found, room) = live.inside in
      let slot : InSegment m p.seg (pointer_address p i) 8 = (
        d,
        found,
        omega (arith, room, place, lt, total_size_exact p.size live.sized live.counted),
      ) in
      rw within (
        Ensures-weaken (IsPointed m p.seg (pointer_address p i) st)
          (λ w t.
            let (d', found', up) = t.placed.lengths p.seg d found in
            (
              pointed_read m p.seg (pointer_address p i) st w d' p.depth_limit h.target.live t
                  h.target.some_bytes allowed deep found',
              t,
            ))
          (write_ptr-IsPointed allocate m st h p.seg (pointer_address p i) slot
            (omega (arith, place, aligned, whole)) fuel))

  -- SetRoot with a struct of the same message that is not a list member (that would be copied), is not empty,
  -- stands at a word and has a data section of whole words, does not panic. This takes a well-formed message
  -- of fewer than 2 ^ 32 segments with a root word, an arena that keeps its contract and gives uint32 ids,
  -- and a segment of the target with eight bytes to the format's limit. Where SetRoot returns no error,
  -- Root gives the struct back, its place and its size, with the message's depth limit less one, if the read
  -- limit allows it.
  pub set_root-root :
      InSegment m 0 0 8
      → Ensures
          (λ w.
            ((root w.dst).0
              ≡ ok (of_struct (struct_found st.size st.seg st.off (message_depth_limit m))))
            × IsPointed m 0 0 st w)
          (set_root allocate (suc fuel) (alone m) (of_struct st))
  unfolding set_root set_pointer_at segment segment_root wrap_error ◌>>=◌ root message_depth_limit
  set_root-root (d, found, room) =
      let bounds : region_in_bounds d 0 8 ≡ true =
        (region_in_bounds_exact d 0 8 (h.builder.segments.small 0 d found)).1 room in
      let word = root_elem 0 (message_depth_limit m) in
      let deep : 1 ≤ message_depth_limit m = unfold message_depth_limit in ground arith in
      rw (found, bounds)
        (rw word (
          Ensures-wrap "set root" (
            Ensures-weaken (IsPointed m 0 0 st)
              (λ w t.
                let (d', found', up) = t.placed.lengths 0 d found in
                let same : message_depth_limit w.dst ≡ message_depth_limit m =
                  unfold message_depth_limit in rw (t.limits.depth) refl in
                (
                  root_lem w.dst d' (IsBuilder-IsMemory w.dst t.placed.builder) found'
                      (omega (arith, room, up))
                      (rw same (
                        pointed_read m 0 0 st w d' (message_depth_limit m) h.target.live t
                          h.target.some_bytes allowed deep found')),
                  t,
                ))
              (write_ptr-IsPointed allocate m st h 0 0 (d, found, room) refl fuel))))
