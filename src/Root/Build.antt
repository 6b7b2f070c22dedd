-- ===== src/Root/Build.antt =====
-- message.go, struct.go and mem.go together: what is built in one buffer is what the reader finds.
use go_capnp.Base.{ℕ, ◌≡◌, ◌≤◌, ◌<◌, refl, some, true, arith, List, ◌^◌, ◌∷◌, [], ◌%◌, length}
use go_capnp.Base.{suc, ◌+◌}
use go_capnp.Base.Result.{Result, ok, wrap_error, ◌>>=◌}
use go_capnp.Address.{pad_to_word, ObjectSize, is_valid, total_size, max_segment_size}
use go_capnp.Address.{max_alloc_size}
use go_capnp.Root.Single.{alloc-one, one, one-IsBuilder}
use go_capnp.Address.Bounds.{pad_to_word_lem, total_size_exact}
use go_capnp.Slice.{Slice, IsSlice, region_in_bounds}
use go_capnp.Root.{Slice, ObjectSize, new_message, new_root_struct, new_struct, Struct, set_root}
use go_capnp.Root.{set_pointer_at, segment, segment_root, region_in_bounds}
use go_capnp.StructFields.{set_field_uint}
use go_capnp.Framing.{marshal}
use go_capnp.Builder.{cleared}
use go_capnp.Builder.Extends.{IsBuilder}
use go_capnp.Builder.Objects.{new_struct, struct_at, padded}
use go_capnp.StructFields.Access.{IsLive}
use go_capnp.Builder.Contents.{cleared-IsSlice}
use go_capnp.Segment.{Struct}
use go_capnp.Root.Setting.{IsTarget, root_elem}
use go_capnp.Builder.NewStructs.{padded_valid}
use go_capnp.Message.{segment, Message, message_depth_limit}
use go_capnp.Root.Near.{IsNearWritten, write_ptr_near}
use go_capnp.Segment.Resolve.{InSegment}
use go_capnp.Slice.ReadWrite.{region_in_bounds_exact}

is_valid_small : (sz : ObjectSize) → is_valid sz ≡ true → sz.data_size ≤ max_segment_size
unfolding is_valid
is_valid_small sz h = ground (arith, h)

module _ (allocate : ℕ → List Slice → Result (ℕ × Slice)) (fuel : ℕ) (sz : ObjectSize)
    (n off v : ℕ) where
  -- The writer's side: NewMessage over a buffer, NewRootStruct, a field of n bytes and Marshal.
  abbrev pub sent : Slice → Result (List ℕ)
  sent d = do
    m ← new_message allocate (d ∷ [])
    (m', st) ← new_root_struct allocate (suc fuel) m 0 sz
    m'' ← set_field_uint n m' (some st) off v
    marshal m''

  -- A struct of the size asked for, in whole words.
  abbrev pub total : ℕ
  total = total_size (padded sz)

  module _ (valid : is_valid sz ≡ true) (counted : sz.pointer_count < 2 ^ 16) where
    -- A root struct in a message of one segment, which has the room.
    module _ (s : Slice) (is_slice : IsSlice s) (whole : s.len % 8 ≡ 0) (word : 8 ≤ s.len)
        (small : length s.mem ≤ max_segment_size) (room : s.len + total ≤ length s.mem)
        (some_bytes : 1 ≤ total) where
      abbrev pub s' : Slice
      s' = cleared s (s.len + total)

      abbrev pub st : Struct
      st = struct_at (padded sz) 0 s.len

      pub sizes :
          (is_valid (padded sz) ≡ true)
          × (pad_to_word total ≡ total)
          × (sz.data_size ≤ (padded sz).data_size)
      sizes = padded_valid sz valid counted

      pub pad_whole : (padded sz).data_size % 8 ≡ 0
      pad_whole = (pad_to_word_lem sz.data_size (is_valid_small sz valid)).0

      limit : total ≤ max_alloc_size
      limit = unfold max_alloc_size in omega (arith, total_size_exact (padded sz) sizes.0 counted)

      new_struct_lem : new_struct allocate (one s) 0 sz ≡ ok (one s', st)
      unfolding new_struct wrap_error ◌>>=◌
      new_struct_lem =
          let (done, f) = alloc-one allocate s total is_slice whole limit sizes.1 small room in
          rw valid (rw done refl)

      pub s'-IsSlice : IsSlice s'
      s'-IsSlice = cleared-IsSlice s (s.len + total) is_slice (omega arith) room

      pub builder : IsBuilder (one s')
      builder =
          one-IsBuilder s' s'-IsSlice (omega (arith, small, room))
            (omega (arith, whole, total_size_exact (padded sz) sizes.0 counted, pad_whole))

      pub live : IsLive (one s') st
      live = record { inside = (s', refl, omega arith); sized = sizes.0; counted = counted }

      target : IsTarget (one s') st
      target = record {
        live = live;
        aligned = whole;
        whole = pad_whole;
        some_bytes = some_bytes;
        own = refl;
      }

      -- The root struct, in the message after NewRootStruct.
      pub new_root_struct_lem :
          (m : Message) × (new_root_struct allocate (suc fuel) (one s) 0 sz ≡ ok (m, st))
          × IsNearWritten (one s') 0 0 st m
      unfolding new_root_struct set_root set_pointer_at segment segment_root wrap_error ◌>>=◌
      new_root_struct_lem =
          let slot : InSegment (one s') 0 0 8 = (s', refl, omega (arith, word)) in
          let bounds : region_in_bounds s' 0 8 ≡ true =
            (region_in_bounds_exact s' 0 8 (builder.segments.small 0 s' refl)).1
              (omega (arith, word)) in
          let (m, done, written) =
            write_ptr_near allocate (one s') builder st target 0 slot refl fuel in
          let elem = root_elem 0 (message_depth_limit (one s')) in
          (m, rw new_struct_lem (rw bounds (rw elem (rw done refl))), written)
