-- ===== src/Root/Delivery.antt =====
-- message.go, struct.go and mem.go together, from NewMessage to the reader's field.
use go_capnp.Base.{ℕ, ◌≡◌, ◌≤◌, ◌<◌, refl, some, true, get_elem?, arith, ap, inr, inl, ◌^◌, ◌+◌}
use go_capnp.Base.{List, ◌%◌, length, ◌∙◌}
use go_capnp.Base.Result.{Result, ok, ◌>>=◌}
use go_capnp.Root.Build.{sent, new_root_struct_lem}
use go_capnp.Root.Stream.{received, marshal-received}
use go_capnp.Builder.Objects.{padded, struct_at}
use go_capnp.Root.Near.{IsNear, IsNearWritten}
use go_capnp.Builder.{cleared}
use go_capnp.Builder.Contents.{cleared-IsSlice, length-cleared}
use go_capnp.Address.{ObjectSize, is_valid, total_size, max_segment_size}
use go_capnp.Message.{Message}
use go_capnp.Slice.{Slice, IsSlice, IsBytes}
use go_capnp.Root.Single.{IsSingle, new_message_lem, stored-IsSingle, one, one-IsSingle}
use go_capnp.Builder.NewStructs.{padded_valid}
use go_capnp.Address.Bounds.{total_size_exact, pad_to_word_lem}
use go_capnp.Segment.Resolve.{InSegment}
use go_capnp.Segment.{Struct}
use go_capnp.Memory.Stores.{IsStored}
use go_capnp.StructFields.{set_field_uint}
use go_capnp.StructFields.Access.{IsLive, set_field_uint-field_uint}
use go_capnp.Builder.Leads.{InSegment-stored}
use go_capnp.Framing.{marshal}

module _ (sz : ObjectSize) (n off v : ℕ) (valid : is_valid sz ≡ true)
    (counted : sz.pointer_count < 2 ^ 16) (some_bytes : 1 ≤ n) (fits : off + n ≤ sz.data_size)
    (lt : v < 256 ^ n) where
  padded_sizes :
      (is_valid (padded sz) ≡ true)
      × (off + n ≤ (padded sz).data_size)
      × (off + n ≤ total_size (padded sz))
      × (total_size (padded sz) % 8 ≡ 0)
  padded_sizes =
      let (ok_size, whole, up) = padded_valid sz valid counted in
      let exact = total_size_exact (padded sz) ok_size counted in
      (
        ok_size,
        omega (arith, up, fits),
        omega (arith, up, fits, exact),
        omega (arith, whole, pad_to_word_lem (total_size (padded sz)) (omega (arith, exact))),
      )

  -- A field set in a root struct at the second word of a message of one segment: the rest of the writer, and
  -- the reader.
  module _ (m0 m : Message) (len : ℕ) (single : IsSingle len m0) (whole : len % 8 ≡ 0)
      (small : len ≤ max_segment_size) (room : 8 + total_size (padded sz) ≤ len)
      (written : IsNearWritten m0 0 0 (struct_at (padded sz) 0 8) m) where
    abbrev st : Struct
    st = struct_at (padded sz) 0 8

    abbrev t : IsStored m0 8 0 0 written.near.word m
    t = written.after

    first : InSegment m0 0 8 (total_size (padded sz))
    first = (
      single.slice,
      ap (λ segs. get_elem? segs 0) single.only,
      omega (arith, single.length_is, room),
    )

    live : IsLive m st
    live = record {
      inside = InSegment-stored 0 8 _ t first;
      sized = padded_sizes.0;
      counted = counted;
    }

    pub field-received :
        (m' : Message) × (set_field_uint n m (some st) off v ≡ ok m')
        × (stream : List ℕ) × (marshal m' ≡ ok stream)
        × (received n off stream ≡ ok v)
    field-received =
        let (m', done, _, s) =
          set_field_uint-field_uint n m st off v t.memory live some_bytes padded_sizes.1 lt in
        let near = written.near in
        let slot : InSegment m 0 0 8 =
          let (d, found, inside) = InSegment-stored 0 8 _ t first in
          (d, found, omega (arith, inside)) in
        let near' : IsNear m' 0 0 8 written.raw = record {
          word = near.word;
          stored = s.kept 8 0 0 slot (inr (inl (omega arith))) ∙ near.stored;
          object = near.object;
          ends = near.ends;
          alike = near.alike;
        } in
        let single' =
          stored-IsSingle len m n 0 (8 + off) v m'
            (stored-IsSingle len m0 8 0 0 near.word m single t) s in
        let (stream, sent', found) =
          marshal-received m' len 8 written.raw (padded sz) single' small whole
            (omega (arith, room)) near' written.struct_word padded_sizes.0 counted room n off v
            some_bytes padded_sizes.1 s.stored in
        (m', done, stream, sent', found)

  -- NewMessage over one empty buffer, NewRootStruct of a valid size, setting an integer field of n bytes
  -- inside it and Marshal succeed, if the buffer has room for the root's word and the struct; and what
  -- Unmarshal makes of the stream has a root in which that field holds the value.
  pub sent-received :
      (allocate : ℕ → List Slice → Result (ℕ × Slice)) (fuel : ℕ) (mem : List ℕ)
      → IsBytes mem
      → 8 + total_size (padded sz) ≤ length mem
      → length mem ≤ max_segment_size
      → (stream : List ℕ) × (sent allocate fuel sz n off v (record { mem = mem; len = 0 })
          ≡ ok stream)
        × (received n off stream ≡ ok v)
  unfolding ◌>>=◌
  sent-received allocate fuel mem bytes room small =
      let d : Slice = record { mem = mem; len = 0 } in
      let is_slice : IsSlice d = record { within = omega arith; bytes = bytes } in
      let enough : 8 ≤ length mem = omega (arith, room) in
      let s : Slice = cleared d 8 in
      let s-IsSlice : IsSlice s = cleared-IsSlice d 8 is_slice (omega arith) enough in
      let same : length s.mem ≡ length mem = length-cleared d 8 is_slice (omega arith) enough in
      let T : ℕ = total_size (padded sz) in
      let s'-valid : IsSlice (cleared s (8 + T)) =
        cleared-IsSlice s (8 + T) s-IsSlice (omega arith) (omega (arith, same, room)) in
      let (m, rooted, written) =
        new_root_struct_lem allocate fuel sz n off v valid counted s s-IsSlice refl (omega arith)
          (omega (arith, same, small)) (omega (arith, same, room))
          (omega (arith, padded_sizes, some_bytes)) in
      let (m', done, stream, sent', found) =
        field-received (one (cleared s (8 + T))) m (8 + T)
          (one-IsSingle (cleared s (8 + T)) s'-valid) (omega (arith, padded_sizes))
          (omega (arith, room, small)) (omega arith) written in
      (
        stream,
        rw (new_message_lem allocate d is_slice refl enough small) (rw rooted (rw done sent')),
        found,
      )
