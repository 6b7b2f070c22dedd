-- ===== src/Root/Stream.antt =====
-- mem.go and message.go: a message of one segment, marshalled and unmarshalled, has the same root.
use go_capnp.Root.Reading.{struct_found, IsStructWord, read_ptr-leads}
use go_capnp.StructFields.Access.{IsLive, field_uint-loaded}
use go_capnp.Base.{map, ap, ℕ, ◌≡◌, ◌≤◌, ◌<◌, refl, true, get_elem?, arith, List, ◌∷◌, ◌%◌, []}
use go_capnp.Base.{◌+◌, ◌^◌, ◌∙◌, take-take, sym}
use go_capnp.Base.Result.{Result, ok, ◌>>=◌}
use go_capnp.Message.{Message, message_depth_limit, read_limit, init_read_limit}
use go_capnp.Slice.{Slice, IsSlice}
use go_capnp.Address.{ObjectSize, max_segment_size, is_valid, total_size}
use go_capnp.Framing.{unmarshal, marshal}
use go_capnp.Root.Single.{IsSingle, one, one-IsMemory, over}
use go_capnp.Framing.Header.{trimmed, length-contents, stream_header_size_lem}
use go_capnp.Root.{root, of_struct, Ptr}
use go_capnp.Root.Near.{IsNear, near-LeadsTo}
use go_capnp.StructFields.{field_uint}
use go_capnp.Slice.Bytes.{take-IsBytes}
use go_capnp.Framing.RoundTrip.{Fits, unmarshal-marshal}
use go_capnp.Memory.{load}
use go_capnp.Text.{as_struct}
use go_capnp.Builder.Extends.{load_lem}
use go_capnp.Segment.Resolve.{InSegment}
use go_capnp.Builder.Contents.{read_prefix}
use go_capnp.Memory.Stores.{IsMemory}
use go_capnp.Address.Bounds.{total_size_exact}
use go_capnp.Root.Setting.{root_lem}
use go_capnp.Segment.{Ptr}

-- The reader's side: Unmarshal, Root and the integer field at `off`.
abbrev pub received : ℕ → ℕ → List ℕ → Result ℕ
received n off stream = do
  segs ← unmarshal stream
  p ← (root (over segs)).0
  field_uint n (over segs) (as_struct p) off

received_lem :
    (n off : ℕ) (stream : List ℕ) (segs : List Slice) (p : Ptr) (v : ℕ)
    → unmarshal stream ≡ ok segs
    → (root (over segs)).0 ≡ ok p
    → field_uint n (over segs) (as_struct p) off ≡ ok v
    → received n off stream ≡ ok v
unfolding ◌>>=◌
received_lem n off stream segs p v arrived at_root found =
    rw arrived (ap (λ r. r >>= λ q. field_uint n (over segs) (as_struct q) off) at_root ∙ found)

pub trimmed-IsSlice : (s : Slice) → IsSlice s → IsSlice (trimmed s)
trimmed-IsSlice s v = record {
  within = omega (arith, length-contents s v.within);
  bytes = take-IsBytes s.len s.mem v.bytes;
}

pub load-trimmed :
    (m : Message) (s : Slice) (k a : ℕ)
    → m.segs ≡ s ∷ []
    → IsSlice s
    → s.len ≤ max_segment_size
    → a + k ≤ s.len
    → load k (one (trimmed s)) 0 a ≡ load k m 0 a
load-trimmed m s k a only v small room =
    load_lem k (one (trimmed s)) 0 a (trimmed s) refl
    ∙ read_prefix (trimmed s) s s.len a k (take-take s.len s.len s.mem (omega arith))
        (omega (arith, length-contents s v.within)) v.within (omega (arith, small)) room
    ∙ sym (load_lem k m 0 a s (ap (λ segs. get_elem? segs 0) only))

single-Fits : (s : Slice) → IsSlice s → s.len % 8 ≡ 0 → s.len ≤ max_segment_size → Fits (s ∷ [])
single-Fits s v whole small = record {
  some_segment = omega arith;
  few = omega arith;
  framed = (record { within = v.within; whole = whole; small = small }, tt);
  room = omega (arith, stream_header_size_lem 0 (omega arith), small);
}

module _ (m : Message) (len addr raw : ℕ) (sz : ObjectSize) (h : IsSingle len m)
    (small : len ≤ max_segment_size) (whole : len % 8 ≡ 0) (slot : 8 ≤ len)
    (near : IsNear m 0 0 addr raw) (word : IsStructWord sz raw) (valid : is_valid sz ≡ true)
    (counted : sz.pointer_count < 2 ^ 16) (room : addr + total_size sz ≤ len) where
  abbrev s : Slice
  s = h.slice

  abbrev m' : Message
  m' = one (trimmed s)

  memory : IsMemory m'
  memory = one-IsMemory (trimmed s) (trimmed-IsSlice s h.valid) (omega (arith, h.length_is, small))

  seen : (k a : ℕ) → a + k ≤ len → load k m' 0 a ≡ load k m 0 a
  seen k a fits =
      load-trimmed m s k a h.only h.valid (omega (arith, h.length_is, small))
        (omega (arith, h.length_is, fits))

  near' : IsNear m' 0 0 addr raw
  near' = record {
    word = near.word;
    stored = seen 8 0 slot ∙ near.stored;
    object = near.object;
    ends = near.ends;
    alike = near.alike;
  }

  inside : InSegment m' 0 addr (total_size sz)
  inside = (trimmed s, refl, omega (arith, h.length_is, room))

  root_lem' : 1 ≤ total_size sz → (root m').0 ≡ ok (of_struct (struct_found sz 0 addr 64))
  unfolding message_depth_limit read_limit init_read_limit
  root_lem' some_bytes =
      let total = total_size_exact sz valid counted in
      let (m'', read, left) =
        read_ptr-leads m' 0 0 0 addr raw 64 sz word
          (near-LeadsTo m' 0 0 addr raw memory (trimmed s, refl, omega (arith, h.length_is, slot))
            near')
          memory inside some_bytes (omega arith) (omega (arith, total)) (trimmed s) refl in
      root_lem m' (trimmed s) memory refl (omega (arith, h.length_is, slot)) (ap (λ r. r.0) read)

  -- What is loaded from the struct's data section here is the field that the reader finds.
  pub marshal-received :
      (n off v : ℕ)
      → 1 ≤ n
      → off + n ≤ sz.data_size
      → load n m 0 (addr + off) ≡ ok v
      → (stream : List ℕ) × (marshal m ≡ ok stream) × (received n off stream ≡ ok v)
  marshal-received n off v some_bytes fits there =
      let total = total_size_exact sz valid counted in
      let (stream, done, back, size) =
        unmarshal-marshal m
          (rw h.only (
            single-Fits s h.valid (omega (arith, h.length_is, whole))
              (omega (arith, h.length_is, small))))
          (rw h.only (omega arith)) in
      let back' : unmarshal stream ≡ ok (trimmed s ∷ []) =
        back ∙ ap (λ segs. ok (map trimmed segs)) h.only in
      let at_root = root_lem' (omega (arith, total, some_bytes, fits)) in
      let live : IsLive m' (struct_found sz 0 addr 64) = record {
        inside = inside;
        sized = valid;
        counted = counted;
      } in
      let found =
        field_uint-loaded n m' (struct_found sz 0 addr 64) off v memory live some_bytes fits
          (seen n (addr + off) (omega (arith, room, total, fits)) ∙ there) in
      (
        stream,
        done,
        received_lem n off stream (trimmed s ∷ []) (of_struct (struct_found sz 0 addr 64)) v back'
            at_root found,
      )
