-- ===== src/Builder/NewStructs.antt =====
-- struct.go: a new struct is live, apart from everything else, and all its fields are zero.
use go_capnp.Base.{ℕ, ◌+◌, ◌^◌, ◌≤◌, ◌<◌, ◌≡◌, refl, arith, true, some, List, length, Bool-cases}
use go_capnp.Base.{inl, inr, get_elem?}
use go_capnp.Base.Result.{Result, ok, Ensures, Ensures-bind, Ensures-wrap, returns, fails, ◌>>=◌}
use go_capnp.Address.{ObjectSize, is_valid, pad_to_word, total_size, max_segment_size}
use go_capnp.Address.Bounds.{pad_to_word_lem, total_size_exact}
use go_capnp.Slice.{Slice}
use go_capnp.Message.{Message}
use go_capnp.Segment.{Struct}
use go_capnp.StructFields.{field_uint}
use go_capnp.StructFields.Access.{IsLive, data_address_lem}
use go_capnp.Arena.Contract.{IsArena}
use go_capnp.Builder.Extends.{IsBuilder, Extends, IsBuilder-IsMemory}
use go_capnp.Builder.Fresh.{IsFresh, alloc-IsFresh}
use go_capnp.Builder.Objects.{new_struct, padded, struct_at}
use go_capnp.Memory.{load}

-- A padded size is of whole words, and what is allocated for it is its total.
pub padded_valid :
    (sz : ObjectSize)
    → is_valid sz ≡ true
    → sz.pointer_count < 2 ^ 16
    → (is_valid (padded sz) ≡ true)
      × (pad_to_word (total_size (padded sz)) ≡ total_size (padded sz))
      × (sz.data_size ≤ pad_to_word sz.data_size)
unfolding is_valid
padded_valid sz v c =
    let small : sz.data_size ≤ max_segment_size = ground arith in
    let pad = pad_to_word_lem sz.data_size small in
    let valid : is_valid (padded sz) ≡ true = unfold is_valid in ground (arith, pad) in
    let total = total_size_exact (padded sz) valid c in
    let whole = pad_to_word_lem (total_size (padded sz)) (omega (arith, total)) in
    (valid, omega (arith, whole, total, pad), pad.1)

-- The new struct in the message after it.
pub record IsNewStruct (m : Message) (sz : ObjectSize) (r : Message × Struct) : Type 0 where
  pub builder : IsBuilder r.0
  pub extends : Extends m r.0
  pub live : IsLive r.0 r.1
  pub size : r.1.size ≡ padded sz
  pub behind : (d : Slice) → get_elem? m.segs r.1.seg ≡ some d → d.len ≤ r.1.off
  pub zero_fields :
      (n off : ℕ) → 1 ≤ n → off + n ≤ (padded sz).data_size → field_uint n r.0 (some r.1) off ≡ ok 0

fresh_fields :
    (m : Message) (p : Struct) (n off : ℕ)
    → IsBuilder m
    → IsLive m p
    → 1 ≤ n
    → off + n ≤ p.size.data_size
    → load n m p.seg (p.off + off) ≡ ok 0
    → field_uint n m (some p) off ≡ ok 0
unfolding field_uint ◌>>=◌
fresh_fields m p n off w live some_bytes inside e =
    rw (data_address_lem m p off n (IsBuilder-IsMemory m w) live inside some_bytes) e

-- NewStruct does not panic, given a message of fewer than 2 ^ 32 segments, an arena that keeps its
-- contract and a valid size. The struct that
-- it returns has the size asked for in whole words, lies behind all that its segment held, reads zero
-- in each integer field, and every load of what was in the message gives what it gave before.
pub new_struct-IsNewStruct :
    (allocate : ℕ → List Slice → Result (ℕ × Slice)) (m : Message) (seg : ℕ) (sz : ObjectSize)
    → IsArena allocate
    → IsBuilder m
    → seg < length m.segs
    → length m.segs < 2 ^ 32
    → sz.pointer_count < 2 ^ 16
    → Ensures (IsNewStruct m sz) (new_struct allocate m seg sz)
unfolding new_struct
new_struct-IsNewStruct allocate m seg sz a w lt few c = elim (Bool-cases (is_valid sz)) [
  | inr bad ↦ rw bad fails
  | inl v ↦
      let (valid, whole, up) = padded_valid sz v c in
      let total = total_size_exact (padded sz) valid c in
      rw v (
        Ensures-bind (IsFresh m (pad_to_word (total_size (padded sz))))
          (Ensures-wrap "new struct"
            (alloc-IsFresh allocate m seg (total_size (padded sz)) a w lt few))
          λ (m', id, addr) f.
            let live : IsLive m' (struct_at (padded sz) id addr) = record {
              inside = rw whole at f.inside;
              sized = valid;
              counted = c;
            } in
            returns (record {
              builder = f.builder;
              extends = f.extends;
              live = live;
              size = refl;
              behind = f.behind;
              zero_fields = λ n off some_bytes inside.
                  fresh_fields m' (struct_at (padded sz) id addr) n off f.builder live some_bytes
                    inside
                    (f.zero_filled n (addr + off) (omega arith)
                      (omega (arith, inside, total, whole)));
            }))
]
