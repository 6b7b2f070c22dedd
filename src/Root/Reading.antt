-- ===== src/Root/Reading.antt =====
-- segment.go: a pointer that leads to a struct is read as that struct.
use go_capnp.Base.{ℕ, ◌≡◌, ◌≤◌, refl, some, true, false, get_elem?, arith, ◌+◌, ◌-◌, ◌==◌, leb}
use go_capnp.Base.{Bool-cases, inr, inl, ap, sym, ◌∙◌, ==_iff}
use go_capnp.Base.Result.{ok, wrap_error, ◌>>◌, require}
use go_capnp.Segment.{read_struct_ptr, Struct, read_ptr, read_resolved, of_struct}
use go_capnp.Segment.{resolve_far_pointer}
use go_capnp.Message.{Message, can_read, read_limit}
use go_capnp.RawPointer.{struct_size, pointer_type, struct_pointer, resolve, offset}
use go_capnp.Address.{ObjectSize, total_size}
use go_capnp.Builder.Leads.{LeadsTo}
use go_capnp.Memory.Stores.{IsMemory}
use go_capnp.Slice.{Slice, region_in_bounds}
use go_capnp.Segment.Resolve.{InSegment}
use go_capnp.Builder.Resolves.{at}
use mathlib.Core.Option.{some-injective}
use go_capnp.Slice.ReadWrite.{region_in_bounds_exact}

-- The word of a pointer to a struct of size sz, with a zero offset.
pub record IsStructWord (sz : ObjectSize) (raw : ℕ) : Type 0 where
  pub kind : pointer_type raw ≡ struct_pointer
  pub size : struct_size raw ≡ sz

struct_word_nonzero :
    (sz : ObjectSize) (val : ℕ) → struct_size val ≡ sz → 1 ≤ total_size sz → (val == 0) ≡ false
unfolding struct_size total_size
struct_word_nonzero sz val e h = elim (Bool-cases (val == 0)) [
  | inr other ↦ other
  | inl none ↦
      absurd (omega (arith, h, ap total_size (sym e ∙ ap struct_size ((==_iff val 0).0 none))))
]

abbrev pub struct_found : ObjectSize → ℕ → ℕ → ℕ → Struct
struct_found sz seg addr depth = record {
  seg = seg;
  off = addr;
  size = sz;
  depth_limit = depth - 1;
  is_list_member = false;
}

read_struct_ptr_lem :
    (seg : ℕ) (e : Slice) (sz : ObjectSize) (base val addr : ℕ)
    → resolve (offset val) base ≡ (addr, true)
    → struct_size val ≡ sz
    → region_in_bounds e addr (total_size sz) ≡ true
    → read_struct_ptr (at seg e) base val
      ≡ ok (record (struct_found sz seg addr 0) { depth_limit = 0 })
unfolding read_struct_ptr require ◌>>◌
read_struct_ptr_lem seg e sz base val addr ends size room = rw (ends, size) (rw room refl)

can_read_lem :
    (m : Message) (sz : ℕ)
    → sz ≤ read_limit m
    → (m' : Message) × (can_read m sz ≡ (true, m')) × (read_limit m' + sz ≡ read_limit m)
unfolding can_read
can_read_lem m sz h =
    let fits : leb sz (read_limit m) ≡ true = ground (arith, h) in
    (
      record m { rlimit = some (read_limit m - sz) },
      rw fits refl,
      unfold read_limit in omega (arith, h),
    )

module _ (m : Message) (s off src addr raw depth : ℕ) (sz : ObjectSize) (word : IsStructWord sz raw)
    (leads : LeadsTo m s off src addr raw) (w : IsMemory m)
    (inside : InSegment m src addr (total_size sz)) (some_bytes : 1 ≤ total_size sz)
    (deep : 1 ≤ depth) (allowed : total_size sz ≤ read_limit m) where
  -- readPtr at a pointer that leads to a struct within its segment gives that struct.
  pub read_ptr-leads :
      (d : Slice)
      → get_elem? m.segs s ≡ some d
      → (m' : Message) × (read_ptr m (at s d) off depth
          ≡ (ok (of_struct (struct_found sz src addr depth)), m'))
        × (read_limit m' + total_size sz ≡ read_limit m)
  unfolding read_ptr read_resolved wrap_error
  read_ptr-leads d found =
      let (d0, found0, e, found', base, val, resolved, ends, alike) = leads in
      let same : d0 ≡ d = some-injective _ _ (sym found0 ∙ found) in
      let (e1, found1, room) = inside in
      let there : e1 ≡ e = some-injective _ _ (sym found1 ∙ found') in
      let size = alike.size ∙ word.size in
      let kind = alike.kind ∙ word.kind in
      let bounds : region_in_bounds e addr (total_size sz) ≡ true =
        (region_in_bounds_exact e addr (total_size sz) (w.small src e found')).1
          (rw there at room) in
      let (m', granted, left) = can_read_lem m (total_size sz) allowed in
      let not_null = struct_word_nonzero sz val size some_bytes in
      let some_depth : (depth == 0) ≡ false = ground (arith, deep) in
      let resolved' : resolve_far_pointer m (at s d) off ≡ ok (at src e, base, val) =
        rw same at resolved in
      let read = read_struct_ptr_lem src e sz base val addr ends size bounds in
      (m', rw (resolved', not_null, some_depth, kind) (rw read (rw granted refl)), left)
