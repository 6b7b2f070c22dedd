-- ===== src/Segment/Safe.antt =====
-- Reading a pointer is memory safe on every message, however hostile its bytes are.
use go_capnp.Base.{ℕ, ◌+◌, ◌*◌, ◌/◌, ◌^◌, ◌<◌, ◌≡◌, ◌≢◌, refl, sym, ap, ◌∙◌, ==_iff, zero, suc}
use go_capnp.Base.{arith, Bool, true, false, ◌==◌, if◌then◌else◌, inl, inr, Bool-cases}
use go_capnp.Base.Int.{pos_part, neg_part}
use go_capnp.Base.Result.{Result, ok, err, panic, Ensures, Ensures-bind, Ensures-require}
use go_capnp.Base.Result.{Ensures-wrap, Ensures-ok, returns, fails}
use go_capnp.Address.{total_size, ObjectSize}
use go_capnp.Address.Bounds.{times_exact}
use go_capnp.Slice.{Slice, region_in_bounds}
use go_capnp.Slice.ReadWrite.{region_in_bounds_sound}
use go_capnp.Message.{Message, Segment, can_read}
use go_capnp.RawPointer.{total_list_size, num_list_elements, element_size, offset, struct_size}
use go_capnp.RawPointer.{list_type, pointer_type, element_size_of, composite_list, bit1_list}
use go_capnp.RawPointer.{struct_pointer, list_pointer, other_pointer, other_pointer_type}
use go_capnp.RawPointer.Fields.{list_type_lem}
use go_capnp.RawPointer.Sizes.{total_list_size_lem, num_list_elements_lem, list_bytes}
use go_capnp.Segment.{Struct, ListRef, Ptr, null, of_struct, of_list, of_interface}
use go_capnp.Segment.{list_read_size, charge_struct, charge_list, charged, read_struct_ptr}
use go_capnp.Segment.{read_composite_list, read_list_ptr, read_resolved, read_ptr}
use go_capnp.Segment.Resolve.{IsMessage, IsLoaded, InSegment, IsResolved, read_raw_pointer-lt}
use go_capnp.Segment.Resolve.{resolve_far_pointer-IsResolved}

-- A struct's sections lie within its segment.
abbrev pub IsStructOf : Message → Struct → Type 0
IsStructOf m st = InSegment m st.seg st.off (total_size st.size)

-- The bytes of a list's elements.
abbrev pub list_extent : ListRef → ℕ
list_extent l =
    if l.is_bit_list then (pos_part l.length + 7) / 8 else pos_part l.length * total_size l.size

-- A list's elements lie within its segment, and their number is below 2 ^ 29. It is not negative
-- but where the elements have no size.
pub record IsListOf (m : Message) (l : ListRef) : Type 0 where
  pub inside : InSegment m l.seg l.off (list_extent l)
  pub short : pos_part l.length < 2 ^ 29
  pub counted : neg_part l.length * total_size l.size ≡ 0

in_segment :
    (m : Message) (s : Segment) (addr sz : ℕ)
    → IsLoaded m s
    → region_in_bounds s.bytes addr sz ≡ true
    → InSegment m s.id addr sz
in_segment m s addr sz l room = (s.bytes, l.found, (region_in_bounds_sound s.bytes addr sz room).0)

read_struct_ptr-IsStructOf :
    (m : Message) (s : Segment) (base val : ℕ)
    → IsLoaded m s
    → Ensures (IsStructOf m) (read_struct_ptr s base val)
unfolding read_struct_ptr
read_struct_ptr-IsStructOf m s base val l =
    Ensures-require _ _ λ fits. Ensures-require _ _ λ room. returns (in_segment m s _ _ l room)

offset-lt : (p : ℕ) → pos_part (offset p) < 2 ^ 29
unfolding offset
offset-lt p = ground arith

tag_in_bounds :
    (s : Slice) (addr n : ℕ)
    → region_in_bounds s addr ((n + 1) * 8) ≡ true
    → region_in_bounds s addr 8 ≡ true
unfolding region_in_bounds
tag_in_bounds s addr n h = ground arith

read_composite_list-IsListOf :
    (m : Message) (s : Segment) (addr : ℕ)
    → IsLoaded m s
    → region_in_bounds s.bytes addr 8 ≡ true
    → Ensures (IsListOf m) (read_composite_list s addr)
unfolding read_composite_list
read_composite_list-IsListOf m s addr l tag =
    Ensures-bind (λ v. v < 2 ^ 64) (read_raw_pointer-lt m s addr l tag)
      λ hdr lt. Ensures-require _ _ λ fits. Ensures-require _ _ λ is_tag.
        Ensures-require _ _ λ sized. Ensures-require _ _ λ room. returns (record {
          inside = (
            s.bytes,
            l.found,
            omega (
              arith,
              region_in_bounds_sound s.bytes _ _ room,
              (times_exact (total_size (struct_size hdr)) (offset hdr)).1 sized,
            ),
          );
          short = offset-lt hdr;
          counted =
              omega (arith, (times_exact (total_size (struct_size hdr)) (offset hdr)).0.0 sized);
        })

-- The size and the length of a list that is not composite, from its list type.
plain_size :
    (t n : ℕ)
    → t < 8
    → t ≢ composite_list
    → t ≢ bit1_list
    → Ensures (λ size. n * total_size size ≡ list_bytes t n) (element_size_of t)
unfolding total_size
plain_size zero n h c b = returns (omega arith)
plain_size (suc zero) n h c b = absurd (b refl)
plain_size (suc (suc zero)) n h c b = returns (omega arith)
plain_size (suc (suc (suc zero))) n h c b = returns (omega arith)
plain_size (suc (suc (suc (suc zero)))) n h c b = returns (omega arith)
plain_size (suc (suc (suc (suc (suc zero))))) n h c b = returns (omega arith)
plain_size (suc (suc (suc (suc (suc (suc zero)))))) n h c b = returns (omega arith)
plain_size (suc (suc (suc (suc (suc (suc (suc zero))))))) n h c b = absurd (c refl)
plain_size (suc (suc (suc (suc (suc (suc (suc (suc t)))))))) n h c b = absurd (omega arith)

composite_tag :
    (s : Slice) (addr val n : ℕ)
    → (list_type val == composite_list) ≡ true
    → n ≡ list_bytes (list_type val) (val / 2 ^ 35)
    → region_in_bounds s addr n ≡ true
    → region_in_bounds s addr 8 ≡ true
composite_tag s addr val n comp e room =
    tag_in_bounds s addr (val / 2 ^ 35)
      (rw (e ∙ ap (λ t. list_bytes t (val / 2 ^ 35)) ((==_iff _ _).0 comp)) at room)

element_size-plain :
    (val : ℕ)
    → (list_type val == composite_list) ≡ false
    → (list_type val == bit1_list) ≡ false
    → Ensures
        (λ size. val / 2 ^ 35 * total_size size ≡ list_bytes (list_type val) (val / 2 ^ 35))
        (element_size val)
unfolding element_size
element_size-plain val c b =
    plain_size (list_type val) (val / 2 ^ 35) (omega (arith, list_type_lem val)) (ground arith)
      (ground arith)

list_size :
    (p : ℕ)
    → p < 2 ^ 64
    → Ensures (λ r. r.1 ≡ true → r.0 ≡ list_bytes (list_type p) (p / 2 ^ 35)) (total_list_size p)
list_size p lt = rw (list_type_lem p) (elim (total_list_size_lem p lt) [
  | inl (e, _, _) ↦ Ensures-ok _ e (λ _. refl)
  | inr (e, _, _) ↦ Ensures-ok _ e (λ h. absurd (cc))
])

bit_bytes : (t n : ℕ) → (t == bit1_list) ≡ true → list_bytes t n ≡ (n + 7) / 8
bit_bytes t n h = ground arith

plain_list :
    (m : Message) (s : Segment) (addr n val : ℕ) (size : ObjectSize) (bits : Bool)
    → IsLoaded m s
    → val < 2 ^ 64
    → region_in_bounds s.bytes addr n ≡ true
    → n ≡ (if bits then (val / 2 ^ 35 + 7) / 8 else val / 2 ^ 35 * total_size size)
    → IsListOf m (record {
      seg = s.id;
      off = addr;
      length = num_list_elements val;
      size = size;
      depth_limit = 0;
      is_composite = false;
      is_bit_list = bits;
    })
plain_list m s addr n val size bits l lt room e = rw (num_list_elements_lem val lt) (record {
  inside = rw e at (in_segment m s addr n l room);
  short = omega arith;
  counted = omega arith;
})

read_list_ptr-IsListOf :
    (m : Message) (s : Segment) (base val : ℕ)
    → IsLoaded m s
    → val < 2 ^ 64
    → Ensures (IsListOf m) (read_list_ptr s base val)
unfolding read_list_ptr
read_list_ptr-IsListOf m s base val l lt = Ensures-require _ _ λ fits.
    Ensures-bind (λ r. r.1 ≡ true → r.0 ≡ list_bytes (list_type val) (val / 2 ^ 35))
      (list_size val lt)
      λ lsize size_is. Ensures-require _ _ λ sized. Ensures-require _ _ λ room.
        elim (Bool-cases (list_type val == composite_list)) [
          | inl comp ↦ rw comp (
              read_composite_list-IsListOf m s _ l
                (composite_tag s.bytes _ val lsize.0 comp (size_is sized) room))
          | inr plain ↦ rw plain (elim (Bool-cases (list_type val == bit1_list)) [
            | inl bits ↦ rw bits (
                returns (
                  plain_list m s _ lsize.0 val _ true l lt room
                    (size_is sized ∙ bit_bytes (list_type val) _ bits)))
            | inr sized' ↦ rw sized' (
                Ensures-bind _ (element_size-plain val plain sized') λ size e.
                  returns
                    (plain_list m s _ lsize.0 val size false l lt room (size_is sized ∙ sym e)))
          ])
        ]

-- What `readPtr` may hand out: null, an object within its segment with one level of depth less, or
-- a capability.
abbrev pub IsSafe : Message → ℕ → Ptr → Type 0
IsSafe m depth null = Unit
IsSafe m depth (of_struct st) = IsStructOf m st × (st.depth_limit < depth)
IsSafe m depth (of_list l) = IsListOf m l × (l.depth_limit < depth)
IsSafe m depth (of_interface seg c) = Unit

either :
    {Q : Ptr → Type 0} (test : Bool) (x y : Result Ptr × Message)
    → (test ≡ true → Ensures Q x.0)
    → (test ≡ false → Ensures Q y.0)
    → Ensures Q (if test then x else y).0
either true x y h k = h refl
either false x y h k = k refl

charged-IsSafe :
    (m : Message) (depth : ℕ) (allowed : Bool × Message) (p : Ptr)
    → IsSafe m depth p
    → Ensures (IsSafe m depth) (charged allowed p).0
charged-IsSafe m depth (true, m') p h = returns h
charged-IsSafe m depth (false, m') p h = fails

charge_struct-IsSafe :
    (m : Message) (depth : ℕ) (r : Result Struct)
    → 0 < depth
    → Ensures (IsStructOf m) r
    → Ensures (IsSafe m depth) (charge_struct m depth r).0
charge_struct-IsSafe m depth (ok st) deep (returns h) =
    charged-IsSafe m depth (can_read m (total_size st.size)) _ (h, omega arith)
charge_struct-IsSafe m depth (err e) deep fails = fails
charge_struct-IsSafe m depth (panic _) deep h = elim h [ ]

charge_list-IsSafe :
    (m : Message) (depth : ℕ) (r : Result ListRef)
    → 0 < depth
    → Ensures (IsListOf m) r
    → Ensures (IsSafe m depth) (charge_list m depth r).0
charge_list-IsSafe m depth (ok l) deep (returns h) =
    charged-IsSafe m depth (can_read m (list_read_size l)) _
      (record { inside = h.inside; short = h.short; counted = h.counted }, omega arith)
charge_list-IsSafe m depth (err e) deep fails = fails
charge_list-IsSafe m depth (panic _) deep h = elim h [ ]

read_resolved-IsSafe :
    (m : Message) (depth : ℕ) (r : Result (Segment × ℕ × ℕ))
    → Ensures (IsResolved m) r
    → Ensures (IsSafe m depth) (read_resolved m depth r).0
unfolding read_resolved
read_resolved-IsSafe m depth (err e) fails = fails
read_resolved-IsSafe m depth (ok (s, base, val)) (returns (l, lt)) =
    either (val == 0) _ _ (λ _. returns tt)
      λ _.
        either (depth == 0) _ _ (λ _. fails)
          λ deep.
            either (pointer_type val == struct_pointer) _ _
              (λ _.
                charge_struct-IsSafe m depth _ (ground arith)
                  (Ensures-wrap _ (read_struct_ptr-IsStructOf m s base val l)))
              λ _.
                either (pointer_type val == list_pointer) _ _
                  (λ _.
                    charge_list-IsSafe m depth _ (ground arith)
                      (Ensures-wrap _ (read_list_ptr-IsListOf m s base val l lt)))
                  λ _.
                    either (pointer_type val == other_pointer) _ _
                      (λ _. either (other_pointer_type val == 0) _ _ (λ _. returns tt) (λ _. fails))
                      (λ _. fails)
read_resolved-IsSafe m depth (panic _) h = elim h [ ]

-- On every message, `readPtr` at a pointer within its segment does not panic. Where it returns a
-- pointer, that is null, a capability, or a struct or list that lies whole within a segment of the
-- message, with a depth limit below the given one.
pub read_ptr-IsSafe :
    (m : Message) (s : Segment) (paddr depth : ℕ)
    → IsMessage m
    → IsLoaded m s
    → region_in_bounds s.bytes paddr 8 ≡ true
    → Ensures (IsSafe m depth) (read_ptr m s paddr depth).0
unfolding read_ptr
read_ptr-IsSafe m s paddr depth h l room =
    read_resolved-IsSafe m depth _
      (Ensures-wrap _ (resolve_far_pointer-IsResolved m s paddr h l room))
