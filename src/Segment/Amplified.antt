-- ===== src/Segment/Amplified.antt =====
-- What reading pointers takes from the read limit of a message.
use go_capnp.Base.{ℕ, ◌+◌, ◌≤◌, ◌≡◌, refl, arith, Bool, true, if◌then◌else◌, List, [], ◌∷◌, leb}
use go_capnp.Base.{◌∙◌, Bool-cases, inl, inr, ◌==◌, zero, suc, ◌*◌, min, false}
use go_capnp.Base.Int.{pos_part}
use go_capnp.Base.Result.{wrap_error, Result, ok, err, panic, Gives, gives, Gives-bind}
use go_capnp.Base.Result.{Gives-wrap, Gives-require, any_value}
use go_capnp.Segment.{read_struct_ptr, read_composite_list, read_list_ptr, resolve_far_pointer}
use go_capnp.Segment.{null, of_struct, of_list, of_interface, charge_struct, charge_list, charged}
use go_capnp.Segment.{read_resolved, read_ptr, list_read_size, Ptr, Message, can_read, total_size}
use go_capnp.Segment.{Struct, ListRef, pointer_type}
use go_capnp.Segment.Shapes.{IsPrimitive, struct_size-IsSize, element_size-shape}
use go_capnp.Address.{ObjectSize, max_segment_size, word_size, times, total_size}
use go_capnp.Address.Bounds.{total_size_exact, times_exact}
use go_capnp.RawPointer.{struct_size, total_list_size, list_type, composite_list, bit1_list}
use go_capnp.RawPointer.{pointer_type, struct_pointer, list_pointer, other_pointer}
use go_capnp.RawPointer.{other_pointer_type, capability_index}
use go_capnp.Slice.{read_raw_pointer}
use go_capnp.Message.{can_read, Message, Segment, read_limit}

-- What the format says of a size: its data section and a word for each pointer.
abbrev pub object_bytes : ObjectSize → ℕ
object_bytes sz = sz.data_size + 8 * sz.pointer_count

abbrev word_at_least : ℕ → ℕ
word_at_least zero = 8
word_at_least (suc n) = suc n

-- The bytes that a pointer counts for: a struct's, or those of the list's elements, a word for each that has
-- none, and at most the largest segment.
abbrev pub read_size : Ptr → ℕ
read_size null = 0
read_size (of_struct st) = object_bytes st.size
read_size (of_list l) =
    min (word_at_least (object_bytes l.size) * pos_part l.length) max_segment_size
read_size (of_interface seg c) = 0

abbrev pub handed_out : Result Ptr → ℕ
handed_out (ok p) = read_size p
handed_out (err e) = 0
handed_out (panic s) = 0

-- The message after a read: its segments, and what is left of the limit.
pub record IsCharged (m : Message) (r : Result Ptr × Message) : Type 0 where
  pub segs : r.1.segs ≡ m.segs
  pub limit : handed_out r.0 + read_limit r.1 ≤ read_limit m

unchanged : (m : Message) (r : Result Ptr) → handed_out r ≡ 0 → IsCharged m (r, m)
unchanged m r e = record { segs = refl; limit = omega (arith, e) }

either :
    {m : Message} (test : Bool) (x y : Result Ptr × Message)
    → IsCharged m x
    → IsCharged m y
    → IsCharged m (if test then x else y)
either true x y h k = h
either false x y h k = k

charged-IsCharged :
    (m : Message) (sz : ℕ) (p : Ptr) → read_size p ≤ sz → IsCharged m (charged (can_read m sz) p)
unfolding can_read
charged-IsCharged m sz p same = elim (Bool-cases (leb sz (read_limit m))) [
  | inl fits ↦
      rw fits (record { segs = refl; limit = unfold read_limit in ground (arith, same, fits) })
  | inr over ↦ rw over (record { segs = refl; limit = unfold read_limit in omega arith })
]

-- totalSize does not wrap.
abbrev IsExact : ObjectSize → Type 0
IsExact sz = total_size sz ≡ object_bytes sz

struct_size-IsExact : (val : ℕ) → IsExact (struct_size val)
struct_size-IsExact val =
    let h = struct_size-IsSize val in (total_size_exact (struct_size val) h.valid h.counted).0

primitive-IsExact : (sz : ObjectSize) → IsPrimitive sz → IsExact sz
unfolding total_size
primitive-IsExact sz h = ground (arith, h)

no_size-IsExact : IsExact (record { data_size = 0; pointer_count = 0 })
unfolding total_size
no_size-IsExact = refl

read_struct_ptr-IsExact :
    (s : Segment) (base val : ℕ) → Gives (λ st. IsExact st.size) (read_struct_ptr s base val)
unfolding read_struct_ptr
read_struct_ptr-IsExact s base val =
    Gives-require _ _ λ fits. Gives-require _ _ λ room. gives (struct_size-IsExact val)

read_composite_list-IsExact :
    (s : Segment) (addr : ℕ) → Gives (λ l. IsExact l.size) (read_composite_list s addr)
unfolding read_composite_list
read_composite_list-IsExact s addr =
    Gives-bind (λ _. Unit) (any_value (read_raw_pointer s.bytes addr))
      λ hdr tt. Gives-require _ _ λ fits. Gives-require _ _ λ is_tag.
        Gives-require _ _ λ sized. Gives-require _ _ λ room. gives (struct_size-IsExact hdr)

read_list_ptr-IsExact :
    (s : Segment) (base val : ℕ) → Gives (λ l. IsExact l.size) (read_list_ptr s base val)
unfolding read_list_ptr
read_list_ptr-IsExact s base val = Gives-require _ _ λ fits.
    Gives-bind (λ _. Unit) (any_value (total_list_size val))
      λ lsize tt. Gives-require _ _ λ sized. Gives-require _ _ λ room.
        elim (Bool-cases (list_type val == composite_list)) [
          | inl comp ↦ rw comp (read_composite_list-IsExact s _)
          | inr plain ↦ rw plain (elim (Bool-cases (list_type val == bit1_list)) [
            | inl bits ↦ rw bits (gives no_size-IsExact)
            | inr bytes ↦ rw bytes (
                Gives-bind IsPrimitive (element_size-shape val)
                  λ size h. gives (primitive-IsExact size h))
          ])
        ]

word_at_least_lem : (n : ℕ) → (if n == 0 then word_size else n) ≡ word_at_least n
word_at_least_lem zero = refl
word_at_least_lem (suc n) = let e : (suc n == 0) ≡ false = ground arith in rw e refl

-- readSize counts at least what the format says.
list_read_size-covers : (l : ListRef) → IsExact l.size → read_size (of_list l) ≤ list_read_size l
unfolding list_read_size
list_read_size-covers l e =
    let w = word_at_least (object_bytes l.size) in
    let (_, exact) = times_exact w l.length in
    rw (e, word_at_least_lem (object_bytes l.size))
      (elim (Bool-cases (times w l.length).1) [
        | inl fits ↦ rw fits (omega (arith, exact fits))
        | inr over ↦ rw over (omega arith)
      ])

charge_struct-IsCharged :
    (m : Message) (depth : ℕ) (r : Result Struct)
    → Gives (λ st. IsExact st.size) r
    → IsCharged m (charge_struct m depth r)
charge_struct-IsCharged m depth (ok st) (gives e) =
    charged-IsCharged m (total_size st.size) _ (omega (arith, e))
charge_struct-IsCharged m depth (err e) h = unchanged m (err e) refl
charge_struct-IsCharged m depth (panic s) h = unchanged m (panic s) refl

charge_list-IsCharged :
    (m : Message) (depth : ℕ) (r : Result ListRef)
    → Gives (λ l. IsExact l.size) r
    → IsCharged m (charge_list m depth r)
charge_list-IsCharged m depth (ok l) (gives e) =
    charged-IsCharged m (list_read_size l) _ (list_read_size-covers l e)
charge_list-IsCharged m depth (err e) h = unchanged m (err e) refl
charge_list-IsCharged m depth (panic s) h = unchanged m (panic s) refl

read_resolved-IsCharged :
    (m : Message) (depth : ℕ) (r : Result (Segment × ℕ × ℕ)) → IsCharged m (read_resolved m depth r)
unfolding read_resolved
read_resolved-IsCharged m depth (err e) = unchanged m (err e) refl
read_resolved-IsCharged m depth (panic s) = unchanged m (panic s) refl
read_resolved-IsCharged m depth (ok (s, base, val)) =
    either (val == 0) _ _ (unchanged m (ok null) refl) (
      either (depth == 0) _ _ (unchanged m (err _) refl) (
        either (pointer_type val == struct_pointer) _ _
          (charge_struct-IsCharged m depth _ (Gives-wrap _ (read_struct_ptr-IsExact s base val)))
          (either (pointer_type val == list_pointer) _ _
            (charge_list-IsCharged m depth _ (Gives-wrap _ (read_list_ptr-IsExact s base val)))
            (either (pointer_type val == other_pointer) _ _
              (either (other_pointer_type val == 0) _ _
                (unchanged m (ok (of_interface s.id (capability_index val))) refl)
                (unchanged m (err _) refl))
              (unchanged m (err _) refl)))))

pub read_ptr-IsCharged :
    (m : Message) (s : Segment) (paddr depth : ℕ) → IsCharged m (read_ptr m s paddr depth)
unfolding read_ptr
read_ptr-IsCharged m s paddr depth =
    read_resolved-IsCharged m depth (wrap_error "read pointer" (resolve_far_pointer m s paddr))

-- Reads of pointers, one after another: where each is, with its depth limit. The bytes that they hand out, and
-- the message after them.
abbrev next_read : ℕ → ℕ × Message → ℕ × Message
next_read n (total, m) = (n + total, m)

unfoldable pub read_each : Message → List (Segment × ℕ × ℕ) → ℕ × Message
read_each m [] = (0, m)
read_each m ((s, paddr, depth) ∷ reads) =
    let r = read_ptr m s paddr depth in
    let rest = read_each r.1 reads in next_read (handed_out r.0) rest

-- However many pointers of a message are read, one after another, at whatever places and with whatever
-- depth limits, also the same ones again and whatever the bytes are: the sizes of the objects handed out
-- add up to at most the message's read limit at the start, less what is left of it. The size of a struct is
-- its data section and a word for each pointer; that of a list is its length times the size of an element, or
-- times a word where the elements have no size, as those of a list of bits, and no more than the largest
-- segment; a list of negative length counts for nothing. The segments stay.
pub read_each-bounded :
    (m : Message) (reads : List (Segment × ℕ × ℕ))
    → ((read_each m reads).0 + read_limit (read_each m reads).1 ≤ read_limit m)
      × ((read_each m reads).1.segs ≡ m.segs)
unfolding read_each
read_each-bounded m [] = (omega arith, refl)
read_each-bounded m ((s, paddr, depth) ∷ reads) =
    let r = read_ptr m s paddr depth in
    let here = read_ptr-IsCharged m s paddr depth in
    let (bound, same) = read_each-bounded r.1 reads in
    (omega (arith, here.limit, bound), same ∙ here.segs)
