-- ===== src/Segment/Shapes.antt =====
-- segment.go: the sizes of what readPtr hands out, which are those of the wire format.
use go_capnp.Base.{ℕ, zero, suc, ◌≤◌, ◌<◌, ◌≡◌, ◌⊎◌, ◌%◌, ◌^◌, inl, inr, refl, arith, true, false}
use go_capnp.Base.{Bool-cases, ◌==◌, Bool, if◌then◌else◌}
use go_capnp.Base.Int.{neg_part}
use go_capnp.RawPointer.{num_list_elements, struct_size, element_size_of, element_size}
use go_capnp.RawPointer.{total_list_size, pointer_type, list_type, struct_pointer, composite_list}
use go_capnp.RawPointer.{list_pointer, other_pointer, bit1_list, other_pointer_type}
use go_capnp.RawPointer.Sizes.{num_list_elements_lem}
use go_capnp.Segment.Resolve.{IsMessage, IsLoaded, IsResolved, resolve_far_pointer-IsResolved}
use go_capnp.Base.Result.{Ensures, returns, Ensures-wrap, Result, ok, err, panic, Gives, gives}
use go_capnp.Base.Result.{errs, panics, Gives-bind, Gives-wrap, Gives-require, any_value}
use go_capnp.Base.Result.{wrap_error}
use go_capnp.Segment.{null, of_struct, of_list, of_interface, charge_struct, charge_list, charged}
use go_capnp.Segment.{read_resolved, read_ptr, read_struct_ptr, read_list_ptr}
use go_capnp.Segment.{read_composite_list, Ptr, ListRef, Struct, resolve_far_pointer}
use go_capnp.Segment.{list_read_size}
use go_capnp.Message.{Segment, Message, can_read}
use go_capnp.Address.{ObjectSize, is_valid, times_unchecked, total_size}
use go_capnp.Slice.{read_raw_pointer, region_in_bounds}
use go_capnp.Address.Bounds.{add_size_exact}
use go_capnp.RawPointer.Fields.{list_type_lem}

-- A size that a struct pointer can carry.
pub record IsSize (sz : ObjectSize) : Type 0 where
  pub valid : is_valid sz ≡ true
  pub counted : sz.pointer_count < 2 ^ 16
  pub whole : sz.data_size % 8 ≡ 0

-- The element size of a list of primitives or pointers.
abbrev pub IsPrimitive : ObjectSize → Type 0
IsPrimitive sz =
    ((sz.data_size ≡ 0) × (sz.pointer_count ≡ 1))
    ⊎ ((sz.pointer_count ≡ 0)
        × ((sz.data_size ≡ 0)
            ⊎ ((sz.data_size ≡ 1)
                ⊎ ((sz.data_size ≡ 2) ⊎ ((sz.data_size ≡ 4) ⊎ (sz.data_size ≡ 8))))))

abbrev pub IsShapedList : ListRef → Type 0
IsShapedList l =
    ((l.is_composite ≡ true) × (l.is_bit_list ≡ false) × IsSize l.size × (8 ≤ l.off))
    ⊎ ((l.is_composite ≡ false)
        × (neg_part l.length ≡ 0)
        × ((l.is_bit_list ≡ true) ⊎ ((l.is_bit_list ≡ false) × IsPrimitive l.size)))

abbrev pub IsShaped : Ptr → Type 0
IsShaped null = Unit
IsShaped (of_struct st) = IsSize st.size × (st.is_list_member ≡ false)
IsShaped (of_list l) = IsShapedList l
IsShaped (of_interface seg c) = Unit

pub struct_size-IsSize : (val : ℕ) → IsSize (struct_size val)
unfolding struct_size is_valid times_unchecked
struct_size-IsSize val = record { valid = ground arith; counted = omega arith; whole = omega arith }

read_struct_ptr-shape :
    (s : Segment) (base val : ℕ)
    → Gives (λ st. IsSize st.size × (st.is_list_member ≡ false)) (read_struct_ptr s base val)
unfolding read_struct_ptr
read_struct_ptr-shape s base val =
    Gives-require _ _ λ fits. Gives-require _ _ λ room. gives (struct_size-IsSize val, refl)

read_composite_list-shape :
    (s : Segment) (addr : ℕ) → Gives IsShapedList (read_composite_list s addr)
unfolding read_composite_list
read_composite_list-shape s addr =
    Gives-bind (λ _. Unit) (any_value (read_raw_pointer s.bytes addr))
      λ hdr tt. Gives-require _ _ λ fits. Gives-require _ _ λ is_tag. Gives-require _ _ λ sized.
        Gives-require _ _ λ room.
          gives (
            inl (refl, refl, struct_size-IsSize hdr, omega (arith, (add_size_exact addr 8).1 fits)))

primitive :
    (n : ℕ)
    → (n ≡ 0) ⊎ ((n ≡ 1) ⊎ ((n ≡ 2) ⊎ ((n ≡ 4) ⊎ (n ≡ 8))))
    → IsPrimitive (record { data_size = n; pointer_count = 0 })
primitive n h = inr (refl, h)

element_size_of-shape : (t : ℕ) → t < 8 → Gives IsPrimitive (element_size_of t)
element_size_of-shape zero lt = gives (primitive 0 (inl refl))
element_size_of-shape (suc zero) lt = gives (primitive 0 (inl refl))
element_size_of-shape (suc (suc zero)) lt = gives (primitive 1 (inr (inl refl)))
element_size_of-shape (suc (suc (suc zero))) lt = gives (primitive 2 (inr (inr (inl refl))))
element_size_of-shape (suc (suc (suc (suc zero)))) lt =
    gives (primitive 4 (inr (inr (inr (inl refl)))))
element_size_of-shape (suc (suc (suc (suc (suc zero))))) lt =
    gives (primitive 8 (inr (inr (inr (inr refl)))))
element_size_of-shape (suc (suc (suc (suc (suc (suc zero)))))) lt = gives (inl (refl, refl))
element_size_of-shape (suc (suc (suc (suc (suc (suc (suc zero))))))) lt = panics
element_size_of-shape (suc (suc (suc (suc (suc (suc (suc (suc t)))))))) lt = absurd (omega arith)

pub element_size-shape : (val : ℕ) → Gives IsPrimitive (element_size val)
unfolding element_size
element_size-shape val = element_size_of-shape (list_type val) (omega (arith, list_type_lem val))

positive_count : (val : ℕ) → val < 2 ^ 64 → neg_part (num_list_elements val) ≡ 0
positive_count val lt = rw (num_list_elements_lem val lt) refl

read_list_ptr-shape :
    (s : Segment) (base val : ℕ) → val < 2 ^ 64 → Gives IsShapedList (read_list_ptr s base val)
unfolding read_list_ptr
read_list_ptr-shape s base val lt = Gives-require _ _ λ fits.
    Gives-bind (λ _. Unit) (any_value (total_list_size val))
      λ lsize tt. Gives-require _ _ λ sized. Gives-require _ _ λ room.
        elim (Bool-cases (list_type val == composite_list)) [
          | inl comp ↦ rw comp (read_composite_list-shape s _)
          | inr plain ↦ rw plain (elim (Bool-cases (list_type val == bit1_list)) [
            | inl bits ↦ rw bits (gives (inr (refl, positive_count val lt, inl refl)))
            | inr bytes ↦ rw bytes (
                Gives-bind IsPrimitive (element_size-shape val)
                  λ size h. gives (inr (refl, positive_count val lt, inr (refl, h))))
          ])
        ]

charged-shape :
    (allowed : Bool × Message) (p : Ptr) → IsShaped p → Gives IsShaped (charged allowed p).0
charged-shape (true, m) p h = gives h
charged-shape (false, m) p h = errs

charge_struct-shape :
    (m : Message) (depth : ℕ) (r : Result Struct)
    → Gives (λ st. IsSize st.size × (st.is_list_member ≡ false)) r
    → Gives IsShaped (charge_struct m depth r).0
charge_struct-shape m depth (ok st) (gives h) = charged-shape (can_read m (total_size st.size)) _ h
charge_struct-shape m depth (err e) h = errs
charge_struct-shape m depth (panic s) h = panics

charge_list-shape :
    (m : Message) (depth : ℕ) (r : Result ListRef)
    → Gives IsShapedList r
    → Gives IsShaped (charge_list m depth r).0
charge_list-shape m depth (ok l) (gives h) = charged-shape (can_read m (list_read_size l)) _ h
charge_list-shape m depth (err e) h = errs
charge_list-shape m depth (panic s) h = panics

either :
    (test : Bool) (x y : Result Ptr × Message)
    → Gives IsShaped x.0
    → Gives IsShaped y.0
    → Gives IsShaped (if test then x else y).0
either true x y h k = h
either false x y h k = k

read_resolved-shape :
    (m : Message) (depth : ℕ) (r : Result (Segment × ℕ × ℕ))
    → Ensures (IsResolved m) r
    → Gives IsShaped (read_resolved m depth r).0
unfolding read_resolved
read_resolved-shape m depth (err e) h = errs
read_resolved-shape m depth (panic s) h = panics
read_resolved-shape m depth (ok (s, base, val)) (returns (l, lt)) =
    either (val == 0) _ _ (gives tt) (
      either (depth == 0) _ _ errs (
        either (pointer_type val == struct_pointer) _ _
          (charge_struct-shape m depth _
            (Gives-wrap "read pointer" (read_struct_ptr-shape s base val)))
          (either (pointer_type val == list_pointer) _ _
            (charge_list-shape m depth _
              (Gives-wrap "read pointer" (read_list_ptr-shape s base val lt)))
            (either (pointer_type val == other_pointer) _ _
              (either (other_pointer_type val == 0) _ _ (gives tt) errs) errs))))

-- Whatever the bytes are, a pointer that readPtr returns has a size of the wire format: a struct and a
-- composite list have whole words of data, other lists the sizes of primitives or of a pointer and a length
-- that is not negative.
pub read_ptr-shape :
    (m : Message) (s : Segment) (paddr depth : ℕ)
    → IsMessage m
    → IsLoaded m s
    → region_in_bounds s.bytes paddr 8 ≡ true
    → Gives IsShaped (read_ptr m s paddr depth).0
unfolding read_ptr
read_ptr-shape m s paddr depth h l room =
    read_resolved-shape m depth (wrap_error "read pointer" (resolve_far_pointer m s paddr))
      (Ensures-wrap _ (resolve_far_pointer-IsResolved m s paddr h l room))
