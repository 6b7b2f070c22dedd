-- ===== src/Copying/Elements.antt =====
-- segment.go: the loop of writePtr that copies the elements of a list one by one.
use native.Mathlib.Nat.{mul-le-mul_right}
use go_capnp.Base.Result.{else_branch, Result, ok, Ensures, returns, Ensures-weaken, ◌>>=◌}
use go_capnp.Lists.{member_at, list_struct}
use go_capnp.Address.{element, total_size, max_segment_size}
use go_capnp.Base.{◌/◌, ℕ, zero, suc, ◌+◌, ◌*◌, ◌^◌, ◌≤◌, ◌<◌, ◌≡◌, ◌%◌, ◌&&◌, arith, some, true}
use go_capnp.Base.{false, not, List, u64, ap, ◌-◌}
use go_capnp.Base.Int.{ℤ, pos, negsuc, pos_part, ltb_ℤ}
use go_capnp.Copying.{copy_elements, Message, ListRef, Struct, World, Ptr}
use go_capnp.Copying.Keeps.{Keeps, InSegment-Keeps, Keeps-refl}
use go_capnp.Copying.Reads.{world, IsAt}
use go_capnp.Copying.Sections.{After, after_world, IsTargetOf, Keeps-IsTargetOf, widened-After}
use go_capnp.Copying.Structs.{Writes, IsPlace, bind_part, copy_struct-After, Ensures-wrap_at}
use go_capnp.Lists.Elements.{IsLiveList, place, element_inside}
use go_capnp.Message.{Message}
use go_capnp.Segment.{ListRef, Struct, Ptr}
use go_capnp.Memory.Stores.{IsMemory}
use go_capnp.Address.Bounds.{total_size_exact}
use go_capnp.Builder.Extends.{IsBuilder-IsMemory}
use go_capnp.StructFields.Access.{IsLive}

row_room : (i k t : ℕ) → i < k → i * t + t ≤ k * t
row_room i k t lt =
    let rows : suc i * t ≤ k * t = mul-le-mul_right t (omega (arith, lt)) in omega (arith, rows)

-- The element of a list as a struct.
abbrev pub element_of : ListRef → ℕ → Struct
element_of l i = record {
  seg = l.seg;
  off = place l i;
  size = l.size;
  depth_limit = u64 (l.depth_limit + (2 ^ 64 - 1));
  is_list_member = true;
}

in_length_lem :
    (n : ℤ) (i : ℕ) → i < pos_part n → (not (ltb_ℤ (pos i) (pos 0)) && ltb_ℤ (pos i) n) ≡ true
in_length_lem (pos n) i lt = ground (arith, lt)
in_length_lem (negsuc n) i lt = absurd (omega (arith, lt))

element_lem :
    (off i t : ℕ) → off + i * t ≤ max_segment_size → element off (pos i) t ≡ (off + i * t, true)
unfolding element
element_lem off i t fits = ground (arith, fits)

pub list_struct_lem :
    (m : Message) (l : ListRef) (i : ℕ)
    → IsMemory m
    → IsLiveList m l
    → l.is_bit_list ≡ false
    → i < pos_part l.length
    → list_struct (some l) (pos i) ≡ ok (some (element_of l i))
unfolding list_struct
list_struct_lem m l i w live bytes lt =
    let (d, found, room) = element_inside m l (total_size l.size) i live (bytes, omega arith) lt in
    let at = element_lem l.off i (total_size l.size) (omega (arith, room, w.small l.seg d found)) in
    rw (in_length_lem l.length i lt) (else_branch _ bytes (ap (λ r. ok (member_at l r)) at))

-- A list to copy into, element by element.
pub record IsPlaceList (m : Message) (d : ListRef) : Type 0 where
  pub first : d.seg ≡ 0
  pub live : IsLiveList m d
  pub aligned : d.off % 8 ≡ 0
  pub whole : d.size.data_size % 8 ≡ 0
  pub bytes : d.is_bit_list ≡ false

word_aligned : (off i t : ℕ) → off % 8 ≡ 0 → t % 8 ≡ 0 → (off + i * t) % 8 ≡ 0
word_aligned off i t ha ht =
    let e : i * t ≡ i * (t / 8 * 8) = ap (λ x. i * x) (omega (arith, ht)) in
    let f : i * (t / 8 * 8) ≡ (i * (t / 8)) * 8 = omega arith in omega (arith, e, f, ha)

element-IsPlace :
    (m : Message) (d : ListRef) (i : ℕ)
    → IsPlaceList m d
    → i < pos_part d.length
    → IsPlace m (element_of d i)
element-IsPlace m d i p lt =
    let total = total_size_exact d.size p.live.sized p.live.counted in
    record {
      first = p.first;
      live = record {
        inside = element_inside m d (total_size d.size) i p.live (p.bytes, omega arith) lt;
        sized = p.live.sized;
        counted = p.live.counted;
      };
      aligned = word_aligned d.off i (total_size d.size) p.aligned (omega (arith, total, p.whole));
      whole = p.whole;
    }

IsPlaceList-Keeps :
    {m m' : Message} {off n : ℕ} (d : ListRef)
    → Keeps m off n m'
    → IsPlaceList m d
    → IsPlaceList m' d
IsPlaceList-Keeps d h p = record {
  first = p.first;
  live = record {
    inside = record {
      inside = InSegment-Keeps d.seg d.off _ h p.live.inside.inside;
      short = p.live.inside.short;
      counted = p.live.inside.counted;
    };
    sized = p.live.sized;
    counted = p.live.counted;
    positive = p.live.positive;
  };
  aligned = p.aligned;
  whole = p.whole;
  bytes = p.bytes;
}

module _ (o : Message) (ts : List ℕ) (w : IsMemory o) (n : ℕ)
    (write : World → ℕ → ℕ → Ptr → Result World) (writes : Writes o ts n write) (l : ListRef)
    (source : IsLiveList o l) (bytes : l.is_bit_list ≡ false) where
  -- The elements copied from index i on change only the list that they are copied into.
  pub copy_elements-After :
      (m s : Message) (cs : List ℕ) (limit : ℕ) (d : ListRef) (left i : ℕ)
      → IsTargetOf m
      → IsAt o limit s
      → limit ≤ n
      → IsPlaceList m d
      → i + left ≤ pos_part d.length
      → i + left ≤ pos_part l.length
      → Ensures
          (After o m ts d.off (pos_part d.length * total_size d.size) limit)
          (copy_elements write (world m s cs ts) d l left i)
  unfolding copy_elements ◌>>=◌
  copy_elements-After m s cs limit d zero i t a bound p fits fits' =
      returns (after_world (Keeps-refl m d.off _ t.builder t.single) a)
  copy_elements-After m s cs limit d (suc left) i t a bound p fits fits' =
      let lt : i < pos_part d.length = omega (arith, fits) in
      let lt' : i < pos_part l.length = omega (arith, fits') in
      let to = list_struct_lem m d i (IsBuilder-IsMemory m t.builder) p.live p.bytes lt in
      let from = list_struct_lem o l i w source bytes lt' in
      let live : IsLive o (element_of l i) = record {
        inside = element_inside o l (total_size l.size) i source (bytes, omega arith) lt';
        sized = source.sized;
        counted = source.counted;
      } in
      let row = row_room i (pos_part d.length) (total_size d.size) lt in
      rw to (
        rw from (
          bind_part _
            (Ensures-wrap_at "write pointer: copy list element" i (
              copy_struct-After o ts w n write writes (element_of l i) live m s cs limit
                (element_of d i) t a bound (element-IsPlace m d i p lt)))
            λ m' s' cs' h a'.
              Ensures-weaken (After o m' ts d.off (pos_part d.length * total_size d.size) limit)
                (widened-After o ts w m m' d.off (pos_part d.length * total_size d.size) (place d i)
                  (total_size d.size) limit h (omega arith) (omega (arith, row)))
                (copy_elements-After m' s' cs' limit d left (i + 1) (Keeps-IsTargetOf h) a' bound
                  (IsPlaceList-Keeps d h p) (omega (arith, fits)) (omega (arith, fits')))))
