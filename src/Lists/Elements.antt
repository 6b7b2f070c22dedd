-- ===== src/Lists/Elements.antt =====
-- Lists of integers: what is set at an index is read back there, and no other element changes.
use go_capnp.Segment.{ListRef}
use go_capnp.Message.{Message}
use go_capnp.Lists.{mismatched, ℕ, same_size, total_size, pos_part, data_of, primitive_elem, ok}
use go_capnp.Lists.{in_list, load}
use go_capnp.Segment.Safe.{IsListOf}
use go_capnp.Base.{ℕ, ◌≡◌, ◌+◌, ◌<◌, true, false, ◌*◌, ◌^◌, ◌≤◌, arith, some, refl, suc, ◌≢◌, ◌⊎◌}
use go_capnp.Base.{if◌then◌else◌, Bool-cases, ◌==◌, ltb, inl, ltb→lt, ==_iff, inr, ◌∙◌, sym}
use go_capnp.Address.{is_valid, total_size, element}
use go_capnp.Base.Int.{pos_part, neg_part, pos}
use go_capnp.Segment.Resolve.{InSegment}
use go_capnp.Memory.Stores.{IsMemory, IsStored, store_lem}
use go_capnp.Base.Result.{ok}
use native.Mathlib.Nat.{mul-le-mul_right}
use go_capnp.Lists.Integers.{set_at_uint, at_uint}
use go_capnp.Memory.{load}

-- A list that was read from the message, or made in it.
pub record IsLiveList (m : Message) (l : ListRef) : Type 0 where
  pub inside : IsListOf m l
  pub sized : is_valid l.size ≡ true
  pub counted : l.size.pointer_count < 2 ^ 16
  pub positive : neg_part l.length ≡ 0

-- The elements have their own bytes, at least those of an integer of n bytes.
abbrev pub Holds : ListRef → ℕ → Type 0
Holds l n = (l.is_bit_list ≡ false) × (n ≤ total_size l.size)

-- Where element i of a list of integers is.
abbrev pub place : ListRef → ℕ → ℕ
place l i = l.off + i * total_size l.size

mismatched-Holds :
    (l : ListRef) (n : ℕ)
    → is_valid l.size ≡ true
    → l.size.pointer_count < 2 ^ 16
    → mismatched l (data_of n) ≡ false
    → Holds l n
unfolding mismatched same_size total_size is_valid
mismatched-Holds l n v c h = ground arith

element_room : (o i k t n len : ℕ) → i < k → n ≤ t → o + k * t ≤ len → o + i * t + n ≤ len
element_room o i k t n len lt wide room =
    let rows : suc i * t ≤ k * t = mul-le-mul_right t (omega (arith, lt)) in omega (arith, rows)

pub element_inside :
    (m : Message) (l : ListRef) (n i : ℕ)
    → IsLiveList m l
    → Holds l n
    → i < pos_part l.length
    → InSegment m l.seg (place l i) n
element_inside m l n i live (bits, wide) lt =
    let (d, found, room) = live.inside.inside in
    (
      d,
      found,
      element_room l.off i (pos_part l.length) (total_size l.size) n d.len lt wide
          (rw bits at room),
    )

element_lem :
    (m : Message) (l : ListRef) (n i : ℕ)
    → IsMemory m
    → IsLiveList m l
    → Holds l n
    → i < pos_part l.length
    → element l.off (pos i) (total_size l.size) ≡ (place l i, true)
unfolding element
element_lem m l n i w live wide lt =
    let (d, found, room) = element_inside m l n i live wide lt in
    ground (arith, w.small l.seg d found, room)

pub primitive_elem_lem :
    (m : Message) (l : ListRef) (n i : ℕ)
    → IsMemory m
    → IsLiveList m l
    → mismatched l (data_of n) ≡ false
    → i < pos_part l.length
    → primitive_elem (some l) (pos i) (data_of n) ≡ ok (place l i)
unfolding primitive_elem
primitive_elem_lem m l n i w live fit lt =
    let holds = mismatched-Holds l n live.sized live.counted fit in
    let within : in_list l (pos i) ≡ true = ground (arith, live.positive, lt) in
    rw (within, fit, element_lem m l n i w live holds lt) refl

pub at_uint_lem :
    (n : ℕ) (m : Message) (l : ListRef) (i : ℕ)
    → IsMemory m
    → IsLiveList m l
    → mismatched l (data_of n) ≡ false
    → i < pos_part l.length
    → at_uint n m (some l) (pos i) ≡ load n m l.seg (place l i)
unfolding at_uint
at_uint_lem n m l i w live fit lt = rw (primitive_elem_lem m l n i w live fit lt) refl

pub IsLiveList-stored :
    {m m' : Message} {n seg off v : ℕ} (l : ListRef)
    → IsStored m n seg off v m'
    → IsLiveList m l
    → IsLiveList m' l
IsLiveList-stored l s live =
    let (d, found, room) = live.inside.inside in
    let (d', found', same) = s.lengths l.seg d found in
    record {
      inside = record {
        inside = (d', found', omega (arith, room, same));
        short = live.inside.short;
        counted = live.inside.counted;
      };
      sized = live.sized;
      counted = live.counted;
      positive = live.positive;
    }

elements_apart :
    (l : ListRef) (n i j : ℕ)
    → n ≤ total_size l.size
    → i ≢ j
    → (place l j + n ≤ place l i) ⊎ (place l i + n ≤ place l j)
elements_apart l n i j wide differ = elim (Bool-cases (ltb i j)) [
  | inl below ↦
      let rows : suc i * total_size l.size ≤ j * total_size l.size =
        mul-le-mul_right _ (ltb→lt _ _ below) in
      inr (omega (arith, rows, wide))
  | inr above ↦
      let over : suc j ≤ i = ground arith in
      let rows : suc j * total_size l.size ≤ i * total_size l.size = mul-le-mul_right _ over in
      inl (omega (arith, rows, wide))
]

-- In a list of integers of n bytes, or of structs that begin with one, setting an element within the
-- list does not panic. That element then holds the value, and every other element holds what it
-- held; the rest of the message is as after one store.
pub set_at_uint-at_uint :
    (n : ℕ) (m : Message) (l : ListRef) (i v : ℕ)
    → IsMemory m
    → IsLiveList m l
    → mismatched l (data_of n) ≡ false
    → i < pos_part l.length
    → v < 256 ^ n
    → (m' : Message) × (set_at_uint n m (some l) (pos i) v ≡ ok m')
      × IsStored m n l.seg (place l i) v m'
      × ((j : ℕ)
          → j < pos_part l.length
          → at_uint n m' (some l) (pos j) ≡ (if i == j then ok v else at_uint n m (some l) (pos j)))
unfolding set_at_uint
set_at_uint-at_uint n m l i v w live fit lt small =
    let holds = mismatched-Holds l n live.sized live.counted fit in
    let (m', done, s) =
      store_lem n m l.seg (place l i) v w (element_inside m l n i live holds lt) small in
    let live' = IsLiveList-stored l s live in
    (
      m',
      rw (primitive_elem_lem m l n i w live fit lt) done,
      s,
      λ j within. elim (Bool-cases (i == j)) [
        | inl same ↦
            let there : load n m' l.seg (place l j) ≡ ok v = rw ((==_iff i j).0 same) at s.stored in
            rw same (at_uint_lem n m' l j s.memory live' fit within ∙ there)
        | inr differ ↦
            let other : i ≢ j = ground arith in
            rw differ (
              at_uint_lem n m' l j s.memory live' fit within
              ∙ s.kept n l.seg (place l j) (element_inside m l n j live holds within)
                  (inr (elements_apart l n i j holds.1 other))
              ∙ sym (at_uint_lem n m l j w live fit within))
      ],
    )
