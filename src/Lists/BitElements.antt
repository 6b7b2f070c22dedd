-- ===== src/Lists/BitElements.antt =====
-- Lists of bits: what is set at an index is read back there, and no other bit changes, as far as the
-- offset of a bit is one that an address takes.
use go_capnp.Base.{ℕ, ◌+◌, ◌/◌, ◌^◌, ◌≤◌, ◌<◌, ◌≡◌, ◌∙◌, refl, arith, some, true, Bool, ◌==◌}
use go_capnp.Base.{if◌then◌else◌, u32, leb}
use go_capnp.Base.Int.{pos, pos_part}
use go_capnp.Base.Result.{ok, panic, ◌>>=◌}
use go_capnp.Address.{bit_offset, add_offset}
use go_capnp.Message.{Message}
use go_capnp.Segment.{ListRef}
use go_capnp.Segment.Resolve.{InSegment}
use go_capnp.Memory.Stores.{IsMemory, IsStored}
use go_capnp.Memory.Bits.{get_bit, change_bit, change_bit-get_bit}
use go_capnp.Lists.{in_list, bit_at, set_bit_at}
use go_capnp.Lists.Elements.{IsLiveList, IsLiveList-stored}

-- The bytes of a list of bits.
bits_inside :
    (m : Message) (l : ListRef)
    → IsLiveList m l
    → l.is_bit_list ≡ true
    → InSegment m l.seg l.off ((pos_part l.length + 7) / 8)
bits_inside m l live bits = let (d, found, room) = live.inside.inside in (d, found, rw bits at room)

module _ (m : Message) (l : ListRef) (w : IsMemory m) (live : IsLiveList m l)
    (bits : l.is_bit_list ≡ true) (i : ℕ) (inside : i < pos_part l.length) where
  index : in_list l (pos i) ≡ true
  index = ground (arith, live.positive, inside)

  low : u32 i ≡ i
  low = omega (arith, live.inside.short, inside)

  address : i < 2 ^ 22 → add_offset l.off (bit_offset i) ≡ ok (l.off + i / 8)
  unfolding bit_offset add_offset
  address near =
      let (d, found, room) = bits_inside m l live bits in
      ground (arith, w.small l.seg d found, room, inside, near)

  bit_at_lem : i < 2 ^ 22 → bit_at m (some l) (pos i) ≡ get_bit m l.seg l.off i
  unfolding bit_at get_bit ◌>>=◌
  bit_at_lem near = rw (index, bits, low, address near) refl

  set_bit_at_lem :
      (v : Bool) → i < 2 ^ 22 → set_bit_at m (some l) (pos i) v ≡ change_bit m l.seg l.off i v
  unfolding set_bit_at change_bit ◌>>=◌
  set_bit_at_lem v near = rw (index, bits, low, address near) refl

-- In a list of bits, setting one of the first 2 ^ 22 bits, within the list, does not panic. That bit
-- then holds the value, and every other of these bits holds what it held; the rest of the message is
-- as after a store of one byte.
pub set_bit_at-bit_at :
    (m : Message) (l : ListRef) (i : ℕ) (v : Bool)
    → IsMemory m
    → IsLiveList m l
    → l.is_bit_list ≡ true
    → i < pos_part l.length
    → i < 2 ^ 22
    → (m' : Message) × (b : ℕ) × (set_bit_at m (some l) (pos i) v ≡ ok m')
      × IsStored m 1 l.seg (l.off + i / 8) b m'
      × ((k : ℕ)
          → k < pos_part l.length
          → k < 2 ^ 22
          → bit_at m' (some l) (pos k) ≡ (if i == k then ok v else bit_at m (some l) (pos k)))
set_bit_at-bit_at m l i v w live is_bits inside near =
    let (m', b, done, s, bits) =
      change_bit-get_bit m l.seg l.off ((pos_part l.length + 7) / 8) i v w
        (bits_inside m l live is_bits) (omega (arith, inside)) in
    (
      m',
      b,
      set_bit_at_lem m l w live is_bits i inside v near ∙ done,
      s,
      λ k within short.
          bit_at_lem m' l s.memory (IsLiveList-stored l s live) is_bits k within short
          ∙ rw (bit_at_lem m l w live is_bits k within short) (bits k (omega (arith, within))),
    )

-- Getting or setting a bit from bit 2 ^ 22 on panics, though it lies within the list.
pub bit_at_far :
    (m : Message) (l : ListRef) (i : ℕ) (v : Bool)
    → l.is_bit_list ≡ true
    → l.length ≡ pos (pos_part l.length)
    → pos_part l.length < 2 ^ 29
    → i < pos_part l.length
    → 2 ^ 22 ≤ i
    → (bit_at m (some l) (pos i) ≡ panic "data offset overflow")
      × (set_bit_at m (some l) (pos i) v ≡ panic "data offset overflow")
unfolding bit_at set_bit_at bit_offset add_offset ◌>>=◌
bit_at_far m l i v bits positive short inside far =
    let at : in_list l (pos i) ≡ true = rw positive (ground (arith, inside)) in
    let same : u32 i ≡ i = omega (arith, short, inside) in
    let beyond : leb (2 ^ 19) (i / 8) ≡ true = ground (arith, far) in
    (rw (at, bits, same, beyond) refl, rw (at, bits, same, beyond) refl)
