-- ===== src/StructFields/Bits.antt =====
-- Boolean fields: the bit that is set is read back, and no other bit of the struct changes.
use go_capnp.Base.{
  ℕ, ◌+◌, ◌*◌, ◌/◌, ◌≤◌, ◌<◌, ◌≡◌, ◌∙◌, refl, arith, some, true, Bool, ◌==◌, if◌then◌else◌,
}
use go_capnp.Base.Result.{ok, ◌>>=◌}
use go_capnp.Address.{is_valid, bit_offset, add_offset}
use go_capnp.Message.{Message}
use go_capnp.Segment.{Struct}
use go_capnp.Segment.Resolve.{InSegment}
use go_capnp.Memory.Stores.{IsMemory, IsStored}
use go_capnp.Memory.Bits.{get_bit, change_bit, change_bit-get_bit}
use go_capnp.StructFields.{field_bit, set_field_bit, bit_in_data}
use go_capnp.StructFields.Access.{IsLive, add_offset_lem, data_inside}

module _ (m : Message) (p : Struct) (w : IsMemory m) (live : IsLive m p) (n : ℕ)
    (inside : n < p.size.data_size * 8) where
  in_data : bit_in_data (some p) n ≡ true
  unfolding bit_in_data is_valid
  in_data = ground (arith, live.sized, inside)

  byte_inside : n / 8 + 1 ≤ p.size.data_size
  byte_inside = omega (arith, inside)

  address : add_offset p.off (bit_offset n) ≡ ok (p.off + n / 8)
  unfolding bit_offset
  address = add_offset_lem m p (n / 8) 1 w live byte_inside (omega arith)

  field_bit_lem : field_bit m (some p) n ≡ get_bit m p.seg p.off n
  unfolding field_bit get_bit ◌>>=◌
  field_bit_lem = rw (in_data, address) refl

  set_field_bit_lem : (v : Bool) → set_field_bit m (some p) n v ≡ change_bit m p.seg p.off n v
  unfolding set_field_bit change_bit ◌>>=◌
  set_field_bit_lem v = rw (in_data, address) refl

-- A struct is as live in the message after a store.
pub IsLive-stored :
    {m m' : Message} {n seg off v : ℕ} (p : Struct)
    → IsStored m n seg off v m'
    → IsLive m p
    → IsLive m' p
IsLive-stored p s live =
    let (d, found, room) = live.inside in
    let (d', found', same) = s.lengths p.seg d found in
    record {
      inside = (d', found', omega (arith, room, same));
      sized = live.sized;
      counted = live.counted;
    }

-- The data section, whole.
section_inside : (m : Message) (p : Struct) → IsLive m p → InSegment m p.seg p.off p.size.data_size
section_inside m p live =
    let (d, found, room) = data_inside m p 0 p.size.data_size live (omega arith) in
    (d, found, omega (arith, room))

-- Setting a bit within the data section of a struct does not panic. That bit then holds the value,
-- and every other bit of the struct holds what it held before; the rest of the message is as after a
-- store of one byte.
pub set_field_bit-field_bit :
    (m : Message) (p : Struct) (n : ℕ) (v : Bool)
    → IsMemory m
    → IsLive m p
    → n < p.size.data_size * 8
    → (m' : Message) × (b : ℕ) × (set_field_bit m (some p) n v ≡ ok m')
      × IsStored m 1 p.seg (p.off + n / 8) b m'
      × ((k : ℕ)
          → k < p.size.data_size * 8
          → field_bit m' (some p) k ≡ (if n == k then ok v else field_bit m (some p) k))
set_field_bit-field_bit m p n v w live inside =
    let (m', b, done, s, bits) =
      change_bit-get_bit m p.seg p.off p.size.data_size n v w (section_inside m p live) inside in
    (
      m',
      b,
      set_field_bit_lem m p w live n inside v ∙ done,
      s,
      λ k within.
          field_bit_lem m' p s.memory (IsLive-stored p s live) k within
          ∙ rw (field_bit_lem m p w live k within) (bits k within),
    )
