-- ===== src/StructFields/Access.antt =====
-- Integer fields: what is set is read back, and nothing else changes.
use go_capnp.Base.{ℕ, ◌+◌, ◌^◌, ◌≤◌, ◌<◌, ◌≡◌, refl, arith, some, true, false, ltb, u32}
use go_capnp.Base.Result.{ok, panic, ◌>>=◌}
use go_capnp.Address.{is_valid, add_offset}
use go_capnp.Address.Bounds.{total_size_exact}
use go_capnp.Message.{Message}
use go_capnp.Segment.{Struct}
use go_capnp.Segment.Resolve.{InSegment}
use go_capnp.Segment.Safe.{IsStructOf}
use go_capnp.Memory.Stores.{IsMemory, IsStored, store_lem}
use go_capnp.StructFields.{data_address, field_uint, set_field_uint, load}
use go_capnp.Memory.{load}

-- A struct of the message, of a size that the format allows.
pub record IsLive (m : Message) (p : Struct) : Type 0 where
  pub inside : IsStructOf m p
  pub sized : is_valid p.size ≡ true
  pub counted : p.size.pointer_count < 2 ^ 16

-- The part of the segment that a struct's data section holds.
pub data_inside :
    (m : Message) (p : Struct) (off n : ℕ)
    → IsLive m p
    → off + n ≤ p.size.data_size
    → InSegment m p.seg (p.off + off) n
data_inside m p off n live inside =
    let (d, found, room) = live.inside in
    (d, found, omega (arith, room, total_size_exact p.size live.sized live.counted))

pub add_offset_lem :
    (m : Message) (p : Struct) (off n : ℕ)
    → IsMemory m
    → IsLive m p
    → off + n ≤ p.size.data_size
    → 1 ≤ n
    → add_offset p.off off ≡ ok (p.off + off)
unfolding add_offset is_valid
add_offset_lem m p off n w live inside some_bytes =
    let (d, found, room) = data_inside m p off n live inside in
    ground (arith, live.sized, w.small p.seg d found, room, inside, some_bytes)

pub data_address_lem :
    (m : Message) (p : Struct) (off n : ℕ)
    → IsMemory m
    → IsLive m p
    → off + n ≤ p.size.data_size
    → 1 ≤ n
    → data_address (some p) off n ≡ ok (p.off + off, true)
unfolding data_address is_valid ◌>>=◌
data_address_lem m p off n w live inside some_bytes =
    let within : ltb p.size.data_size (u32 (off + n)) ≡ false = ground (arith, live.sized) in
    rw (within, add_offset_lem m p off n w live inside some_bytes) refl

pub field_uint-loaded :
    (n : ℕ) (m : Message) (p : Struct) (off v : ℕ)
    → IsMemory m
    → IsLive m p
    → 1 ≤ n
    → off + n ≤ p.size.data_size
    → load n m p.seg (p.off + off) ≡ ok v
    → field_uint n m (some p) off ≡ ok v
unfolding field_uint ◌>>=◌
field_uint-loaded n m p off v w live some_bytes inside e =
    rw (data_address_lem m p off n w live inside some_bytes) e

-- Setting an integer of n bytes within the data section of a struct does not panic, and the field
-- then holds the value. The message keeps its well-formed segments and their lengths, and every
-- load of a region of the message that does not meet the field gives what it gave before.
pub set_field_uint-field_uint :
    (n : ℕ) (m : Message) (p : Struct) (off v : ℕ)
    → IsMemory m
    → IsLive m p
    → 1 ≤ n
    → off + n ≤ p.size.data_size
    → v < 256 ^ n
    → (m' : Message) × (set_field_uint n m (some p) off v ≡ ok m')
      × (field_uint n m' (some p) off ≡ ok v)
      × IsStored m n p.seg (p.off + off) v m'
unfolding set_field_uint field_uint ◌>>=◌
set_field_uint-field_uint n m p off v w live some_bytes inside lt =
    let (m', e, s) = store_lem n m p.seg (p.off + off) v w (data_inside m p off n live inside) lt in
    let place = data_address_lem m p off n w live inside some_bytes in
    (m', rw place e, rw place s.stored, s)

-- Beyond the data section, as for a field of a newer version of the schema, an integer reads as 0
-- and setting it panics.
pub field_uint_outside :
    (n : ℕ) (m : Message) (p : Struct) (off v : ℕ)
    → p.size.data_size < off + n
    → off + n < 2 ^ 32
    → (field_uint n m (some p) off ≡ ok 0)
      × (set_field_uint n m (some p) off v ≡ panic "capnp: set field outside struct boundaries")
unfolding set_field_uint field_uint data_address ◌>>=◌
field_uint_outside n m p off v beyond fits =
    let past : ltb p.size.data_size (u32 (off + n)) ≡ true = ground arith in
    (rw past refl, rw past refl)
