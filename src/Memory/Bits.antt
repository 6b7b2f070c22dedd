-- ===== src/Memory/Bits.antt =====
-- One bit of a region of the message: what is set is read back, and no other bit changes.
use go_capnp.Base.{ℕ, ◌+◌, ◌*◌, ◌/◌, ◌%◌, ◌^◌, ◌≤◌, ◌<◌, ◌≡◌, ◌≢◌, ◌⊎◌, inl, inr, refl, sym, ap}
use go_capnp.Base.{◌∙◌, arith, Bool, true, false, ◌==◌, if◌then◌else◌, Bool-cases}
use go_capnp.Base.BitTable.{has_bit, put_bit, has_bit-put_bit, put_bit-lt}
use go_capnp.Base.Result.{Result, ok, ◌>>=◌}
use go_capnp.Address.{bit_mask}
use go_capnp.Slice.ReadWrite.{read_total, region_in_bounds_exact}
use go_capnp.Message.{Message}
use go_capnp.Segment.Resolve.{InSegment}
use go_capnp.Memory.{load, store}
use go_capnp.Memory.Stores.{IsMemory, IsStored, store_lem}

-- Bit k of the bytes from base, as the code gets and sets it once it has the byte's address.
unfoldable pub get_bit : Message → ℕ → ℕ → ℕ → Result Bool
get_bit m seg base k = do b ← load 1 m seg (base + k / 8); ok (has_bit b (bit_mask k))

unfoldable pub change_bit : Message → ℕ → ℕ → ℕ → Bool → Result Message
change_bit m seg base k v = do
  b ← load 1 m seg (base + k / 8)
  store 1 m seg (base + k / 8) (put_bit b (bit_mask k) v)

-- A byte of a region of the message.
load_byte :
    (m : Message) (seg off : ℕ)
    → IsMemory m
    → InSegment m seg off 1
    → (b : ℕ) × (load 1 m seg off ≡ ok b) × (b < 256)
unfolding load ◌>>=◌
load_byte m seg off w (d, found, room) =
    let checked = (region_in_bounds_exact d off 1 (w.small seg d found)).1 room in
    let (b, e, lt) = read_total 1 d off (w.slices seg d found) checked in (b, rw found e, lt)

get_bit_lem :
    (m : Message) (seg base k b : ℕ)
    → load 1 m seg (base + k / 8) ≡ ok b
    → get_bit m seg base k ≡ ok (has_bit b (bit_mask k))
unfolding get_bit ◌>>=◌
get_bit_lem m seg base k b e = rw e refl

byte_inside :
    (m : Message) (seg base size k : ℕ)
    → InSegment m seg base size
    → k < size * 8
    → InSegment m seg (base + k / 8) 1
byte_inside m seg base size k (d, found, room) within = (d, found, omega (arith, room, within))

apart_bytes : (o i j : ℕ) → i ≢ j → (o + j + 1 ≤ o + i) ⊎ (o + i + 1 ≤ o + j)
apart_bytes o i j h = ground arith

-- Bit k once bit n is set to v in its byte b.
same_byte :
    (n k b : ℕ) (v : Bool) {after before : Result Bool}
    → n / 8 ≡ k / 8
    → b < 256
    → after ≡ ok (has_bit (put_bit b (bit_mask n) v) (bit_mask k))
    → before ≡ ok (has_bit b (bit_mask k))
    → after ≡ (if n == k then ok v else before)
unfolding bit_mask
same_byte n k b v same lt e e' =
    let changed = has_bit-put_bit v (n % 8) (k % 8) b (omega arith) (omega arith) lt in
    elim (Bool-cases (n == k)) [
      | inl equal ↦
          let place : (n % 8 == k % 8) ≡ true = ground (arith, equal) in
          rw equal (e ∙ ap ok (changed ∙ rw place refl))
      | inr different ↦
          let place : (n % 8 == k % 8) ≡ false = ground (arith, different, same) in
          rw different (e ∙ ap ok (changed ∙ rw place refl) ∙ sym e')
    ]

other_byte :
    (n k : ℕ) (v : Bool) {after before : Result Bool}
    → n / 8 ≢ k / 8
    → after ≡ before
    → after ≡ (if n == k then ok v else before)
other_byte n k v other e =
    let different : (n == k) ≡ false = ground (arith, other) in rw different e

pub change_bit-get_bit :
    (m : Message) (seg base size n : ℕ) (v : Bool)
    → IsMemory m
    → InSegment m seg base size
    → n < size * 8
    → (m' : Message) × (b : ℕ) × (change_bit m seg base n v ≡ ok m')
      × IsStored m 1 seg (base + n / 8) b m'
      × ((k : ℕ)
          → k < size * 8
          → get_bit m' seg base k ≡ (if n == k then ok v else get_bit m seg base k))
unfolding change_bit ◌>>=◌
change_bit-get_bit m seg base size n v w region inside =
    let here = byte_inside m seg base size n region inside in
    let (b, e, lt) = load_byte m seg (base + n / 8) w here in
    let b' = put_bit b (bit_mask n) v in
    let small : b' < 256 ^ 1 = unfold bit_mask in put_bit-lt v (n % 8) b (omega arith) lt in
    let (m', done, s) = store_lem 1 m seg (base + n / 8) b' w here small in
    (
      m',
      b',
      rw e done,
      s,
      λ k within. elim (Bool-cases (n / 8 == k / 8)) [
        | inl same ↦
            let byte : n / 8 ≡ k / 8 = ground arith in
            same_byte n k b v byte lt (get_bit_lem m' seg base k b' (rw byte at s.stored))
              (get_bit_lem m seg base k b (rw byte at e))
        | inr differ ↦
            let byte : n / 8 ≢ k / 8 = ground arith in
            let there = byte_inside m seg base size k region within in
            let (c, f, ltc) = load_byte m seg (base + k / 8) w there in
            other_byte n k v byte (
              get_bit_lem m' seg base k c (
                s.kept 1 seg (base + k / 8) there (inr (apart_bytes base (n / 8) (k / 8) byte)) ∙ f)
              ∙ sym (get_bit_lem m seg base k c f))
      ],
    )
