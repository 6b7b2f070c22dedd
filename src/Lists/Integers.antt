-- ===== src/Lists/Integers.antt =====
-- list.go: the elements of the lists of integers, by the integer's size and signedness.
use go_capnp.Base.{ℕ, Option, none, some, if◌then◌else◌, ltb, ◌%◌, ◌^◌, ◌*◌, ◌-◌}
use go_capnp.Base.Int.{ℤ, pos, negsuc}
use go_capnp.Base.Result.{Result, ok, err, panic, ◌>>=◌}
use go_capnp.Message.{Message}
use go_capnp.Segment.{ListRef}
use go_capnp.Memory.{load, store}
use go_capnp.Lists.{primitive_elem, data_of}

abbrev load_or_zero : ℕ → Message → Option ListRef → Result ℕ → Result ℕ
load_or_zero n m none r = ok 0
load_or_zero n m (some l) (ok addr) = load n m l.seg addr
load_or_zero n m (some l) (err e) = ok 0
load_or_zero n m (some l) (panic s) = panic s

-- The Go code panics with the error itself.
abbrev store_or_panic : ℕ → Message → Option ListRef → Result ℕ → ℕ → Result Message
store_or_panic n m l (panic s) v = panic s
store_or_panic n m l (err e) v = panic "mismatched list element size"
store_or_panic n m none (ok addr) v = panic "invalid memory address or nil pointer dereference"
store_or_panic n m (some l) (ok addr) v = store n m l.seg addr v

-- The At and the Set that the lists of integers of n bytes share.
unfoldable pub at_uint : ℕ → Message → Option ListRef → ℤ → Result ℕ
at_uint n m l i = load_or_zero n m l (primitive_elem l i (data_of n))

unfoldable pub set_at_uint : ℕ → Message → Option ListRef → ℤ → ℕ → Result Message
set_at_uint n m l i v = store_or_panic n m l (primitive_elem l i (data_of n)) v

-- The signed integer of n bytes with the same bits, and its bits.
unfoldable pub to_signed : ℕ → ℕ → ℤ
to_signed n v = if ltb v (2 ^ (8 * n - 1)) then pos v else negsuc (2 ^ (8 * n) - 1 - v)

unfoldable pub to_unsigned : ℕ → ℤ → ℕ
to_unsigned n (pos v) = v % 2 ^ (8 * n)
to_unsigned n (negsuc v) = 2 ^ (8 * n) - 1 - v % 2 ^ (8 * n)

unfoldable pub at_int : ℕ → Message → Option ListRef → ℤ → Result ℤ
at_int n m l i = do v ← at_uint n m l i; ok (to_signed n v)

unfoldable pub set_at_int : ℕ → Message → Option ListRef → ℤ → ℤ → Result Message
set_at_int n m l i v = set_at_uint n m l i (to_unsigned n v)

abbrev uint8_at : Message → Option ListRef → ℤ → Result ℕ
uint8_at = at_uint 1

abbrev set_uint8_at : Message → Option ListRef → ℤ → ℕ → Result Message
set_uint8_at = set_at_uint 1

abbrev int8_at : Message → Option ListRef → ℤ → Result ℤ
int8_at = at_int 1

abbrev set_int8_at : Message → Option ListRef → ℤ → ℤ → Result Message
set_int8_at = set_at_int 1

abbrev uint16_at : Message → Option ListRef → ℤ → Result ℕ
uint16_at = at_uint 2

abbrev set_uint16_at : Message → Option ListRef → ℤ → ℕ → Result Message
set_uint16_at = set_at_uint 2

abbrev int16_at : Message → Option ListRef → ℤ → Result ℤ
int16_at = at_int 2

abbrev set_int16_at : Message → Option ListRef → ℤ → ℤ → Result Message
set_int16_at = set_at_int 2

abbrev uint32_at : Message → Option ListRef → ℤ → Result ℕ
uint32_at = at_uint 4

abbrev set_uint32_at : Message → Option ListRef → ℤ → ℕ → Result Message
set_uint32_at = set_at_uint 4

abbrev int32_at : Message → Option ListRef → ℤ → Result ℤ
int32_at = at_int 4

abbrev set_int32_at : Message → Option ListRef → ℤ → ℤ → Result Message
set_int32_at = set_at_int 4

abbrev uint64_at : Message → Option ListRef → ℤ → Result ℕ
uint64_at = at_uint 8

abbrev set_uint64_at : Message → Option ListRef → ℤ → ℕ → Result Message
set_uint64_at = set_at_uint 8

abbrev int64_at : Message → Option ListRef → ℤ → Result ℤ
int64_at = at_int 8

abbrev set_int64_at : Message → Option ListRef → ℤ → ℤ → Result Message
set_int64_at = set_at_int 8
