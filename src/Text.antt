-- ===== src/Text.antt =====
-- pointer.go: what a pointer holds as a struct, a list, an interface, text or data; list.go: NewText and
-- NewData. Text and data are lists of bytes, of which NewText ends with a NUL. A segment's data is not
-- nil, so that no part of it is.
pub mod RoundTrip
mod Tests
use go_capnp.Base.{[], ℕ, ◌+◌, ◌-◌, Bool, true, false, not, ◌&&◌, Option, none, some, List}
use go_capnp.Base.{length, take, set, get_or, u32, ◌==◌, if◌then◌else◌}
use go_capnp.Base.Int.{ℤ, to_u32, to_i32}
use go_capnp.Base.Result.{Result, ok, ◌>>=◌}
use go_capnp.Address.{is_one_byte}
use go_capnp.Slice.{Slice, slice, splice}
use go_capnp.Message.{Message}
use go_capnp.Segment.{Struct, ListRef, Ptr, null, of_struct, of_list, of_interface}
use go_capnp.Memory.{segment_bytes}
use go_capnp.Builder.Objects.{new_primitive_list}

-- Struct, List and Interface of a Ptr; an interface is its segment and capability.
abbrev pub as_struct : Ptr → Option Struct
as_struct null = none
as_struct (of_struct st) = some st
as_struct (of_list l) = none
as_struct (of_interface seg c) = none

abbrev pub as_list : Ptr → Option ListRef
as_list null = none
as_list (of_struct st) = none
as_list (of_list l) = some l
as_list (of_interface seg c) = none

abbrev pub as_interface : Ptr → Option (ℕ × ℕ)
as_interface null = none
as_interface (of_struct st) = none
as_interface (of_list l) = none
as_interface (of_interface seg c) = some (seg, c)

-- `isOneByteList`, of what List gives.
abbrev is_one_byte_list : Option ListRef → Bool
is_one_byte_list none = false
is_one_byte_list (some l) = is_one_byte l.size && not l.is_composite

abbrev held_bytes : Message → Option ListRef → Result (List ℕ)
held_bytes m none = ok []
held_bytes m (some l) = do d ← segment_bytes m l.seg; slice d l.off (to_u32 l.length)

-- The bytes before the NUL at the end, if there is one.
unfoldable pub terminated : List ℕ → Option (List ℕ)
terminated b =
    if length b == 0
    then none
    else if get_or b (length b - 1) 0 == 0
    then some (take (length b - 1) b)
    else none

-- `text`
unfoldable pub text : Message → Ptr → Result (Option (List ℕ))
text m p =
    if is_one_byte_list (as_list p)
    then (do b ← held_bytes m (as_list p); ok (terminated b))
    else ok none

abbrev or_default : List ℕ → Option (List ℕ) → List ℕ
or_default def none = def
or_default def (some b) = b

-- TextDefault and TextBytesDefault; Text and TextBytes have an empty default.
unfoldable pub text_default : Message → Ptr → List ℕ → Result (List ℕ)
text_default m p def = do t ← text m p; ok (or_default def t)

-- DataDefault; Data has an empty default.
unfoldable pub data_default : Message → Ptr → List ℕ → Result (List ℕ)
data_default m p def = if is_one_byte_list (as_list p) then held_bytes m (as_list p) else ok def

-- `copy(l.seg.slice(l.off, Size(len(v))), v)`
unfoldable pub copy_bytes : Message → ListRef → List ℕ → Result Message
copy_bytes m l v = do
  d ← segment_bytes m l.seg
  room ← slice d l.off (u32 (length v))
  ok (record m {
    segs = set m.segs l.seg (record d { mem = splice d.mem l.off (take (length room) v) });
  })

module _ (allocate : ℕ → List Slice → Result (ℕ × Slice)) (m : Message) (seg : ℕ) (v : List ℕ) where
  -- NewText and NewTextFromBytes.
  unfoldable pub new_text : Result (Message × ListRef)
  new_text = do
    (m', l) ← new_primitive_list allocate m seg 1 (to_i32 (length v + 1))
    m'' ← copy_bytes m' l v
    ok (m'', l)

  unfoldable pub new_data : Result (Message × ListRef)
  new_data = do
    (m', l) ← new_primitive_list allocate m seg 1 (to_i32 (length v))
    m'' ← copy_bytes m' l v
    ok (m'', l)
