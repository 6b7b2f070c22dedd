-- ===== src/Message.antt =====
-- message.go: a message's loaded segments and its read limits. The segments are those of the arena.
pub mod Limits
mod Tests
use go_capnp.Base.{ℕ, ◌+◌, ◌-◌, ◌*◌, ◌%◌, ◌^◌, Bool, true, false, Option, none, some, List}
use go_capnp.Base.{length, u64, leb, ◌==◌, if◌then◌else◌, get_elem?}
use go_capnp.Base.Result.{Result, numbered, ok, err}
use go_capnp.Slice.{Slice}

pub record Message : Type 0 where
  pub segs : List Slice
  -- `none` until the first read: the sync.Once.
  pub rlimit : Option ℕ
  pub traverse_limit : ℕ
  pub depth_limit : ℕ

-- A *Segment: its id and its data.
pub record Segment : Type 0 where
  pub id : ℕ
  pub bytes : Slice

abbrev pub default_traverse_limit : ℕ
default_traverse_limit = 64 * 2 ^ 20

abbrev pub default_depth_limit : ℕ
default_depth_limit = 64

unfoldable pub init_read_limit : Message → ℕ
init_read_limit m = if m.traverse_limit == 0 then default_traverse_limit else m.traverse_limit

-- What `m.rlimit` holds once `rlimitInit` has run.
abbrev pub current_limit : Option ℕ → ℕ → ℕ
current_limit none start = start
current_limit (some n) start = n

unfoldable pub read_limit : Message → ℕ
unfolding init_read_limit
read_limit m = current_limit m.rlimit (init_read_limit m)

-- The compare-and-swap loop, as the one exchange that succeeds.
unfoldable pub can_read : Message → ℕ → Bool × Message
unfolding read_limit
can_read m sz =
    let curr = read_limit m in
    if leb sz curr
    then (true, record m { rlimit = some (curr - sz) })
    else (false, record m { rlimit = some 0 })

unfoldable pub reset_read_limit : Message → ℕ → Message
reset_read_limit m limit = record m { rlimit = some limit }

unfoldable pub unread : Message → ℕ → Message
unfolding read_limit
unread m sz = record m { rlimit = some (u64 (read_limit m + sz)) }

unfoldable pub message_depth_limit : Message → ℕ
message_depth_limit m = if m.depth_limit == 0 then default_depth_limit else m.depth_limit

-- The segment of a slice that an arena may hold under the id.
abbrev pub loaded : ℕ → Option Slice → Result Segment
loaded id none = err (numbered "segment " id ": out of bounds")
loaded id (some d) = ok (record { id = id; bytes = d })

-- Message.Segment.
unfoldable pub segment : Message → ℕ → Result Segment
segment m id = loaded id (get_elem? m.segs id)
