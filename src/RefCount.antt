-- ===== src/RefCount.antt =====
-- util/rc/ref.go: a reference-counted cell, the references to it, and how often its release function ran.
-- The count is the bits of an int32, which AddInt32 wraps. A reference is true while its cell is not nil.
-- Each call is one step: its atomic addition, and the call of the release function behind it.
pub mod Steps
pub mod Once
mod Tests
use go_capnp.Base.{ℕ, ◌+◌, ◌^◌, Bool, true, false, Option, none, some, List, [], ◌∷◌, ◌++◌, set}
use go_capnp.Base.{get_elem?, u32, ◌==◌, if◌then◌else◌, ◌-◌}
use go_capnp.Base.Result.{Result, ok, panic}

pub record Cell : Type 0 where
  pub refcount : ℕ
  pub refs : List Bool
  pub releases : ℕ

-- NewRef, with its one reference.
abbrev pub new_ref : Cell
new_ref = record { refcount = 1; refs = true ∷ []; releases = 0 }

-- Whether reference i is one, and not released: `IsValid`.
abbrev pub is_held : Option Bool → Bool
is_held none = false
is_held (some live) = live

abbrev pub is_live : Cell → ℕ → Bool
is_live c i = is_held (get_elem? c.refs i)

-- A new reference with the count that AddInt32 or the exchange leaves.
abbrev shared : Cell → Cell
shared c = record c { refcount = u32 (c.refcount + 1); refs = c.refs ++ (true ∷ []) }

-- Ref.AddRef.
unfoldable pub add_ref : Cell → ℕ → Result Cell
add_ref c i =
    if is_live c i then ok (shared c) else panic "called AddRef() on already-released Ref."

-- Release.
unfoldable pub release : Cell → ℕ → Cell
release c i =
    let val = u32 (c.refcount + (2 ^ 32 - 1)) in
    if is_live c i
    then record {
      refcount = val;
      refs = set c.refs i false;
      releases = if val == 0 then c.releases + 1 else c.releases;
    }
    else c

-- Steal: the new reference takes the place of the old one, also where that is nil.
unfoldable pub steal : Cell → ℕ → Cell
steal c i = record c { refs = set c.refs i false ++ (is_live c i ∷ []) }

-- Value: whether it does not panic.
unfoldable pub value : Cell → ℕ → Result (Unit {0})
value c i = if is_live c i then ok tt else panic "invalid memory address or nil pointer dereference"

-- Weak.
unfoldable pub weak : Cell → ℕ → Result (Unit {0})
weak c i = if is_live c i then ok tt else panic "Called Weak() on already-released Ref"

-- WeakRef.AddRef, as the one exchange that succeeds; the second part is Go's `ok`.
unfoldable pub add_weak_ref : Cell → Cell × Bool
add_weak_ref c = if c.refcount == 0 then (c, false) else (shared c, true)
