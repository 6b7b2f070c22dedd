-- ===== src/Segment/Resolve.antt =====
-- Far pointers: `resolveFarPointer` does not panic on any message, and stays within it.
use go_capnp.Base.{ℕ, ◌+◌, ◌^◌, ◌≤◌, ◌<◌, ◌≡◌, refl, arith, true, some, none, get_elem?, ◌==◌}
use go_capnp.Base.{==_iff, if◌then◌else◌, Option, inl, inr, Bool-cases}
use go_capnp.Base.Int.{pos}
use go_capnp.Base.Result.{Ensures, Ensures-bind, Ensures-require, Ensures-wrap, Ensures-ok}
use go_capnp.Base.Result.{returns, fails}
use go_capnp.Address.{add_size}
use go_capnp.Slice.{Slice, IsSlice, region_in_bounds, read_raw_pointer}
use go_capnp.Slice.ReadWrite.{read_total}
use go_capnp.Message.{Message, Segment, loaded}
use go_capnp.RawPointer.{pointer_type, far_pointer, double_far_pointer, with_offset}
use go_capnp.RawPointer.Fields.{with_offset_sum}
use go_capnp.RawPointer.Landing.{landing_pad_sum}
use go_capnp.Segment.{lookup_segment, resolve_double_far, resolve_far, resolve_near}
use go_capnp.Segment.{resolve_far_pointer}

-- Every segment that is loaded is a slice of bytes.
abbrev pub IsMessage : Message → Type 0
IsMessage m = (id : ℕ) (d : Slice) → get_elem? m.segs id ≡ some d → IsSlice d

-- A segment of the message.
pub record IsLoaded (m : Message) (s : Segment) : Type 0 where
  pub found : get_elem? m.segs s.id ≡ some s.bytes
  pub slice : IsSlice s.bytes

-- The n bytes at `off` lie within the length of the message's segment `seg`.
abbrev pub InSegment : Message → ℕ → ℕ → ℕ → Type 0
InSegment m seg off n = (d : Slice) × (get_elem? m.segs seg ≡ some d) × (off + n ≤ d.len)

loaded-IsLoaded :
    (m : Message) (id : ℕ) (o : Option Slice)
    → IsMessage m
    → get_elem? m.segs id ≡ o
    → Ensures (IsLoaded m) (loaded id o)
loaded-IsLoaded m id none h e = fails
loaded-IsLoaded m id (some d) h e = returns (record { found = e; slice = h id d e })

pub lookup_segment-IsLoaded :
    (m : Message) (s : Segment) (id : ℕ)
    → IsMessage m
    → IsLoaded m s
    → Ensures (IsLoaded m) (lookup_segment m s id)
unfolding lookup_segment
lookup_segment-IsLoaded m s id h l = elim (Bool-cases (s.id == id)) [
  | inl same ↦ rw same (returns l)
  | inr other ↦ rw other (loaded-IsLoaded m id (get_elem? m.segs id) h refl)
]

-- A checked read of a pointer gives a 64-bit number.
pub read_raw_pointer-lt :
    (m : Message) (s : Segment) (addr : ℕ)
    → IsLoaded m s
    → region_in_bounds s.bytes addr 8 ≡ true
    → Ensures (λ v. v < 2 ^ 64) (read_raw_pointer s.bytes addr)
unfolding read_raw_pointer
read_raw_pointer-lt m s addr l h =
    let (v, e, lt) = read_total 8 s.bytes addr l.slice h in Ensures-ok (λ v. v < 2 ^ 64) e lt

-- Where `resolveFarPointer` ends: a segment of the message and a 64-bit pointer.
abbrev pub IsResolved : Message → Segment × ℕ × ℕ → Type 0
IsResolved m r = IsLoaded m r.0 × (r.2 < 2 ^ 64)

first_word :
    (s : Slice) (addr : ℕ) → region_in_bounds s addr 16 ≡ true → region_in_bounds s addr 8 ≡ true
unfolding region_in_bounds
first_word s addr h = ground arith

second_word :
    (s : Slice) (addr : ℕ)
    → region_in_bounds s addr 16 ≡ true
    → region_in_bounds s (add_size addr 8).0 8 ≡ true
unfolding region_in_bounds
second_word s addr h = ground arith

with_offset-lt : (p n : ℕ) → p < 2 ^ 64 → with_offset p (pos n) < 2 ^ 64
with_offset-lt p n h = omega (arith, with_offset_sum p (pos n))

resolve_double_far-IsResolved :
    (m : Message) (s : Segment) (val : ℕ)
    → IsMessage m
    → IsLoaded m s
    → Ensures (IsResolved m) (resolve_double_far m s val)
unfolding resolve_double_far
resolve_double_far-IsResolved m s val h l =
    Ensures-bind (IsLoaded m) (Ensures-wrap _ (lookup_segment-IsLoaded m s _ h l)) λ pad lp.
      Ensures-require _ _ λ room.
        Ensures-bind (λ v. v < 2 ^ 64)
          (read_raw_pointer-lt m pad _ lp (first_word pad.bytes _ room))
          λ far far_lt. Ensures-require _ _ λ is_far. Ensures-require _ _ λ fits.
            Ensures-bind (λ v. v < 2 ^ 64)
              (read_raw_pointer-lt m pad _ lp (second_word pad.bytes _ room))
              λ tag tag_lt. Ensures-require _ _ λ is_tag.
                Ensures-bind (IsLoaded m) (Ensures-wrap _ (lookup_segment-IsLoaded m s _ h l))
                  λ dst ld. returns (
                    ld,
                    rw (landing_pad_sum far tag ((==_iff _ _).0 is_far))
                        (with_offset-lt tag _ tag_lt),
                  )

resolve_far-IsResolved :
    (m : Message) (s : Segment) (val : ℕ)
    → IsMessage m
    → IsLoaded m s
    → Ensures (IsResolved m) (resolve_far m s val)
unfolding resolve_far
resolve_far-IsResolved m s val h l =
    Ensures-bind (IsLoaded m) (Ensures-wrap _ (lookup_segment-IsLoaded m s _ h l)) λ dst ld.
      Ensures-require _ _ λ room. Ensures-require _ _ λ fits.
        Ensures-bind (λ v. v < 2 ^ 64) (read_raw_pointer-lt m dst _ ld room)
          λ near lt. returns (ld, lt)

-- `resolveFarPointer` does not panic at a pointer within its segment, and ends at a segment of the
-- message.
pub resolve_far_pointer-IsResolved :
    (m : Message) (s : Segment) (paddr : ℕ)
    → IsMessage m
    → IsLoaded m s
    → region_in_bounds s.bytes paddr 8 ≡ true
    → Ensures (IsResolved m) (resolve_far_pointer m s paddr)
unfolding resolve_far_pointer resolve_near
resolve_far_pointer-IsResolved m s paddr h l room =
    Ensures-bind (λ v. v < 2 ^ 64) (read_raw_pointer-lt m s paddr l room) cases
  where
    cases :
        (val : ℕ)
        → val < 2 ^ 64
        → Ensures (IsResolved m) (
            if pointer_type val == double_far_pointer
            then resolve_double_far m s val
            else if pointer_type val == far_pointer
            then resolve_far m s val
            else resolve_near s paddr val)
    cases val lt = elim (Bool-cases (pointer_type val == double_far_pointer)) [
      | inl double ↦ rw double (resolve_double_far-IsResolved m s val h l)
      | inr other ↦ rw other (elim (Bool-cases (pointer_type val == far_pointer)) [
        | inl far ↦ rw far (resolve_far-IsResolved m s val h l)
        | inr near ↦ rw near (Ensures-require _ _ λ fits. returns (l, lt))
      ])
    ]
