-- ===== src/Copying/Reads.antt =====
-- segment.go: what a copy reads from the message that it copies from, whose bytes may be anything.
use go_capnp.Slice.ReadWrite.{region_in_bounds_exact}
use go_capnp.Base.{ℕ, ◌+◌, ◌≤◌, ◌≡◌, arith, some, get_elem?, List, ap, sym, ◌∙◌}
use go_capnp.Base.Result.{Result, ok, err, panic, Ensures, returns, fails, Ensures-and}
use go_capnp.Segment.{null, of_struct, of_list, of_interface, Ptr, read_ptr}
use go_capnp.Memory.Stores.{IsMemory}
use go_capnp.Message.{Message, read_limit, Segment}
use go_capnp.Segment.Resolve.{InSegment, IsMessage, IsLoaded}
use go_capnp.Copying.{World, read_source, taken}
use go_capnp.Segment.Amplified.{read_size, IsCharged, read_ptr-IsCharged}
use go_capnp.Segment.Safe.{IsSafe, IsStructOf, IsListOf, read_ptr-IsSafe}
use go_capnp.Segment.Shapes.{IsSize, IsShaped, IsShapedList, read_ptr-shape}

abbrev pub world : Message → Message → List ℕ → List ℕ → World
world m s cs ts = record { dst = m; src = some s; clients = cs; src_clients = ts }

-- A pointer of the message: what it refers to lies whole in it, with a size of the wire format.
abbrev pub IsSource : Message → Ptr → Type 0
IsSource o null = Unit
IsSource o (of_struct st) = IsStructOf o st × IsSize st.size
IsSource o (of_list l) = IsListOf o l × IsShapedList l
IsSource o (of_interface seg c) = Unit

-- The message that is copied from has the segments of o, and a read limit of at most n.
pub record IsAt (o : Message) (n : ℕ) (s : Message) : Type 0 where
  pub segs : s.segs ≡ o.segs
  pub limit : read_limit s ≤ n

pub InSegment-same :
    (o s : Message) (seg a k : ℕ) → s.segs ≡ o.segs → InSegment s seg a k → InSegment o seg a k
InSegment-same o s seg a k e (d, found, room) =
    (d, ap (λ segs. get_elem? segs seg) (sym e) ∙ found, room)

IsSource-from :
    (o s : Message) (depth : ℕ) (p : Ptr)
    → s.segs ≡ o.segs
    → IsSafe s depth p
    → IsShaped p
    → IsSource o p
IsSource-from o s depth null e h shape = tt
IsSource-from o s depth (of_struct st) e (inside, less) (size, own) =
    (InSegment-same o s st.seg st.off _ e inside, size)
IsSource-from o s depth (of_list l) e (list, less) shape = (
  record {
    inside = InSegment-same o s l.seg l.off _ e list.inside;
    short = list.short;
    counted = list.counted;
  },
  shape,
)
IsSource-from o s depth (of_interface seg c) e h shape = tt

-- What a read of the source leaves: a pointer of it, for which its limit has paid.
pub data IsRead (o m : Message) (cs ts : List ℕ) (n : ℕ) : Ptr × World → Type 0 where
  read :
      {p : Ptr} {s : Message}
      → IsSource o p
      → IsAt o n s
      → read_size p + read_limit s ≤ n
      → IsRead o m cs ts n (p, world m s cs ts)

pub after_read :
    {o m : Message} {cs ts : List ℕ} {n : ℕ} {x : Ptr × World} {Q : World → Type 0}
    (f : Ptr × World → Result World)
    → ((p : Ptr) (s : Message)
        → IsSource o p
        → IsAt o n s
        → read_size p + read_limit s ≤ n
        → Ensures Q (f (p, world m s cs ts)))
    → IsRead o m cs ts n x
    → Ensures Q (f x)
after_read f k (read {p} {s} h a paid) = k p s h a paid

module _ (o m s : Message) (cs ts : List ℕ) (n : ℕ) (w : IsMemory o) (a : IsAt o n s) where
  taken-IsRead :
      (depth : ℕ) (r : Result Ptr × Message)
      → Ensures (λ p. IsSafe s depth p × IsShaped p) r.0
      → IsCharged s r
      → Ensures (IsRead o m cs ts n) (taken (world m s cs ts) r)
  taken-IsRead depth (ok p, s') (returns (safe, shape)) c = returns (
      read (IsSource-from o s depth p a.segs safe shape)
        (record { segs = c.segs ∙ a.segs; limit = omega (arith, c.limit, a.limit) })
        (omega (arith, c.limit, a.limit)))
  taken-IsRead depth (err e, s') h c = fails
  taken-IsRead depth (panic e, s') h c = elim h [ ]

  -- A pointer of the source is read without a panic.
  pub read_source-IsRead :
      (seg addr depth : ℕ)
      → InSegment o seg addr 8
      → Ensures (IsRead o m cs ts n) (read_source (world m s cs ts) seg addr depth)
  read_source-IsRead seg addr depth (d, found, room) =
      let here : get_elem? s.segs seg ≡ some d = ap (λ segs. get_elem? segs seg) a.segs ∙ found in
      let valid : IsMessage s =
        λ id e there. w.slices id e (ap (λ segs. get_elem? segs id) (sym a.segs) ∙ there) in
      let x : Segment = record { id = seg; bytes = d } in
      let loaded : IsLoaded s x = record { found = here; slice = w.slices seg d found } in
      let seen = (region_in_bounds_exact d addr 8 (w.small seg d found)).1 room in
      rw here (
        taken-IsRead depth (read_ptr s x addr depth)
          (Ensures-and _ _ (read_ptr-IsSafe s x addr depth valid loaded seen)
            (read_ptr-shape s x addr depth valid loaded seen))
          (read_ptr-IsCharged s x addr depth))
