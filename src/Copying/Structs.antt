-- ===== src/Copying/Structs.antt =====
-- struct.go: copyStruct, where the pointers are written without a panic.
use Prim.Native.String.{String}
use go_capnp.Copying.{wrap_error_at, copy_pointers, copy_struct, Message, Ptr, World, Struct}
use go_capnp.Copying.{total_size, pointer_address}
use go_capnp.Memory.Stores.{IsMemory}
use go_capnp.Base.{ℕ, zero, suc, ◌+◌, ◌-◌, ◌≤◌, ◌≡◌, ◌%◌, arith, some, get_elem?, List, min, ap}
use go_capnp.Base.{sym, ◌∙◌}
use go_capnp.Base.Result.{Result, Ensures, returns, fails, Ensures-bind, Ensures-weaken, ◌>>=◌}
use go_capnp.Copying.Keeps.{Keeps, InSegment-Keeps, Keeps-refl}
use go_capnp.Copying.Reads.{world, IsAt, IsSource, IsRead, after_read, read_source-IsRead}
use go_capnp.Copying.Sections.{After, After-part, after_world, IsTargetOf, Keeps-IsTargetOf}
use go_capnp.Copying.Sections.{widened-After, copy_data-After, zero_pointers-After}
use go_capnp.Message.{Message, read_limit}
use go_capnp.Segment.{Ptr, Struct}
use go_capnp.Segment.Amplified.{read_size}
use go_capnp.StructFields.Access.{IsLive}
use go_capnp.Segment.Resolve.{InSegment}
use go_capnp.Address.{total_size}
use go_capnp.Address.Bounds.{total_size_exact}
use go_capnp.Root.Setting.{pointer_address_lem}
use go_capnp.Builder.Extends.{IsBuilder-IsMemory}
use go_capnp.StructFields.{pointer_address}

pub Ensures-wrap_at {ℓ} :
    {A : Type ℓ} {P : A → Type 0} (prefix : String) (i : ℕ) {r : Result A}
    → Ensures P r
    → Ensures P (wrap_error_at prefix i r)
unfolding wrap_error_at
Ensures-wrap_at prefix i (returns h) = returns h
Ensures-wrap_at prefix i fails = fails

bind_read :
    {o m : Message} {cs ts : List ℕ} {n : ℕ} {r : Result (Ptr × World)} {Q : World → Type 0}
    (f : Ptr × World → Result World)
    → Ensures (IsRead o m cs ts n) r
    → ((p : Ptr) (s : Message)
        → IsSource o p
        → IsAt o n s
        → read_size p + read_limit s ≤ n
        → Ensures Q (f (p, world m s cs ts)))
    → Ensures Q (r >>= f)
bind_read {o} {m} {cs} {ts} {n} f e k = Ensures-bind (IsRead o m cs ts n) e λ x h. after_read f k h

pub bind_part :
    {o m : Message} {ts : List ℕ} {off n limit : ℕ} {r : Result World} {Q : World → Type 0}
    (f : World → Result World)
    → Ensures (After o m ts off n limit) r
    → ((m' s : Message) (cs : List ℕ)
        → Keeps m off n m'
        → IsAt o limit s
        → Ensures Q (f (world m' s cs ts)))
    → Ensures Q (r >>= f)
bind_part {o} {m} {ts} {off} {n} {limit} f e k =
    Ensures-bind (After o m ts off n limit) e λ x h. After-part f k h

-- writePtr does not panic at a word of the message, for a pointer of the source whose size and what is left of
-- the source's read limit are at most n; and it changes only that word, of what was there.
abbrev pub Writes : Message → List ℕ → ℕ → (World → ℕ → ℕ → Ptr → Result World) → Type 0
Writes o ts n write =
    (m s : Message) (cs : List ℕ) (limit off : ℕ) (p : Ptr)
    → IsTargetOf m
    → IsAt o limit s
    → InSegment m 0 off 8
    → off % 8 ≡ 0
    → IsSource o p
    → read_size p + read_limit s ≤ n
    → Ensures (After o m ts off 8 limit) (write (world m s cs ts) 0 off p)

-- A struct to copy into.
pub record IsPlace (m : Message) (d : Struct) : Type 0 where
  pub first : d.seg ≡ 0
  pub live : IsLive m d
  pub aligned : d.off % 8 ≡ 0
  pub whole : d.size.data_size % 8 ≡ 0

pub IsPlace-Keeps :
    {m m' : Message} {off n : ℕ} (d : Struct) → Keeps m off n m' → IsPlace m d → IsPlace m' d
IsPlace-Keeps d h place = record {
  first = place.first;
  live = record {
    inside = InSegment-Keeps d.seg d.off _ h place.live.inside;
    sized = place.live.sized;
    counted = place.live.counted;
  };
  aligned = place.aligned;
  whole = place.whole;
}

module _ (o : Message) (ts : List ℕ) (w : IsMemory o) (n : ℕ)
    (write : World → ℕ → ℕ → Ptr → Result World) (writes : Writes o ts n write) (st : Struct)
    (source : IsLive o st) where
  at_first :
      (m s : Message) (cs : List ℕ) (limit off seg : ℕ) (p : Ptr)
      → seg ≡ 0
      → IsTargetOf m
      → IsAt o limit s
      → InSegment m 0 off 8
      → off % 8 ≡ 0
      → IsSource o p
      → read_size p + read_limit s ≤ n
      → Ensures (After o m ts off 8 limit) (write (world m s cs ts) seg off p)
  at_first m s cs limit off seg p first t a slot aligned src paid =
      rw first (writes m s cs limit off p t a slot aligned src paid)

  copy_pointers-After :
      (m s : Message) (cs : List ℕ) (limit : ℕ) (d : Struct) (left j : ℕ)
      → IsTargetOf m
      → IsAt o limit s
      → limit ≤ n
      → IsPlace m d
      → j + left ≤ d.size.pointer_count
      → j + left ≤ st.size.pointer_count
      → Ensures
          (After o m ts d.off (total_size d.size) limit)
          (copy_pointers write (world m s cs ts) d st left j)
  unfolding copy_pointers
  copy_pointers-After m s cs limit d zero j t a bound place fits fits' =
      returns (after_world (Keeps-refl m d.off (total_size d.size) t.builder t.single) a)
  copy_pointers-After m s cs limit d (suc left) j t a bound place fits fits' =
      let (e, found, room) = source.inside in
      let from = pointer_address_lem o st j w source (omega (arith, fits')) in
      let total' = total_size_exact st.size source.sized source.counted in
      let (e', found', room') = place.live.inside in
      let to =
        pointer_address_lem m d j (IsBuilder-IsMemory m t.builder) place.live
          (omega (arith, fits)) in
      let total = total_size_exact d.size place.live.sized place.live.counted in
      let at_zero : get_elem? m.segs 0 ≡ some e' =
        ap (get_elem? m.segs) (sym place.first) ∙ found' in
      bind_read _
        (Ensures-wrap_at "copy struct pointer " j (
          read_source-IsRead o m s cs ts limit w a st.seg (pointer_address st j) st.depth_limit
            (e, found, omega (arith, room, from, total', fits'))))
        λ p s1 src a1 paid.
          bind_part {o = o} {m = m} {off = pointer_address d j} {n = 8} _
            (Ensures-wrap_at "copy struct pointer " j (
              at_first m s1 cs limit (pointer_address d j) d.seg p place.first t a1
                (e', at_zero, omega (arith, room', to, total, fits))
                (omega (arith, to, place.aligned, place.whole)) src (omega (arith, paid, bound))))
            λ m2 s2 cs2 h a2.
              Ensures-weaken (After o m2 ts d.off (total_size d.size) limit)
                (widened-After o ts w m m2 d.off (total_size d.size) (pointer_address d j) 8 limit h
                  (omega (arith, to)) (omega (arith, to, total, fits)))
                (copy_pointers-After m2 s2 cs2 limit d left (j + 1) (Keeps-IsTargetOf h) a2 bound
                  (IsPlace-Keeps d h place) (omega (arith, fits)) (omega (arith, fits')))

  -- copyStruct into a struct of the message changes only that struct.
  pub copy_struct-After :
      (m s : Message) (cs : List ℕ) (limit : ℕ) (d : Struct)
      → IsTargetOf m
      → IsAt o limit s
      → limit ≤ n
      → IsPlace m d
      → Ensures
          (After o m ts d.off (total_size d.size) limit)
          (copy_struct write (world m s cs ts) (some d) (some st))
  unfolding copy_struct
  copy_struct-After m s cs limit d t a bound place =
      let (e, found, room) = source.inside in
      let total' = total_size_exact st.size source.sized source.counted in
      let (e', found', room') = place.live.inside in
      let total = total_size_exact d.size place.live.sized place.live.counted in
      let at_zero : get_elem? m.segs 0 ≡ some e' =
        ap (get_elem? m.segs) (sym place.first) ∙ found' in
      bind_part _
        (copy_data-After o ts w m s cs limit d st t a place.first
          (e', at_zero, omega (arith, room', total)) (e, found, omega (arith, room, total')))
        λ m1 s1 cs1 h1 a1.
          let place1 = IsPlace-Keeps d h1 place in
          Ensures-weaken (After o m1 ts d.off (total_size d.size) limit)
            (widened-After o ts w m m1 d.off (total_size d.size) d.off d.size.data_size limit h1
              (omega arith) (omega (arith, total)))
            (bind_part _
              (copy_pointers-After m1 s1 cs1 limit d
                (min st.size.pointer_count d.size.pointer_count) 0 (Keeps-IsTargetOf h1) a1 bound
                place1 (omega arith) (omega arith))
              λ m2 s2 cs2 h2 a2.
                Ensures-weaken (After o m2 ts d.off (total_size d.size) limit)
                  (widened-After o ts w m1 m2 d.off (total_size d.size) d.off (total_size d.size)
                    limit h2 (omega arith) (omega arith))
                  (zero_pointers-After o ts w m2 s2 cs2 limit d
                    (d.size.pointer_count - st.size.pointer_count) st.size.pointer_count
                    (Keeps-IsTargetOf h2) a2 place.first (IsPlace-Keeps d h2 place1).live
                    (omega arith)))
