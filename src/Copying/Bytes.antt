-- ===== src/Copying/Bytes.antt =====
-- segment.go: the bytes of a list copied at once.
use go_capnp.Base.{ℕ, ◌+◌, ◌-◌, ◌≤◌, ◌≡◌, ◌&&◌, arith, some, true, get_elem?, List, length, take}
use go_capnp.Base.{drop, leb, ap, ◌∙◌, length-take}
use go_capnp.Base.Result.{ok, Ensures, returns, ◌>>=◌}
use go_capnp.Copying.{copy_list_bytes, put_bytes, Message, Slice, ListRef, add_size}
use go_capnp.Copying.Keeps.{Keeps, put_bytes-Keeps}
use go_capnp.Copying.Reads.{world, IsAt}
use go_capnp.Copying.Sections.{After, after_world, IsTargetOf}
use go_capnp.Slice.{range, Slice}
use go_capnp.Message.{Message}
use go_capnp.Segment.{ListRef}
use go_capnp.Memory.Stores.{IsMemory}
use go_capnp.Segment.Resolve.{InSegment}
use go_capnp.Address.{add_size}
use go_capnp.Slice.Bytes.{take-IsBytes, drop-IsBytes}

put_at_first :
    (o m s : Message) (cs ts : List ℕ) (limit seg off : ℕ) (e : Slice) (bytes : List ℕ) (sz : ℕ)
    → seg ≡ 0
    → IsAt o limit s
    → Keeps m off sz (put_bytes m 0 e off bytes)
    → Ensures (After o m ts off sz limit) (ok (world (put_bytes m seg e off bytes) s cs ts))
put_at_first o m s cs ts limit seg off e bytes sz first a kept =
    rw first (returns (after_world kept a))

-- Copying sz bytes from a place of the source into a place of the message changes only those bytes.
pub copy_list_bytes-After :
    (o m s : Message) (cs ts : List ℕ) (limit : ℕ) (d l : ListRef) (sz : ℕ)
    → IsMemory o
    → IsTargetOf m
    → IsAt o limit s
    → d.seg ≡ 0
    → InSegment m 0 d.off sz
    → InSegment o l.seg l.off sz
    → Ensures (After o m ts d.off sz limit) (copy_list_bytes (world m s cs ts) d l sz)
unfolding copy_list_bytes ◌>>=◌
copy_list_bytes-After o m s cs ts limit d l sz w t a first (e, found, room) (e', found', room') =
    let here : get_elem? s.segs l.seg ≡ some e' =
      ap (λ segs. get_elem? segs l.seg) a.segs ∙ found' in
    let there : get_elem? m.segs d.seg ≡ some e = ap (get_elem? m.segs) first ∙ found in
    let small = w.small l.seg e' found' in
    let valid = w.slices l.seg e' found' in
    let end : (add_size l.off sz).0 ≡ l.off + sz =
      unfold add_size in ground (arith, room', small) in
    let fits : (leb d.off e.len && (leb l.off (l.off + sz) && leb (l.off + sz) (length e'.mem)))
        ≡ true =
      ground (arith, room, room', valid.within) in
    let bytes : List ℕ = take (e.len - d.off) (range e'.mem l.off (l.off + sz)) in
    let count : length bytes ≤ sz = omega (
      arith,
      length-take (e.len - d.off) (range e'.mem l.off (l.off + sz)),
      length-take (l.off + sz - l.off) (drop l.off e'.mem),
    ) in
    let kept =
      put_bytes-Keeps m e d.off bytes t.builder t.single found (omega (arith, count, room))
        (take-IsBytes (e.len - d.off) _
          (take-IsBytes (l.off + sz - l.off) _ (drop-IsBytes l.off e'.mem valid.bytes)))
        sz count in
    rw (here, there, end)
      (rw fits (put_at_first o m s cs ts limit d.seg d.off e bytes sz first a kept))
