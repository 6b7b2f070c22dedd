-- ===== src/Copying/Keeps.antt =====
-- segment.go: what a copy changes of the message that it is made in, which has one segment.
use mathlib.Core.Option.{some-injective}
use go_capnp.Slice.ReadWrite.{read_splice, region_in_bounds_exact}
use go_capnp.Slice.Bytes.{length-splice, splice-IsBytes}
use go_capnp.Slice.{Slice, IsSlice, IsBytes, splice}
use go_capnp.Copying.{put_bytes, Message, load}
use go_capnp.Builder.Extends.{IsBuilder-stored, IsBuilder-IsMemory, IsBuilder}
use go_capnp.Base.{ℕ, ◌+◌, ◌≤◌, ◌≡◌, ◌⊎◌, inl, inr, refl, arith, some, get_elem?, length, List}
use go_capnp.Base.{ap, sym, ◌∙◌, length-set}
use go_capnp.Memory.Stores.{Apart, IsMemory, set_found, IsStored, get_elem?-lt, after}
use go_capnp.Memory.Stores.{after-IsMemory, found_lengths, same_or_other, other-load, after-load}
use go_capnp.Memory.Stores.{before-load}
use go_capnp.Message.{Message}
use go_capnp.Segment.Resolve.{InSegment}
use go_capnp.Memory.{load}

-- Only the n bytes at `off` may differ, of what was in the message.
pub record Keeps (m : Message) (off n : ℕ) (m' : Message) : Type 0 where
  pub builder : IsBuilder m'
  pub single : length m'.segs ≤ 1
  pub lengths :
      (id : ℕ) (d : Slice)
      → get_elem? m.segs id ≡ some d
      → (d' : Slice) × (get_elem? m'.segs id ≡ some d') × (d.len ≤ d'.len)
  pub kept :
      (k seg a : ℕ) → InSegment m seg a k → Apart 0 off n seg a k → load k m' seg a ≡ load k m seg a

pub InSegment-Keeps :
    {m m' : Message} {off n : ℕ} (seg a k : ℕ)
    → Keeps m off n m'
    → InSegment m seg a k
    → InSegment m' seg a k
InSegment-Keeps seg a k h (d, found, room) =
    let (d', found', up) = h.lengths seg d found in (d', found', omega (arith, room, up))

pub Keeps-trans :
    {m m' m'' : Message} {off n : ℕ} (off' n' : ℕ)
    → Keeps m off n m'
    → Keeps m' off' n' m''
    → ((k seg a : ℕ) → InSegment m seg a k → Apart 0 off n seg a k → Apart 0 off' n' seg a k)
    → Keeps m off n m''
Keeps-trans off' n' h g within = record {
  builder = g.builder;
  single = g.single;
  lengths = λ id d found.
      let (d', found', up) = h.lengths id d found in
      let (d'', found'', up') = g.lengths id d' found' in (d'', found'', omega (arith, up, up'));
  kept = λ k seg a inside apart.
      g.kept k seg a (InSegment-Keeps seg a k h inside) (within k seg a inside apart)
      ∙ h.kept k seg a inside apart;
}

-- A smaller region.
pub narrower :
    (off n off' n' : ℕ)
    → off ≤ off'
    → off' + n' ≤ off + n
    → (k seg a : ℕ) → Apart 0 off n seg a k
    → Apart 0 off' n' seg a k
narrower off n off' n' low high k seg a (inl other) = inl other
narrower off n off' n' low high k seg a (inr (inl before)) = inr (inl (omega (arith, before, low)))
narrower off n off' n' low high k seg a (inr (inr behind)) = inr (inr (omega (arith, behind, high)))

pub Keeps-refl : (m : Message) (off n : ℕ) → IsBuilder m → length m.segs ≤ 1 → Keeps m off n m
Keeps-refl m off n w single = record {
  builder = w;
  single = single;
  lengths = λ id d e. (d, e, omega arith);
  kept = λ k seg a inside apart. refl;
}

pub Keeps-inner :
    {m m' m'' : Message} {off n : ℕ} (off' n' : ℕ)
    → Keeps m off n m'
    → Keeps m' off' n' m''
    → off ≤ off'
    → off' + n' ≤ off + n
    → Keeps m off n m''
Keeps-inner {off} {n} off' n' h g low high =
    Keeps-trans off' n' h g λ k seg a inside apart. narrower off n off' n' low high k seg a apart

-- What is done first may also be the smaller.
pub Keeps-outer :
    {m m' m'' : Message} {off n : ℕ} (off' n' : ℕ)
    → Keeps m off' n' m'
    → Keeps m' off n m''
    → off ≤ off'
    → off' + n' ≤ off + n
    → Keeps m off n m''
Keeps-outer {off} {n} off' n' h g low high = record {
  builder = g.builder;
  single = g.single;
  lengths = λ id d found.
      let (d', found', up) = h.lengths id d found in
      let (d'', found'', up') = g.lengths id d' found' in (d'', found'', omega (arith, up, up'));
  kept = λ k seg a inside apart.
      g.kept k seg a (InSegment-Keeps seg a k h inside) apart
      ∙ h.kept k seg a inside (narrower off n off' n' low high k seg a apart);
}

pub stored-Keeps :
    {m m' : Message} {n off v : ℕ}
    → IsBuilder m
    → length m.segs ≤ 1
    → IsStored m n 0 off v m'
    → Keeps m off n m'
stored-Keeps w single t = record {
  builder = IsBuilder-stored t w;
  single = omega (arith, t.count, single);
  lengths = λ id d found.
      let (d', found', same) = t.lengths id d found in (d', found', omega (arith, same));
  kept = t.kept;
}

-- Bytes put into the segment.
module _ (m : Message) (d : Slice) (off : ℕ) (bytes : List ℕ) (w : IsBuilder m)
    (single : length m.segs ≤ 1) (found : get_elem? m.segs 0 ≡ some d)
    (room : off + length bytes ≤ d.len) (valid : IsBytes bytes) where
  abbrev t : Slice
  t = record d { mem = splice d.mem off bytes }

  is_slice : IsSlice d
  is_slice = w.segments.slices 0 d found

  in_mem : off + length bytes ≤ length d.mem
  in_mem = omega (arith, room, is_slice.within)

  t-IsSlice : IsSlice t
  t-IsSlice = record {
    within = omega (arith, length-splice d.mem bytes off in_mem, is_slice.within);
    bytes = splice-IsBytes d.mem bytes off is_slice.bytes valid;
  }

  memory : IsMemory (after m 0 d t found refl)
  memory = after-IsMemory m 0 d t found refl (IsBuilder-IsMemory m w) t-IsSlice

  pub put_bytes-Keeps : (n : ℕ) → length bytes ≤ n → Keeps m off n (put_bytes m 0 d off bytes)
  put_bytes-Keeps n fits = record {
    builder = record {
      segments = record { slices = memory.slices; small = memory.small };
      whole = λ id e here. elim (set_found m.segs 0 t id e (get_elem?-lt m.segs 0 found) here) [
        | inl same ↦ rw same (w.whole 0 d found)
        | inr old ↦ w.whole id e old
      ];
    };
    single = omega (arith, length-set m.segs 0 t, single);
    lengths = λ id e here.
        let (e', here', same) = found_lengths m 0 d t found refl id e here in
        (e', here', omega (arith, same));
    kept = λ k seg a (e, here, inside) apart. elim (same_or_other 0 seg) [
      | inr other ↦ other-load m 0 d t found refl k seg a other
      | inl same ↦
          let same_slice : e ≡ d =
            some-injective _ _ (sym here ∙ ap (get_elem? m.segs) (sym same) ∙ found) in
          let low : a + k ≤ d.len = rw same_slice at inside in
          let seen = (region_in_bounds_exact d a k (w.segments.small 0 d found)).1 low in
          let beside : (a + k ≤ off) ⊎ (off + length bytes ≤ a) =
            ground (arith, apart, same, fits) in
          rw (← same) (
            after-load m 0 d t found refl k a
              (read_splice d off bytes k a is_slice seen beside in_mem)
            ∙ sym (before-load m 0 d t found refl k a))
    ];
  }
