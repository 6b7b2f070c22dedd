-- ===== src/Root/Single.antt =====
-- message.go: messages of one segment, as they are built in one buffer and as a stream brings them.
use go_capnp.Base.{zero, suc, ℕ, ◌≡◌, ◌≤◌, ◌<◌, refl, some, true, get_elem?, arith, List, ◌∷◌}
use go_capnp.Base.{length, [], ◌%◌, ◌^◌, ap, ◌∙◌, none, ◌+◌, ◌==◌}
use go_capnp.Base.Result.{Result, ok, wrap_error, ◌>>=◌}
use mathlib.Core.Path.{subst}
use mathlib.Core.Option.{some-injective}
use go_capnp.Message.{Message}
use go_capnp.Arena.{has_capacity}
use go_capnp.Root.{new_message, reset, contents}
use go_capnp.Slice.{Slice, IsSlice}
use go_capnp.Address.{pad_to_word, max_segment_size, max_alloc_size}
use go_capnp.Memory.Stores.{IsStored, IsMemory}
use go_capnp.Base.Bits.{and_not}
use go_capnp.Builder.{cleared, alloc}
use go_capnp.Builder.Extends.{IsBuilder}
use go_capnp.Framing.{contents}
use go_capnp.Builder.Fresh.{IsFresh, alloc_in_place_lem}
use go_capnp.Framing.Header.{length-contents}

-- A message over some segments, and over one, without limits of its own.
abbrev pub over : List Slice → Message
over segs = record { segs = segs; rlimit = none; traverse_limit = 0; depth_limit = 0 }

abbrev pub one : Slice → Message
one s = over (s ∷ [])

one_segment :
    (s : Slice) (id : ℕ) (d : Slice)
    → get_elem? (one s).segs id ≡ some d
    → (P : Slice → Type 0) → P s
    → P d
one_segment s zero d e P p = subst P (some-injective _ _ e) p
one_segment s (suc id) d e P p = absurd (cc)

pub one-IsMemory : (s : Slice) → IsSlice s → s.len ≤ max_segment_size → IsMemory (one s)
one-IsMemory s v small = record {
  slices = λ id d e. one_segment s id d e IsSlice v;
  small = λ id d e. one_segment s id d e (λ x. x.len ≤ max_segment_size) small;
}

pub one-IsBuilder :
    (s : Slice) → IsSlice s → s.len ≤ max_segment_size → s.len % 8 ≡ 0 → IsBuilder (one s)
one-IsBuilder s v small whole = record {
  segments = record {
    slices = (one-IsMemory s v small).slices;
    small = (one-IsMemory s v small).small;
  };
  whole = λ id d e. one_segment s id d e (λ x. x.len % 8 ≡ 0) whole;
}

-- A message of one segment of some length.
pub record IsSingle (len : ℕ) (m : Message) : Type 0 where
  pub slice : Slice
  pub only : m.segs ≡ slice ∷ []
  pub valid : IsSlice slice
  pub length_is : slice.len ≡ len

single_list :
    (segs : List Slice) (d : Slice) → get_elem? segs 0 ≡ some d → length segs ≡ 1 → segs ≡ d ∷ []
single_list [] d e h = absurd (cc)
single_list (s ∷ []) d e h = ap (λ x. x ∷ []) (some-injective _ _ e)
single_list (s ∷ t ∷ segs) d e h = absurd (omega arith)

pub one-IsSingle : (s : Slice) → IsSlice s → IsSingle s.len (one s)
one-IsSingle s v = record { slice = s; only = refl; valid = v; length_is = refl }

pub stored-IsSingle :
    (len : ℕ) (m : Message) (n seg off v : ℕ) (m' : Message)
    → IsSingle len m
    → IsStored m n seg off v m'
    → IsSingle len m'
stored-IsSingle len m n seg off v m' h t =
    let (d, found, same) = t.lengths 0 h.slice (ap (λ segs. get_elem? segs 0) h.only) in
    record {
      slice = d;
      only = single_list m'.segs d found (t.count ∙ ap length h.only);
      valid = t.memory.slices 0 d found;
      length_is = same ∙ h.length_is;
    }

has_room :
    (s : Slice) (sz : ℕ)
    → length s.mem < 2 ^ 32
    → s.len + sz ≤ length s.mem
    → has_capacity s sz ≡ true
unfolding has_capacity
has_room s sz small room = ground (arith, small, room)

-- An allocation in a message of one segment, which has the room.
pub alloc-one :
    (allocate : ℕ → List Slice → Result (ℕ × Slice)) (s : Slice) (sz : ℕ)
    → IsSlice s
    → s.len % 8 ≡ 0
    → sz ≤ max_alloc_size
    → pad_to_word sz ≡ sz
    → length s.mem ≤ max_segment_size
    → s.len + sz ≤ length s.mem
    → (alloc allocate (one s) 0 sz ≡ ok (one (cleared s (s.len + sz)), 0, s.len))
      × IsFresh (one s) sz (one (cleared s (s.len + sz)), 0, s.len)
alloc-one allocate s sz v whole fits pad small room =
    let (done, f) =
      alloc_in_place_lem allocate (one s) 0 sz s
        (one-IsBuilder s v (omega (arith, small, v.within)) whole) refl fits
        (rw pad (has_room s sz (omega (arith, small)) room))
        (rw pad (omega (arith, small, room))) in
    (rw pad at done, rw pad at f)

pub eight : pad_to_word 8 ≡ 8
unfolding pad_to_word and_not
eight = refl

-- NewMessage over one empty buffer with room for a word.
pub new_message_lem :
    (allocate : ℕ → List Slice → Result (ℕ × Slice)) (d : Slice)
    → IsSlice d
    → d.len ≡ 0
    → 8 ≤ length d.mem
    → length d.mem ≤ max_segment_size
    → new_message allocate (d ∷ []) ≡ ok (one (cleared d (d.len + 8)))
unfolding new_message reset ◌>>=◌ wrap_error
new_message_lem allocate d v empty room small =
    let (done, f) =
      alloc-one allocate d 8 v (omega (arith, empty)) (unfold max_alloc_size in omega arith) eight
        small (omega (arith, empty, room)) in
    let none_yet : (length (contents d) == 0) ≡ true =
      ground (arith, length-contents d v.within, empty) in
    rw none_yet (rw done refl)
