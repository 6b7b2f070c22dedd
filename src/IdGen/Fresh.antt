-- ===== src/IdGen/Fresh.antt =====
-- rpc/idgen.go: an id that is in use is not given again before it is removed.
use mathlib.Core.Path.{subst}
use go_capnp.Base.Result.{ok-injective, ok, panic}
use go_capnp.IdGen.Bits.{bit-zero}
use go_capnp.Base.{◌%◌, if◌then◌else◌, List, [], ◌∷◌, ◌++◌, ℕ, ◌+◌, ◌^◌, ◌<◌, ◌≤◌, ◌≡◌, ◌≢◌, ◌⊎◌}
use go_capnp.Base.{◌↔◌, refl, arith, some, inl, inr, ap, sym, ◌∙◌, Bool-cases, ◌==◌, ◌-◌}
use go_capnp.IdGen.{IdGen, next_id, remove_id, remove, min_of, min_from}
use go_capnp.IdGen.Sets.{member, add_self, add_other, remove_self, remove_other}
use go_capnp.IdGen.Minimum.{AreWords, min_from_lem, add-AreWords, remove-AreWords}
use go_capnp.Memory.Stores.{same_or_other}

-- Given by next, and not removed since.
abbrev pub InUse : IdGen → ℕ → Type 0
InUse g n = (n < g.i) × (member g.free n ≡ 0)

-- A generator: only ids that it has given are free.
pub record IsIdGen (g : IdGen) : Type 0 where
  pub words : AreWords g.free
  pub below : (n : ℕ) → member g.free n ≡ 1 → n < g.i
  pub small : g.i < 2 ^ 32

-- The same ids in use, but for one.
abbrev pub SameBut : ℕ → IdGen → IdGen → Type 0
SameBut id g g' = (n : ℕ) → id ≢ n → InUse g' n ↔ InUse g n

-- What next returns: an id that was not in use and now is.
pub record IsNext (g : IdGen) (r : ℕ × IdGen) : Type 0 where
  pub valid : IsIdGen r.1
  pub fresh : ¬ InUse g r.0
  pub taken : InUse r.1 r.0
  pub others : SameBut r.0 g r.1

module _ (g : IdGen) (w : IsIdGen g) where
  reused : (m : ℕ) → member g.free m ≡ 1 → IsNext g (m, record g { free = remove g.free m })
  reused m on = record {
    valid = record {
      words = remove-AreWords g.free m w.words;
      below = λ n in_set. elim (same_or_other m n) [
        | inl same ↦
            absurd (omega (arith, in_set, remove_self g.free m, ap (member (remove g.free m)) same))
        | inr other ↦ w.below n (sym (remove_other g.free m n other) ∙ in_set)
      ];
      small = w.small;
    };
    fresh = λ (lt, off). absurd (omega (arith, on, off));
    taken = (w.below m on, remove_self g.free m);
    others = λ n other.
        let same = remove_other g.free m n other in
        (λ (lt, off). (lt, sym same ∙ off), λ (lt, off). (lt, same ∙ off));
  }

  new_one :
      ((n : ℕ) → member g.free n ≡ 0) → g.i < 2 ^ 32 - 1 → IsNext g (g.i, record g { i = g.i + 1 })
  new_one empty room = record {
    valid = record {
      words = w.words;
      below = λ n in_set. absurd (omega (arith, in_set, empty n));
      small = omega (arith, room);
    };
    fresh = λ (lt, off). absurd (omega (arith, lt));
    taken = (omega arith, empty g.i);
    others = λ n other.
        (λ (lt, off). (omega (arith, lt, other), off), λ (lt, off). (omega (arith, lt), off));
  }

  -- next of a generator panics where all of the ids below 2^32 - 1 are in use, and else returns an id that is
  -- not in use; that is in use then, and no other id changes.
  pub next_id-IsNext :
      ((id : ℕ) × (g' : IdGen) × (next_id g ≡ ok (id, g')) × IsNext g (id, g'))
      ⊎ ((next_id g ≡ panic "overflow ID") × ((n : ℕ) → n < 2 ^ 32 - 1 → InUse g n))
  unfolding next_id min_of
  next_id-IsNext = elim (min_from_lem g.free 0 w.words) [
    | inl (m, e, on) ↦
        let first : min_from g.free 0 ≡ some m = e ∙ ap some (omega arith) in
        inl (m, _, rw first refl, reused m on)
    | inr (e, empty) ↦ elim (Bool-cases (g.i == 2 ^ 32 - 1)) [
      | inl full ↦ inr (rw (e, full) refl, λ n lt. (ground (arith, lt, full), empty n))
      | inr room ↦ inl (g.i, _, rw (e, room) refl, new_one empty (ground (arith, room, w.small)))
    ]
  ]

  -- remove of an id in use leaves a generator for which it is not, and changes no other id.
  pub remove_id-InUse :
      (id : ℕ)
      → InUse g id
      → IsIdGen (remove_id g id) × (¬ InUse (remove_id g id) id) × SameBut id g (remove_id g id)
  unfolding remove_id
  remove_id-InUse id (lt, off) = (
    record {
      words = add-AreWords g.free id w.words;
      below = λ n in_set. elim (same_or_other id n) [
        | inl same ↦ omega (arith, lt, same)
        | inr other ↦ w.below n (sym (add_other g.free id n other) ∙ in_set)
      ];
      small = w.small;
    },
    λ (below, gone). absurd (omega (arith, gone, add_self g.free id)),
    λ n other.
        let same = add_other g.free id n other in
        (λ (below, gone). (below, sym same ∙ gone), λ (below, gone). (below, same ∙ gone)),
  )

abbrev pub same_id : ℕ → ℕ → ℕ
same_id n id = if n == id then 1 else 0

-- How often an id stands in a list.
abbrev pub count : ℕ → List ℕ → ℕ
count n [] = 0
count n (x ∷ ids) = same_id n x + count n ids

-- The generators that calls reach, with the ids that next has given and that were not removed since; only
-- such an id is removed.
pub data Live : IdGen → List ℕ → Type 0 where
  start : Live (record { i = 0; free = [] }) []
  given :
      {g g' : IdGen} {ids : List ℕ} (id : ℕ)
      → Live g ids
      → next_id g ≡ ok (id, g')
      → Live g' (id ∷ ids)
  removed :
      {g : IdGen} (id : ℕ) (front back : List ℕ)
      → Live g (front ++ (id ∷ back))
      → Live (remove_id g id) (front ++ back)

abbrev pub OnceInUse : IdGen → List ℕ → ℕ → Type 0
OnceInUse g ids n = (InUse g n × (count n ids ≡ 1)) ⊎ ((¬ InUse g n) × (count n ids ≡ 0))

count-middle :
    (n id : ℕ) (front back : List ℕ)
    → count n (front ++ (id ∷ back)) ≡ same_id n id + count n (front ++ back)
count-middle n id [] back = refl
count-middle n id (x ∷ front) back = omega (arith, count-middle n id front back)

same_id_self : (n : ℕ) → same_id n n ≡ 1
same_id_self n = ground arith

same_id_other : (n id : ℕ) → id ≢ n → same_id n id ≡ 0
same_id_other n id other = ground (arith, other)

-- From the id that a call is about, and from any other.
for_each :
    (g : IdGen) (ids : List ℕ) (id : ℕ)
    → OnceInUse g ids id
    → ((n : ℕ) → id ≢ n → OnceInUse g ids n)
    → (n : ℕ) → OnceInUse g ids n
for_each g ids id here elsewhere n = elim (same_or_other id n) [
  | inl same ↦ subst (OnceInUse g ids) same here
  | inr other ↦ elsewhere n other
]

changed :
    (g g' : IdGen) (ids ids' : List ℕ) (n : ℕ)
    → InUse g' n ↔ InUse g n
    → count n ids' ≡ count n ids
    → OnceInUse g ids n
    → OnceInUse g' ids' n
changed g g' ids ids' n (down, up) same (inl (used, once)) = inl (up used, same ∙ once)
changed g g' ids ids' n (down, up) same (inr (unused, gone)) =
    inr (λ u. unused (down u), same ∙ gone)

given_once :
    (g : IdGen) (ids : List ℕ) (id : ℕ) → ¬ InUse g id → OnceInUse g ids id → count id ids ≡ 0
given_once g ids id unused (inl (used, once)) = absurd (unused used)
given_once g ids id unused (inr (_, gone)) = gone

used_once :
    (g : IdGen) (ids : List ℕ) (id : ℕ)
    → 1 ≤ count id ids
    → OnceInUse g ids id
    → InUse g id × (count id ids ≡ 1)
used_once g ids id held (inl used) = used
used_once g ids id held (inr (_, gone)) = absurd (omega (arith, held, gone))

given-OnceInUse :
    (g g' : IdGen) (ids : List ℕ) (id : ℕ)
    → IsNext g (id, g')
    → ((n : ℕ) → OnceInUse g ids n)
    → (n : ℕ) → OnceInUse g' (id ∷ ids) n
given-OnceInUse g g' ids id next once =
    for_each g' (id ∷ ids) id
      (inl (next.taken, omega (arith, same_id_self id, given_once g ids id next.fresh (once id))))
      λ n other.
        changed g g' ids (id ∷ ids) n (next.others n other)
          (omega (arith, same_id_other n id other)) (once n)

removed-OnceInUse :
    (g : IdGen) (id : ℕ) (front back : List ℕ)
    → IsIdGen g
    → ((n : ℕ) → OnceInUse g (front ++ (id ∷ back)) n)
    → IsIdGen (remove_id g id) × ((n : ℕ) → OnceInUse (remove_id g id) (front ++ back) n)
removed-OnceInUse g id front back w once =
    let middle = λ (n : ℕ). count-middle n id front back in
    let (used, single) =
      used_once g (front ++ (id ∷ back)) id (omega (arith, middle id, same_id_self id)) (once id) in
    let (valid, gone, others) = remove_id-InUse g w id used in
    (
      valid,
      for_each (remove_id g id) (front ++ back) id
          (inr (gone, omega (arith, middle id, same_id_self id, single)))
          λ n other.
            changed g (remove_id g id) (front ++ (id ∷ back)) (front ++ back) n (others n other)
              (omega (arith, middle n, same_id_other n id other)) (once n),
    )

given-IsNext : (g g' : IdGen) (id : ℕ) → IsIdGen g → next_id g ≡ ok (id, g') → IsNext g (id, g')
given-IsNext g g' id w e = elim (next_id-IsNext g w) [
  | inl (id', g'', e', next) ↦ subst (IsNext g) (ok-injective (sym e' ∙ e)) next
  | inr (e', full) ↦ absurd (cc)
]

-- However next and remove are called, with only ids removed that next has given and that were not removed
-- since: each id that is so held is held once, never given to two holders at a time, and these ids are
-- the ones that are in use.
pub Live-OnceInUse :
    (g : IdGen) (ids : List ℕ) → Live g ids → IsIdGen g × ((n : ℕ) → OnceInUse g ids n)
Live-OnceInUse g ids start = (
  record {
    words = tt;
    below = λ n on. absurd (omega (arith, on, bit-zero (n % 64)));
    small = omega arith;
  },
  λ n. inr (λ (lt, off). absurd (omega (arith, lt)), refl),
)
Live-OnceInUse g ids (given {g = g0} {ids = ids0} id h e) =
    let (w, once) = Live-OnceInUse g0 ids0 h in
    let next = given-IsNext g0 g id w e in (next.valid, given-OnceInUse g0 g ids0 id next once)
Live-OnceInUse g ids (removed {g = g0} id front back h) =
    let (w, once) = Live-OnceInUse g0 (front ++ (id ∷ back)) h in
    removed-OnceInUse g0 id front back w once
