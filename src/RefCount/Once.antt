-- ===== src/RefCount/Once.antt =====
-- util/rc/ref.go: the release function runs once, when the last reference is released.
use mathlib.Core.Path.{subst}
use go_capnp.RefCount.Steps.{starts, goes_on, shares, releases, steals, revives, Reachable}
use go_capnp.Base.{refl, sym, zero, suc, [], ◌∷◌, List, ◌≡◌, ◌≤◌, Bool, ℕ, length, set, ◌++◌}
use go_capnp.Base.{if◌then◌else◌, false, ◌==◌, arith, ◌+◌, get_elem?, ◌<◌, ◌^◌, true, Bool-cases}
use go_capnp.Base.{inl, u32, ◌-◌, inr, length-append, ◌∙◌, length-set, ==_iff, ltb, ltb→lt}
use go_capnp.RefCount.{Cell, release, is_held, shared, is_live, add_ref, add_weak_ref, steal, ok}
use go_capnp.Base.Result.{ok, panic, ok-injective}

abbrev pub count : List Bool → ℕ
count [] = 0
count (true ∷ refs) = 1 + count refs
count (false ∷ refs) = count refs

count-le-length : (refs : List Bool) → count refs ≤ length refs
count-le-length [] = omega arith
count-le-length (true ∷ refs) = omega (arith, count-le-length refs)
count-le-length (false ∷ refs) = omega (arith, count-le-length refs)

count-append :
    (refs : List Bool) (live : Bool)
    → count (refs ++ (live ∷ [])) ≡ count refs + (if live then 1 else 0)
count-append [] true = refl
count-append [] false = refl
count-append (true ∷ refs) live = omega (arith, count-append refs live)
count-append (false ∷ refs) live = count-append refs live

-- Releasing a live reference takes one from the count.
count-set :
    (refs : List Bool) (i : ℕ)
    → count (set refs i false) + (if is_held (get_elem? refs i) then 1 else 0) ≡ count refs
count-set [] i = refl
count-set (true ∷ refs) zero = omega arith
count-set (false ∷ refs) zero = omega arith
count-set (true ∷ refs) (suc i) = omega (arith, count-set refs i)
count-set (false ∷ refs) (suc i) = count-set refs i

-- The count is that of the live references, and release ran once there are none.
pub record IsCounted (c : Cell) : Type 0 where
  pub counted : c.refcount ≡ count c.refs
  pub once : c.releases ≡ (if count c.refs == 0 then 1 else 0)

shared-IsCounted :
    (c : Cell) → IsCounted c → 1 ≤ count c.refs → length c.refs < 2 ^ 31 → IsCounted (shared c)
shared-IsCounted c h some_live few =
    let more = count-append c.refs true in
    let bound = count-le-length c.refs in
    record {
      counted = omega (arith, more, bound, h.counted, few);
      once = ground (arith, more, h.once, some_live);
    }

live-count : (refs : List Bool) (i : ℕ) → is_held (get_elem? refs i) ≡ true → 1 ≤ count refs
live-count refs i live = omega (arith, rw live at (count-set refs i))

released_once :
    (before after times val : ℕ)
    → after + 1 ≡ before
    → val ≡ after
    → times ≡ (if before == 0 then 1 else 0)
    → (if val == 0 then times + 1 else times) ≡ (if after == 0 then 1 else 0)
released_once before after times val less e h = ground (arith, less, e, h)

pub release-IsCounted :
    (c : Cell) (i : ℕ) → IsCounted c → length c.refs < 2 ^ 31 → IsCounted (release c i)
unfolding release
release-IsCounted c i h few = elim (Bool-cases (is_live c i)) [
  | inl live ↦
      let less : count (set c.refs i false) + 1 ≡ count c.refs = rw live at (count-set c.refs i) in
      let bound = count-le-length c.refs in
      let val : u32 (c.refcount + (2 ^ 32 - 1)) ≡ count (set c.refs i false) =
        omega (arith, less, bound, h.counted, few) in
      rw live (record {
        counted = val;
        once =
            released_once (count c.refs) (count (set c.refs i false)) c.releases _ less val h.once;
      })
  | inr gone ↦ rw gone h
]

steal-IsCounted : (c : Cell) (i : ℕ) → IsCounted c → IsCounted (steal c i)
unfolding steal
steal-IsCounted c i h =
    let same : count (set c.refs i false ++ (is_live c i ∷ [])) ≡ count c.refs =
      count-append (set c.refs i false) (is_live c i) ∙ count-set c.refs i in
    record { counted = h.counted ∙ sym same; once = rw same h.once }

add_weak_ref-IsCounted :
    (c : Cell)
    → IsCounted c
    → length (add_weak_ref c).0.refs < 2 ^ 31
    → IsCounted (add_weak_ref c).0
unfolding add_weak_ref
add_weak_ref-IsCounted c h few = elim (Bool-cases (c.refcount == 0)) [
  | inl none_left ↦ rw none_left h
  | inr some_left ↦
      let room = rw some_left at few in
      rw some_left (
        shared-IsCounted c h (ground (arith, h.counted))
          (omega (arith, room, length-append c.refs (true ∷ []))))
]

add_ref-IsCounted :
    (c c' : Cell) (i : ℕ)
    → IsCounted c
    → add_ref c i ≡ ok c'
    → length c'.refs < 2 ^ 31
    → IsCounted c'
unfolding add_ref
add_ref-IsCounted c c' i h e few = elim (Bool-cases (is_live c i)) [
  | inl live ↦
      let same : shared c ≡ c' = ok-injective (rw live at e) in
      let room : length (shared c).refs < 2 ^ 31 =
        subst (λ (x : Cell). length x.refs < 2 ^ 31) (sym same) few in
      subst IsCounted same (
        shared-IsCounted c h (live-count c.refs i live)
          (omega (arith, room, length-append c.refs (true ∷ []))))
  | inr gone ↦
      let refused : panic "called AddRef() on already-released Ref." ≡ ok c' = rw gone at e in
      absurd (cc)
]

length-release : (c : Cell) (i : ℕ) → length (release c i).refs ≡ length c.refs
unfolding release
length-release c i = elim (Bool-cases (is_live c i)) [
  | inl live ↦ rw live (length-set c.refs i false)
  | inr gone ↦ rw gone refl
]

-- However calls on the references to a cell and on its weak references follow each other, from a new
-- cell and with fewer than 2 ^ 31 references ever made, the count is the number of references that are
-- not released. The release function has run exactly once if there is none, and not at all if there is.
pub Reachable-IsCounted : (c : Cell) → Reachable c → IsCounted c
Reachable-IsCounted c starts = record { counted = refl; once = refl }
Reachable-IsCounted c (goes_on {c = d} r (shares i e) few) =
    add_ref-IsCounted d c i (Reachable-IsCounted d r) e few
Reachable-IsCounted c (goes_on {c = d} r (releases i) few) =
    release-IsCounted d i (Reachable-IsCounted d r) (omega (arith, few, length-release d i))
Reachable-IsCounted c (goes_on {c = d} r (steals i lt) few) =
    steal-IsCounted d i (Reachable-IsCounted d r)
Reachable-IsCounted c (goes_on {c = d} r revives few) =
    add_weak_ref-IsCounted d (Reachable-IsCounted d r) few

-- Release every reference, the last one first.
abbrev pub release_each : Cell → ℕ → Cell
release_each c zero = c
release_each c (suc n) = release_each (release c n) n

is_live-set :
    (refs : List Bool) (i j : ℕ)
    → is_held (get_elem? refs j) ≡ false
    → is_held (get_elem? (set refs i false) j) ≡ false
is_live-set [] i j h = h
is_live-set (r ∷ refs) zero zero h = refl
is_live-set (r ∷ refs) zero (suc j) h = h
is_live-set (r ∷ refs) (suc i) zero h = h
is_live-set (r ∷ refs) (suc i) (suc j) h = is_live-set refs i j h

is_live-set_self : (refs : List Bool) (i : ℕ) → is_held (get_elem? (set refs i false) i) ≡ false
is_live-set_self [] i = refl
is_live-set_self (r ∷ refs) zero = refl
is_live-set_self (r ∷ refs) (suc i) = is_live-set_self refs i

is_live-release : (c : Cell) (i j : ℕ) → is_live c j ≡ false → is_live (release c i) j ≡ false
unfolding release
is_live-release c i j h = elim (Bool-cases (is_live c i)) [
  | inl live ↦ rw live (is_live-set c.refs i j h)
  | inr gone ↦ rw gone h
]

is_live-release_self : (c : Cell) (i : ℕ) → is_live (release c i) i ≡ false
unfolding release
is_live-release_self c i = elim (Bool-cases (is_live c i)) [
  | inl live ↦ rw live (is_live-set_self c.refs i)
  | inr gone ↦ rw gone gone
]

is_live-release_each :
    (n : ℕ) (c : Cell) (j : ℕ) → is_live c j ≡ false → is_live (release_each c n) j ≡ false
is_live-release_each zero c j h = h
is_live-release_each (suc n) c j h =
    is_live-release_each n (release c n) j (is_live-release c n j h)

each_released : (n : ℕ) (c : Cell) (j : ℕ) → j < n → is_live (release_each c n) j ≡ false
each_released zero c j h = absurd (omega arith)
each_released (suc n) c j h = elim (Bool-cases (j == n)) [
  | inl last ↦
      rw ((==_iff j n).0 last) (is_live-release_each n (release c n) n (is_live-release_self c n))
  | inr before ↦ each_released n (release c n) j (ground arith)
]

none_live : (refs : List Bool) → ((j : ℕ) → is_held (get_elem? refs j) ≡ false) → count refs ≡ 0
none_live [] h = refl
none_live (true ∷ refs) h = let first : true ≡ false = h 0 in absurd (cc)
none_live (false ∷ refs) h = none_live refs (λ j. h (suc j))

past_end : (refs : List Bool) (j : ℕ) → length refs ≤ j → is_held (get_elem? refs j) ≡ false
past_end [] j h = refl
past_end (r ∷ refs) zero h = absurd (omega arith)
past_end (r ∷ refs) (suc j) h = past_end refs j (omega arith)

release_each-IsCounted :
    (n : ℕ) (c : Cell) → IsCounted c → length c.refs < 2 ^ 31 → IsCounted (release_each c n)
release_each-IsCounted zero c h few = h
release_each-IsCounted (suc n) c h few =
    release_each-IsCounted n (release c n) (release-IsCounted c n h few)
      (omega (arith, few, length-release c n))

-- From every cell that calls reach, releasing every reference ends with no reference left and with the
-- release function run exactly once, however many of them had been released before.
pub release_each-once :
    (c : Cell)
    → Reachable c
    → length c.refs < 2 ^ 31
    → (count (release_each c (length c.refs)).refs ≡ 0)
      × ((release_each c (length c.refs)).releases ≡ 1)
release_each-once c r few =
    let n = length c.refs in
    let all : (j : ℕ) → is_live (release_each c n) j ≡ false = λ j. elim (Bool-cases (ltb j n)) [
      | inl inside ↦ each_released n c j (ltb→lt _ _ inside)
      | inr outside ↦ is_live-release_each n c j (past_end c.refs j (ground arith))
    ] in
    let empty = none_live (release_each c n).refs all in
    (empty, rw empty at (release_each-IsCounted n c (Reachable-IsCounted c r) few).once)
