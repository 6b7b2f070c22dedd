-- ===== src/IdGen/Minimum.antt =====
-- rpc/idgen.go: the minimum of a set is a number that it holds, and a set without one is empty.
use go_capnp.Base.{ℕ, zero, suc, ◌+◌, ◌-◌, ◌*◌, ◌/◌, ◌%◌, ◌^◌, ◌<◌, ◌≤◌, ◌≡◌, ◌⊎◌, refl, arith}
use go_capnp.Base.{bit_and, List, [], ◌∷◌, get_or, none, some, true, false, inl, inr, ap, sym}
use go_capnp.Base.{◌∙◌, Bool-cases, ◌==◌, u64, ◌<<◌, not, set, bit_or, length, replicate, ◌++◌}
use go_capnp.Base.{ltb, Option}
use go_capnp.IdGen.{first_bit, min_from, add, remove, widened}
use go_capnp.IdGen.Bits.{bit, bit-zero, some_bit, double, bit_or_even}
use go_capnp.Memory.Stores.{same_or_other}
use native.Mathlib.Nat.{pow-suc}
use go_capnp.Base.Bits.{and_not, bit_or_halve, bit_or-zero}
use go_capnp.IdGen.Sets.{mask_lem, member, pow-lt, masked, bit_cases}

-- The set's words have 64 bits.
abbrev pub AreWords : List ℕ → Type 0
AreWords [] = Unit {0}
AreWords (x ∷ s) = (x < 2 ^ 64) × AreWords s

first_bit_lem :
    (x left j : ℕ)
    → j + left ≤ 64
    → ((k : ℕ) × (first_bit x left j ≡ some k) × (k < 64) × (bit k x ≡ 1))
      ⊎ ((first_bit x left j ≡ none) × ((k : ℕ) → j ≤ k → k < j + left → bit k x ≡ 0))
unfolding first_bit
first_bit_lem x zero j h = inr (refl, λ k up lt. absurd (omega (arith, up, lt)))
first_bit_lem x (suc left) j h =
    let small : u64 (1 << j) ≡ 2 ^ j = omega (arith, pow-lt j 64 (omega (arith, h))) in
    let test : not (bit_and x (u64 (1 << j)) == 0) ≡ (bit j x == 1) =
      ap (λ p. not (bit_and x p == 0)) small ∙ masked x j in
    elim (bit_cases j x) [
      | inl off ↦
          let skip : (bit j x == 1) ≡ false = ground (arith, off) in
          rw (test ∙ skip) (elim (first_bit_lem x left (j + 1) (omega (arith, h))) [
            | inl (k, e, lt, set) ↦ inl (k, e, lt, set)
            | inr (e, all) ↦ inr (
              e,
              λ k up lt. elim (same_or_other j k) [
                | inl same ↦ ap (λ i. bit i x) (sym same) ∙ off
                | inr other ↦ all k (omega (arith, up, other)) (omega (arith, lt))
              ],
            )
          ])
      | inr on ↦
          let found : (bit j x == 1) ≡ true = ground (arith, on) in
          rw (test ∙ found) (inl (j, refl, omega (arith, h), on))
    ]

member_low : (x : ℕ) (s : List ℕ) (m : ℕ) → m < 64 → member (x ∷ s) m ≡ bit m x
member_low x s m lt =
    let first : m / 64 ≡ 0 = omega (arith, lt) in
    let place : m % 64 ≡ m = omega (arith, lt) in
    ap (λ j. bit (m % 64) (get_or (x ∷ s) j 0)) first ∙ ap (λ r. bit r x) place

member_high : (x : ℕ) (s : List ℕ) (m : ℕ) → member (x ∷ s) (64 + m) ≡ member s m
member_high x s m =
    let next : (64 + m) / 64 ≡ suc (m / 64) = omega arith in
    let place : (64 + m) % 64 ≡ m % 64 = omega arith in
    ap (λ j. bit ((64 + m) % 64) (get_or (x ∷ s) j 0)) next
    ∙ ap (λ r. bit r (get_or s (m / 64) 0)) place

-- The set `s` behind i words gives r, which is a number of it, or is none where it is empty.
abbrev pub IsMinOf : List ℕ → ℕ → Option ℕ → Type 0
IsMinOf s i r =
    ((m : ℕ) × (r ≡ some (i * 64 + m)) × (member s m ≡ 1))
    ⊎ ((r ≡ none) × ((m : ℕ) → member s m ≡ 0))

behind_empty :
    (x : ℕ) (s : List ℕ) (i : ℕ) (r : Option ℕ)
    → ((k : ℕ) → bit k x ≡ 0)
    → IsMinOf s (i + 1) r
    → IsMinOf (x ∷ s) i r
behind_empty x s i r empty (inl (m, e, on)) =
    inl (64 + m, e ∙ ap some (omega arith), member_high x s m ∙ on)
behind_empty x s i r empty (inr (e, all)) = inr (
  e,
  λ m. elim (Bool-cases (ltb m 64)) [
    | inl low ↦ member_low x s m (ground (arith, low)) ∙ empty m
    | inr high ↦
        let same : 64 + (m - 64) ≡ m = ground (arith, high) in
        ap (member (x ∷ s)) (sym same) ∙ member_high x s (m - 64) ∙ all (m - 64)
  ],
)

pub min_from_lem : (s : List ℕ) (i : ℕ) → AreWords s → IsMinOf s i (min_from s i)
unfolding min_from
min_from_lem [] i w = inr (refl, λ m. bit-zero (m % 64))
min_from_lem (x ∷ s) i (lt, w) = elim (same_or_other x 0) [
  | inl none_set ↦
      let test : (x == 0) ≡ true = ground (arith, none_set) in
      rw test (
        behind_empty x s i (min_from s (i + 1)) (λ k. ap (bit k) none_set ∙ bit-zero k)
          (min_from_lem s (i + 1) w))
  | inr some_set ↦
      let test : (x == 0) ≡ false = ground (arith, some_set) in
      rw test (elim (first_bit_lem x 64 0 (omega arith)) [
        | inl (k, e, small, on) ↦ rw e (inl (k, refl, member_low x s k small ∙ on))
        | inr (e, all) ↦
            let (k, small, on) = some_bit 64 x lt some_set in
            absurd (omega (arith, on, all k (omega arith) small))
      ])
]

-- A word with a bit more, and one with a bit less.
pub bit_or-lt : (i n x : ℕ) → i < n → x < 2 ^ n → bit_or x (2 ^ i) < 2 ^ n
bit_or-lt i zero x h lt = absurd (omega (arith, h))
bit_or-lt zero (suc n) x h lt =
    ground (arith, lt, bit_or_halve x 1, bit_or-zero (x / 2), pow-suc 2 n)
bit_or-lt (suc i) (suc n) x h lt = omega (
  arith,
  ap (bit_or x) (double i),
  bit_or_even x (2 ^ i),
  double n,
  bit_or-lt i n (x / 2) (omega (arith, h)) (omega (arith, lt, double n)),
)

set-AreWords : (s : List ℕ) (j v : ℕ) → AreWords s → v < 2 ^ 64 → AreWords (set s j v)
set-AreWords [] j v w lt = tt
set-AreWords (x ∷ s) zero v (h, w) lt = (lt, w)
set-AreWords (x ∷ s) (suc j) v (h, w) lt = (h, set-AreWords s j v w lt)

get_or-lt : (s : List ℕ) (j : ℕ) → AreWords s → get_or s j 0 < 2 ^ 64
get_or-lt [] j w = omega arith
get_or-lt (x ∷ s) zero (h, w) = h
get_or-lt (x ∷ s) (suc j) (h, w) = get_or-lt s j w

append-AreWords : (s : List ℕ) (n : ℕ) → AreWords s → AreWords (s ++ replicate n 0)
append-AreWords [] zero w = tt
append-AreWords [] (suc n) w = (omega arith, append-AreWords [] n tt)
append-AreWords (x ∷ s) n (h, w) = (h, append-AreWords s n w)

widened-AreWords : (s : List ℕ) (n : ℕ) → AreWords s → AreWords (widened s n)
widened-AreWords s n w = elim (Bool-cases (ltb (n - 1) (length s))) [
  | inl wide ↦ rw wide w
  | inr short ↦ rw short (append-AreWords s (n - length s) w)
]

pub add-AreWords : (s : List ℕ) (i : ℕ) → AreWords s → AreWords (add s i)
unfolding add
add-AreWords s i w =
    let t = widened s (i / 64 + 1) in
    let wide = widened-AreWords s (i / 64 + 1) w in
    set-AreWords t (i / 64) _ wide (
      omega (
        arith,
        ap (bit_or (get_or t (i / 64) 0)) (mask_lem i),
        bit_or-lt (i % 64) 64 (get_or t (i / 64) 0) (omega arith) (get_or-lt t (i / 64) wide),
      ))

pub remove-AreWords : (s : List ℕ) (i : ℕ) → AreWords s → AreWords (remove s i)
unfolding remove
remove-AreWords s i w = elim (Bool-cases (ltb (i / 64) (length s))) [
  | inl inside ↦
      rw inside
        (set-AreWords s (i / 64) _ w (unfold and_not in omega (arith, get_or-lt s (i / 64) w)))
  | inr outside ↦ rw outside w
]
