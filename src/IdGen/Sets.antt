-- ===== src/IdGen/Sets.antt =====
-- rpc/idgen.go: what a set holds after a number is added or removed, and its minimum.
use go_capnp.Base.{ℕ, zero, suc, ◌+◌, ◌-◌, ◌*◌, ◌/◌, ◌%◌, ◌^◌, ◌<◌, ◌≤◌, ◌≡◌, ◌≢◌, refl, arith}
use go_capnp.Base.{bit_and, bit_or, List, [], ◌∷◌, ◌++◌, length, set, get_or, replicate, false}
use go_capnp.Base.{inl, inr, ap, sym, ◌∙◌, ◌⊎◌, ◌==◌, Bool-cases, not, ltb, length-append}
use go_capnp.Base.{length-replicate}
use go_capnp.IdGen.{mask, has, add, remove, widened}
use native.Mathlib.Nat.{pow-suc, one-le-pow}
use go_capnp.Memory.Stores.{same_or_other}
use go_capnp.Base.Bits.{and_not}
use go_capnp.IdGen.Bits.{bit, bit-lt, bit_and-mask, bit-bit_or_self, bit-bit_or_other}
use go_capnp.IdGen.Bits.{bit-and_not_self, bit-and_not_other, bit-zero}

-- 1 where the set holds the number, 0 where not.
abbrev pub member : List ℕ → ℕ → ℕ
member s n = bit (n % 64) (get_or s (n / 64) 0)

get_or-set_self : (s : List ℕ) (j v : ℕ) → j < length s → get_or (set s j v) j 0 ≡ v
get_or-set_self [] j v h = absurd (omega arith)
get_or-set_self (x ∷ s) zero v h = refl
get_or-set_self (x ∷ s) (suc j) v h = get_or-set_self s j v (omega arith)

get_or-set_other : (s : List ℕ) (j k v : ℕ) → j ≢ k → get_or (set s j v) k 0 ≡ get_or s k 0
get_or-set_other [] j k v h = refl
get_or-set_other (x ∷ s) zero zero v h = absurd (h refl)
get_or-set_other (x ∷ s) zero (suc k) v h = refl
get_or-set_other (x ∷ s) (suc j) zero v h = refl
get_or-set_other (x ∷ s) (suc j) (suc k) v h = get_or-set_other s j k v (λ e. h (ap suc e))

get_or-replicate : (n k : ℕ) → get_or {A = ℕ} (replicate n 0) k 0 ≡ 0
get_or-replicate zero k = refl
get_or-replicate (suc n) zero = refl
get_or-replicate (suc n) (suc k) = get_or-replicate n k

get_or-zeros : (s : List ℕ) (n k : ℕ) → get_or (s ++ replicate n 0) k 0 ≡ get_or s k 0
get_or-zeros [] n k = get_or-replicate n k
get_or-zeros (x ∷ s) n zero = refl
get_or-zeros (x ∷ s) n (suc k) = get_or-zeros s n k

get_or-past : (s : List ℕ) (k : ℕ) → length s ≤ k → get_or s k 0 ≡ 0
get_or-past [] k h = refl
get_or-past (x ∷ s) zero h = absurd (omega arith)
get_or-past (x ∷ s) (suc k) h = get_or-past s k (omega arith)

pub pow-lt : (i k : ℕ) → i < k → 2 ^ i < 2 ^ k
pow-lt i zero h = absurd (omega arith)
pow-lt zero (suc k) h = omega (arith, pow-suc 2 k, one-le-pow k 2 (omega arith))
pow-lt (suc i) (suc k) h = omega (arith, pow-suc 2 i, pow-suc 2 k, pow-lt i k (omega arith))

pub mask_lem : (i : ℕ) → mask i ≡ 2 ^ (i % 64)
mask_lem i = omega (arith, pow-lt (i % 64) 64 (omega arith))

pub bit_cases : (i x : ℕ) → (bit i x ≡ 0) ⊎ (bit i x ≡ 1)
bit_cases i x = ground (arith, bit-lt i x)

pub masked : (w k : ℕ) → not (bit_and w (2 ^ k) == 0) ≡ (bit k w == 1)
masked w k = elim (bit_cases k w) [
  | inl off ↦
      let none_left : bit_and w (2 ^ k) ≡ 0 =
        omega (arith, bit_and-mask k w, ap (λ b. b * 2 ^ k) off) in
      rw (none_left, off) refl
  | inr on ↦
      let left : bit_and w (2 ^ k) ≡ 2 ^ k =
        omega (arith, bit_and-mask k w, ap (λ b. b * 2 ^ k) on) in
      let some_left : (bit_and w (2 ^ k) == 0) ≡ false =
        ground (arith, left, one-le-pow k 2 (omega arith)) in
      rw (some_left, on) refl
]

-- uintSet.has answers whether the set holds the number.
pub has_lem : (s : List ℕ) (n : ℕ) → has s n ≡ (member s n == 1)
unfolding has
has_lem s n = elim (Bool-cases (ltb (n / 64) (length s))) [
  | inl inside ↦ rw inside (
      ap (λ k. not (bit_and (get_or s (n / 64) 0) k == 0)) (mask_lem n)
      ∙ masked (get_or s (n / 64) 0) (n % 64))
  | inr outside ↦
      let none : member s n ≡ 0 =
        ap (bit (n % 64)) (get_or-past s (n / 64) (ground (arith, outside))) ∙ bit-zero (n % 64) in
      rw outside (ap (λ b. b == 1) (sym none))
]

-- A word replaced: what that does to a number of it, and to any other.
set_self : (t : List ℕ) (i v : ℕ) → i / 64 < length t → member (set t (i / 64) v) i ≡ bit (i % 64) v
set_self t i v lt = ap (bit (i % 64)) (get_or-set_self t (i / 64) v lt)

set_other :
    (t : List ℕ) (i v : ℕ)
    → i / 64 < length t
    → ((r : ℕ) → i % 64 ≢ r → bit r v ≡ bit r (get_or t (i / 64) 0))
    → (n : ℕ) → i ≢ n
    → member (set t (i / 64) v) n ≡ member t n
set_other t i v lt same n h = elim (same_or_other (i / 64) (n / 64)) [
  | inl here ↦
      let at : get_or (set t (i / 64) v) (n / 64) 0 ≡ v =
        ap (λ k. get_or (set t (i / 64) v) k 0) (sym here) ∙ get_or-set_self t (i / 64) v lt in
      ap (bit (n % 64)) at
      ∙ same (n % 64) (λ e. h (omega (arith, e, here)))
      ∙ ap (λ k. bit (n % 64) (get_or t k 0)) here
  | inr other ↦ ap (bit (n % 64)) (get_or-set_other t (i / 64) (n / 64) v other)
]

length-widened : (s : List ℕ) (i : ℕ) → i / 64 < length (widened s (i / 64 + 1))
length-widened s i = elim (Bool-cases (ltb (i / 64 + 1 - 1) (length s))) [
  | inl wide ↦ rw wide (ground (arith, wide))
  | inr short ↦ rw short (
      ground (
        arith,
        short,
        length-append s (replicate (i / 64 + 1 - length s) 0),
        length-replicate {A = ℕ} (i / 64 + 1 - length s) 0,
      ))
]

widened_lem : (s : List ℕ) (i k : ℕ) → get_or (widened s (i / 64 + 1)) k 0 ≡ get_or s k 0
widened_lem s i k = elim (Bool-cases (ltb (i / 64 + 1 - 1) (length s))) [
  | inl wide ↦ rw wide refl
  | inr short ↦ rw short (get_or-zeros s (i / 64 + 1 - length s) k)
]

module _ (s : List ℕ) (i : ℕ) where
  abbrev t : List ℕ
  t = widened s (i / 64 + 1)

  pub add_self : member (add s i) i ≡ 1
  unfolding add
  add_self =
      set_self t i _ (length-widened s i)
      ∙ ap (λ k. bit (i % 64) (bit_or (get_or t (i / 64) 0) k)) (mask_lem i)
      ∙ bit-bit_or_self (i % 64) (get_or t (i / 64) 0)

  pub add_other : (n : ℕ) → i ≢ n → member (add s i) n ≡ member s n
  unfolding add
  add_other n h =
      set_other t i _ (length-widened s i)
        (λ r other.
          ap (λ k. bit r (bit_or (get_or t (i / 64) 0) k)) (mask_lem i)
          ∙ bit-bit_or_other (i % 64) r (get_or t (i / 64) 0) other)
        n h
      ∙ ap (bit (n % 64)) (widened_lem s i (n / 64))

  pub remove_self : member (remove s i) i ≡ 0
  unfolding remove
  remove_self = elim (Bool-cases (ltb (i / 64) (length s))) [
    | inl inside ↦ rw inside (
        set_self s i _ (ground (arith, inside))
        ∙ ap (λ k. bit (i % 64) (and_not (get_or s (i / 64) 0) k)) (mask_lem i)
        ∙ bit-and_not_self (i % 64) (get_or s (i / 64) 0))
    | inr outside ↦
        rw outside
          (ap (bit (i % 64)) (get_or-past s (i / 64) (ground (arith, outside))) ∙ bit-zero (i % 64))
  ]

  pub remove_other : (n : ℕ) → i ≢ n → member (remove s i) n ≡ member s n
  unfolding remove
  remove_other n h = elim (Bool-cases (ltb (i / 64) (length s))) [
    | inl inside ↦ rw inside (
        set_other s i _ (ground (arith, inside))
          (λ r other.
            ap (λ k. bit r (and_not (get_or s (i / 64) 0) k)) (mask_lem i)
            ∙ bit-and_not_other (i % 64) r (get_or s (i / 64) 0) other)
          n h)
    | inr outside ↦ rw outside refl
  ]
