-- ===== src/IdGen/Bits.antt =====
-- The bits of a word: a test with a mask of one bit, and that bit set and cleared.
use go_capnp.Base.{◌≤◌, sym, ℕ, zero, suc, ◌+◌, ◌*◌, ◌/◌, ◌%◌, ◌^◌, ◌<◌, ◌≡◌, ◌≢◌, refl, arith}
use go_capnp.Base.{bit_and, bit_or, ap, inl, ◌∙◌, inr}
use go_capnp.Base.Bits.{and_not, bit_and_halve, bit_or_halve, bit_and_low, bit_or-zero}
use native.Mathlib.Nat.{pow-suc}
use go_capnp.Memory.Stores.{same_or_other}

-- Bit i of a number.
unfoldable pub bit : ℕ → ℕ → ℕ
bit zero x = x % 2
bit (suc i) x = bit i (x / 2)

pub bit-lt : (i x : ℕ) → bit i x < 2
unfolding bit
bit-lt zero x = omega arith
bit-lt (suc i) x = bit-lt i (x / 2)

half : (a : ℕ) → 2 * a / 2 ≡ a
half a = omega arith

bit_and_even : (x a : ℕ) → bit_and x (2 * a) ≡ 2 * bit_and (x / 2) a
bit_and_even x a = omega (arith, bit_and_halve x (2 * a), ap (bit_and (x / 2)) (half a))

pub bit_or_even : (x a : ℕ) → bit_or x (2 * a) ≡ x % 2 + 2 * bit_or (x / 2) a
bit_or_even x a = omega (arith, bit_or_halve x (2 * a), ap (bit_or (x / 2)) (half a))

pub double : (i : ℕ) → 2 ^ suc i ≡ 2 * 2 ^ i
double i = omega (arith, pow-suc 2 i)

twice : (b p : ℕ) → 2 * (b * p) ≡ b * (2 * p)
twice b p = omega arith

-- What a mask of one bit leaves.
pub bit_and-mask : (i x : ℕ) → bit_and x (2 ^ i) ≡ bit i x * 2 ^ i
unfolding bit
bit_and-mask zero x = omega (arith, bit_and_low 1 x)
bit_and-mask (suc i) x =
    let both : bit i (x / 2) * 2 ^ suc i ≡ bit i (x / 2) * (2 * 2 ^ i) =
      ap (λ p. bit i (x / 2) * p) (double i) in
    let above : bit_and x (2 ^ suc i) ≡ 2 * (bit i (x / 2) * 2 ^ i) =
      omega (arith, ap (bit_and x) (double i), bit_and_even x (2 ^ i), bit_and-mask i (x / 2)) in
    above ∙ twice (bit i (x / 2)) (2 ^ i) ∙ sym both

bit_and-le : (i x : ℕ) → bit_and x (2 ^ i) ≤ x
bit_and-le zero x = omega (arith, bit_and_low 1 x)
bit_and-le (suc i) x =
    omega (arith, ap (bit_and x) (double i), bit_and_even x (2 ^ i), bit_and-le i (x / 2))

-- The bit of the mask is set, and no other is changed.
pub bit-bit_or_self : (i x : ℕ) → bit i (bit_or x (2 ^ i)) ≡ 1
unfolding bit
bit-bit_or_self zero x = ground (arith, bit_or_halve x 1)
bit-bit_or_self (suc i) x =
    let e : bit_or x (2 ^ suc i) / 2 ≡ bit_or (x / 2) (2 ^ i) =
      omega (arith, ap (bit_or x) (double i), bit_or_even x (2 ^ i)) in
    ap (bit i) e ∙ bit-bit_or_self i (x / 2)

pub bit-bit_or_other : (i j x : ℕ) → i ≢ j → bit j (bit_or x (2 ^ i)) ≡ bit j x
unfolding bit
bit-bit_or_other zero zero x h = absurd (h refl)
bit-bit_or_other zero (suc j) x h =
    let e : bit_or x 1 / 2 ≡ x / 2 = ground (arith, bit_or_halve x 1, bit_or-zero (x / 2)) in
    ap (bit j) e
bit-bit_or_other (suc i) zero x h = omega (arith, ap (bit_or x) (double i), bit_or_even x (2 ^ i))
bit-bit_or_other (suc i) (suc j) x h =
    let e : bit_or x (2 ^ suc i) / 2 ≡ bit_or (x / 2) (2 ^ i) =
      omega (arith, ap (bit_or x) (double i), bit_or_even x (2 ^ i)) in
    ap (bit j) e ∙ bit-bit_or_other i j (x / 2) (λ same. h (ap suc same))

-- The same of the bit that is cleared.
and_not_half : (i x : ℕ) → and_not x (2 ^ suc i) / 2 ≡ and_not (x / 2) (2 ^ i)
unfolding and_not
and_not_half i x = omega (arith, ap (bit_and x) (double i), bit_and_even x (2 ^ i))

pub bit-and_not_self : (i x : ℕ) → bit i (and_not x (2 ^ i)) ≡ 0
unfolding bit
bit-and_not_self zero x = unfold and_not in omega (arith, bit_and_low 1 x)
bit-and_not_self (suc i) x = ap (bit i) (and_not_half i x) ∙ bit-and_not_self i (x / 2)

pub bit-and_not_other : (i j x : ℕ) → i ≢ j → bit j (and_not x (2 ^ i)) ≡ bit j x
unfolding bit
bit-and_not_other zero zero x h = absurd (h refl)
bit-and_not_other zero (suc j) x h = unfold and_not in ap (bit j) (omega (arith, bit_and_low 1 x))
bit-and_not_other (suc i) zero x h =
    unfold and_not in
    omega (arith, ap (bit_and x) (double i), bit_and_even x (2 ^ i), bit_and-le (suc i) x)
bit-and_not_other (suc i) (suc j) x h =
    ap (bit j) (and_not_half i x) ∙ bit-and_not_other i j (x / 2) (λ same. h (ap suc same))

-- Zero has no bit, and of the bits of a word that is not zero one is set.
pub bit-zero : (i : ℕ) → bit i 0 ≡ 0
unfolding bit
bit-zero zero = refl
bit-zero (suc i) = bit-zero i

pub some_bit : (n x : ℕ) → x < 2 ^ n → x ≢ 0 → (i : ℕ) × (i < n) × (bit i x ≡ 1)
unfolding bit
some_bit zero x lt h = absurd (h (omega (arith, lt)))
some_bit (suc n) x lt h = elim (same_or_other (x % 2) 1) [
  | inl odd ↦ (0, omega arith, odd)
  | inr even ↦
      let (i, small, set) =
        some_bit n (x / 2) (omega (arith, lt, double n)) (λ none. h (omega (arith, none, even))) in
      (suc i, omega (arith, small), set)
]
