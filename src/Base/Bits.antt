-- ===== src/Base/Bits.antt =====
-- The bit operations as arithmetic, at every width: masks, disjoint fields, and Go's `&^`.
use Prim.Native.Nat.{max, digits, bit_and-bitwise, bit_or-bitwise}
use native.Mathlib.Nat.{pow-suc, one-le-pow, mod-eq-sub-div-mul, div-mul-le_self}
use native.Mathlib.Nat.{div-div-eq-div-mul}
use go_capnp.Base.{ℕ, zero, suc, ◌+◌, ◌-◌, ◌*◌, ◌/◌, ◌%◌, ◌^◌, ◌≤◌, ◌<◌, min, bit_and, bit_or}
use go_capnp.Base.{◌≡◌, refl, ap, arith, ◌∙◌, ◌⊎◌, inl, inr}

-- `a &^ b` clears in `a` the bits of `b`. Those that `a` has are `a & b`, so no borrow arises.
unfoldable pub and_not : ℕ → ℕ → ℕ
and_not a b = a - bit_and a b

-- One more unit of fuel than the recursion on binary digits needs changes nothing.
spare_digit :
    (z : ℕ → ℕ) (f : ℕ → ℕ → ℕ) (fuel a b : ℕ)
    → a ≤ fuel
    → digits z f (suc fuel) a b ≡ digits z f fuel a b
spare_digit z f zero zero b h = refl
spare_digit z f (suc n) zero b h = refl
spare_digit z f zero (suc a) b h = absurd (omega arith)
spare_digit z f (suc n) (suc a) b h =
    omega (arith, spare_digit z f n (suc a / 2) (b / 2) (omega arith))

le_cases : (a n : ℕ) → a ≤ suc n → (a ≤ n) ⊎ (a ≡ suc n)
le_cases a n h = ground arith

enough_digits :
    (z : ℕ → ℕ) (f : ℕ → ℕ → ℕ) (fuel a b : ℕ) → a ≤ fuel → digits z f fuel a b ≡ digits z f a a b
enough_digits z f zero zero b h = refl
enough_digits z f zero (suc a) b h = absurd (omega arith)
enough_digits z f (suc n) a b h = elim (le_cases a n h) [
  | inl small ↦ spare_digit z f n a b small ∙ enough_digits z f n a b small
  | inr e ↦ rw e refl
]

pub bit_and_halve : (x y : ℕ) → bit_and x y ≡ min (x % 2) (y % 2) + 2 * bit_and (x / 2) (y / 2)
bit_and_halve zero y = omega (arith, bit_and-bitwise 0 y, bit_and-bitwise 0 (y / 2))
bit_and_halve (suc p) y =
    let half = suc p / 2 in
    let fuel = enough_digits (λ t. 0) min p half (y / 2) (omega arith) in
    omega (arith, fuel, bit_and-bitwise half (y / 2), bit_and-bitwise (suc p) y)

pub bit_or_halve : (x y : ℕ) → bit_or x y ≡ max (x % 2) (y % 2) + 2 * bit_or (x / 2) (y / 2)
bit_or_halve zero y = omega (arith, bit_or-bitwise 0 y, bit_or-bitwise 0 (y / 2))
bit_or_halve (suc p) y =
    let half = suc p / 2 in
    let fuel = enough_digits (λ t. t) max p half (y / 2) (omega arith) in
    omega (arith, fuel, bit_or-bitwise half (y / 2), bit_or-bitwise (suc p) y)

pub zero-bit_or : (b : ℕ) → bit_or 0 b ≡ b
zero-bit_or b = bit_or-bitwise 0 b

bit_and-zero_below : (n a : ℕ) → a ≤ n → bit_and a 0 ≡ 0
bit_and-zero_below zero zero h = refl
bit_and-zero_below zero (suc a) h = absurd (omega arith)
bit_and-zero_below (suc n) a h =
    omega (arith, bit_and_halve a 0, bit_and-zero_below n (a / 2) (omega arith))

pub bit_and-zero : (a : ℕ) → bit_and a 0 ≡ 0
bit_and-zero a = bit_and-zero_below a a (omega arith)

bit_or-zero_below : (n a : ℕ) → a ≤ n → bit_or a 0 ≡ a
bit_or-zero_below zero zero h = refl
bit_or-zero_below zero (suc a) h = absurd (omega arith)
bit_or-zero_below (suc n) a h =
    omega (arith, bit_or_halve a 0, bit_or-zero_below n (a / 2) (omega arith))

pub bit_or-zero : (a : ℕ) → bit_or a 0 ≡ a
bit_or-zero a = bit_or-zero_below a a (omega arith)

double_shift : (q k : ℕ) → q * 2 ^ suc k ≡ 2 * (q * 2 ^ k)
double_shift q k = omega (arith, ap (λ (t : ℕ). q * t) (pow-suc 2 k))

-- `low | high << k` is a sum where `low` fits k bits.
pub bit_or_low_high :
    (k low high : ℕ) → low < 2 ^ k → bit_or low (high * 2 ^ k) ≡ low + high * 2 ^ k
bit_or_low_high zero low high h = ground (arith, zero-bit_or high)
bit_or_low_high (suc k) low high h = ground (
  arith,
  bit_or_halve low (high * 2 ^ suc k),
  double_shift high k,
  pow-suc 2 k,
  bit_or_low_high k (low / 2) high (omega arith),
)

pow-suc-left : (k : ℕ) → 2 ^ suc k ≡ 2 * 2 ^ k
pow-suc-left k = omega (arith, pow-suc 2 k)

half_double : (n : ℕ) → 2 * n / 2 ≡ n
half_double n = omega arith

half_mask : (n : ℕ) → 1 ≤ n → (2 * n - 1) / 2 ≡ n - 1
half_mask n h = omega arith

pub shift_shift : (a k : ℕ) → a / 2 / 2 ^ k ≡ a / 2 ^ suc k
shift_shift a k = rw pow-suc-left (div-div-eq-div-mul a 2 (2 ^ k))

-- The remainder by 2 * p, from the lowest bit and the remainder of the half by p.
mod_halve : (a p : ℕ) → a % (2 * p) ≡ a / 2 % p * 2 + a % 2
mod_halve a p = omega (
  arith,
  mod-eq-sub-div-mul a (2 * p),
  mod-eq-sub-div-mul (a / 2) p,
  div-mul-le_self (a / 2) p,
  ap (λ (t : ℕ). t * p) (div-div-eq-div-mul a 2 p),
)

-- A mask of the k low bits is the remainder by 2 ^ k.
pub bit_and_low : (k a : ℕ) → bit_and a (2 ^ k - 1) ≡ a % 2 ^ k
bit_and_low zero a = ground (arith, bit_and-zero a)
bit_and_low (suc k) a = rw (pow-suc-left k) (
    omega (
      arith,
      mod_halve a (2 ^ k),
      bit_and_halve a (2 * 2 ^ k - 1),
      one-le-pow k 2,
      bit_and_low k (a / 2),
      ap (bit_and (a / 2)) (half_mask (2 ^ k) (one-le-pow k 2 (omega arith))),
    ))

-- A mask that starts at bit k sees the bits from k on.
pub bit_and_high : (k a m : ℕ) → bit_and a (m * 2 ^ k) ≡ bit_and (a / 2 ^ k) m * 2 ^ k
bit_and_high zero a m = ground arith
bit_and_high (suc k) a m = rw double_shift (
    omega (
      arith,
      bit_and_halve a (2 * (m * 2 ^ k)),
      bit_and_high k (a / 2) m,
      double_shift (bit_and (a / 2 ^ suc k) m) k,
      ap (bit_and (a / 2)) (half_double (m * 2 ^ k)),
      ap (λ (t : ℕ). bit_and t m * 2 ^ k) (shift_shift a k),
    ))

-- `high << k | low` is a sum where `low` fits k bits.
pub bit_or_high_low :
    (k high low : ℕ) → low < 2 ^ k → bit_or (high * 2 ^ k) low ≡ high * 2 ^ k + low
bit_or_high_low zero high low h = ground (arith, bit_or-zero high)
bit_or_high_low (suc k) high low h = ground (
  arith,
  bit_or_halve (high * 2 ^ suc k) low,
  double_shift high k,
  pow-suc 2 k,
  bit_or_high_low k high (low / 2) (omega arith),
)

-- The k low bits of the left side stay where the right side has none.
pub bit_or_above :
    (k low x y : ℕ) → low < 2 ^ k → bit_or (low + x * 2 ^ k) (y * 2 ^ k) ≡ low + bit_or x y * 2 ^ k
bit_or_above zero low x y h = ground arith
bit_or_above (suc k) low x y h = ground (
  arith,
  bit_or_halve (low + x * 2 ^ suc k) (y * 2 ^ suc k),
  double_shift x k,
  double_shift y k,
  double_shift (bit_or x y) k,
  pow-suc 2 k,
  bit_or_above k (low / 2) x y (omega arith),
)
