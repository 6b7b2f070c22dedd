-- ===== src/Base/BitTable.antt =====
-- One bit of a byte: setting, clearing and testing, checked over all bytes.
use go_capnp.Base.{ℕ, zero, suc, ◌^◌, ◌<◌, ◌≡◌, refl, arith, Bool, true, false, not, ◌&&◌, u8}
use go_capnp.Base.{ltb, ◌==◌, ltb→lt, if◌then◌else◌, bit_and, bit_or}
use go_capnp.Base.Bits.{and_not}

-- `b |= mask` or `b &^= mask`.
abbrev pub put_bit : ℕ → ℕ → Bool → ℕ
put_bit b mask v = if v then bit_or b mask else and_not b mask

-- `b & mask != 0`
abbrev pub has_bit : ℕ → ℕ → Bool
has_bit b mask = not (bit_and b mask == 0)

every : (ℕ → Bool) → ℕ → Bool
every test zero = true
every test (suc k) = if test k then every test k else false

every-true : (test : ℕ → Bool) (k : ℕ) {b : ℕ} → b < k → every test k ≡ true → test b ≡ true
unfolding every
every-true test zero below passed = absurd (omega arith)
every-true test (suc k) {b} below passed = ground (arith, every-true test k {b = b})

agree : Bool → Bool → Bool
agree true b = b
agree false b = not b

agree_eq : (a b : Bool) → agree a b ≡ true → a ≡ b
unfolding agree
agree_eq true true h = refl
agree_eq true false h = absurd (cc)
agree_eq false true h = absurd (cc)
agree_eq false false h = refl

put_ok : Bool → ℕ → ℕ → ℕ → Bool
put_ok v i j b =
    agree (has_bit (put_bit b (u8 (2 ^ i)) v) (u8 (2 ^ j)))
      (if i == j then v else has_bit b (u8 (2 ^ j)))
    && ltb (put_bit b (u8 (2 ^ i)) v) 256

put_table : Bool → Bool
unfolding every put_ok
put_table v = every (λ i. every (λ j. every (put_ok v i j) 256) 8) 8

put_table_ok : (v : Bool) → put_table v ≡ true
unfolding put_table agree and_not
put_table_ok true = refl
put_table_ok false = refl

put_entry : (v : Bool) (i j b : ℕ) → i < 8 → j < 8 → b < 256 → put_ok v i j b ≡ true
unfolding put_table
put_entry v i j b hi hj hb = every-true (put_ok v i j) 256 hb (
    every-true (λ j. every (put_ok v i j) 256) 8 hj
      (every-true (λ i. every (λ j. every (put_ok v i j) 256) 8) 8 hi (put_table_ok v)))

&&_parts : (a b : Bool) → (a && b) ≡ true → (a ≡ true) × (b ≡ true)
&&_parts true b h = (refl, h)
&&_parts false b h = absurd (cc)

-- The bit that was put is read back, and no other changes.
pub has_bit-put_bit :
    (v : Bool) (i j b : ℕ)
    → i < 8
    → j < 8
    → b < 256
    → has_bit (put_bit b (u8 (2 ^ i)) v) (u8 (2 ^ j))
      ≡ (if i == j then v else has_bit b (u8 (2 ^ j)))
unfolding put_ok
has_bit-put_bit v i j b hi hj hb = agree_eq _ _ (&&_parts _ _ (put_entry v i j b hi hj hb)).0

pub put_bit-lt : (v : Bool) (i b : ℕ) → i < 8 → b < 256 → put_bit b (u8 (2 ^ i)) v < 256
unfolding put_ok
put_bit-lt v i b hi hb = ltb→lt _ _ (&&_parts _ _ (put_entry v i i b hi hi hb)).1
