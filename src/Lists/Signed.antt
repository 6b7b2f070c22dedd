-- ===== src/Lists/Signed.antt =====
-- Lists of signed integers, whose elements hold their two's complement.
use mathlib.Core.Path.{subst}
use go_capnp.Base.{refl, sym, ap, ℕ, ◌≡◌, ◌⊎◌, ◌^◌, ◌*◌, ◌-◌, ◌<◌, inl, inr, arith, false, some}
use go_capnp.Base.{if◌then◌else◌, ◌==◌, Bool-cases}
use go_capnp.Lists.Integers.{to_signed, at_int, to_unsigned, set_at_int}
use go_capnp.Base.Result.{◌>>=◌, ok}
use go_capnp.Message.{Message}
use go_capnp.Base.Int.{ℤ, IsInt, pos, negsuc, pos_part}
use go_capnp.Segment.{ListRef}
use go_capnp.Memory.Stores.{IsMemory}
use go_capnp.Lists.Elements.{IsLiveList, set_at_uint-at_uint}
use go_capnp.Lists.{mismatched, data_of}

-- The sizes of the integers that lists hold.
abbrev pub IsWidth : ℕ → Type 0
IsWidth n = (n ≡ 1) ⊎ ((n ≡ 2) ⊎ ((n ≡ 4) ⊎ (n ≡ 8)))

-- The bits of a signed integer of n bytes are a number of n bytes, and give the integer back.
abbrev pub KeepsBits : ℕ → Type 0
KeepsBits n =
    (v : ℤ)
    → IsInt (2 ^ (8 * n - 1)) v
    → (to_unsigned n v < 256 ^ n) × (to_signed n (to_unsigned n v) ≡ v)

keeps_1 : KeepsBits 1
unfolding to_signed to_unsigned
keeps_1 (pos k) h = (ground (arith, h), ground (arith, h))
keeps_1 (negsuc k) h = (ground (arith, h), ground (arith, h))

keeps_2 : KeepsBits 2
unfolding to_signed to_unsigned
keeps_2 (pos k) h = (ground (arith, h), ground (arith, h))
keeps_2 (negsuc k) h = (ground (arith, h), ground (arith, h))

keeps_4 : KeepsBits 4
unfolding to_signed to_unsigned
keeps_4 (pos k) h = (ground (arith, h), ground (arith, h))
keeps_4 (negsuc k) h = (ground (arith, h), ground (arith, h))

keeps_8 : KeepsBits 8
unfolding to_signed to_unsigned
keeps_8 (pos k) h = (ground (arith, h), ground (arith, h))
keeps_8 (negsuc k) h = (ground (arith, h), ground (arith, h))

pub to_signed-to_unsigned : (n : ℕ) → IsWidth n → KeepsBits n
to_signed-to_unsigned n (inl e) = subst KeepsBits (sym e) keeps_1
to_signed-to_unsigned n (inr (inl e)) = subst KeepsBits (sym e) keeps_2
to_signed-to_unsigned n (inr (inr (inl e))) = subst KeepsBits (sym e) keeps_4
to_signed-to_unsigned n (inr (inr (inr e))) = subst KeepsBits (sym e) keeps_8

-- In a list of signed integers of 1, 2, 4 or 8 bytes, setting an element within the list to a value of
-- that size does not panic. That element then holds the value, and every other element holds what it
-- held.
pub set_at_int-at_int :
    (n : ℕ) (m : Message) (l : ListRef) (i : ℕ) (v : ℤ)
    → IsWidth n
    → IsMemory m
    → IsLiveList m l
    → mismatched l (data_of n) ≡ false
    → i < pos_part l.length
    → IsInt (2 ^ (8 * n - 1)) v
    → (m' : Message) × (set_at_int n m (some l) (pos i) v ≡ ok m')
      × ((j : ℕ)
          → j < pos_part l.length
          → at_int n m' (some l) (pos j) ≡ (if i == j then ok v else at_int n m (some l) (pos j)))
unfolding set_at_int at_int ◌>>=◌
set_at_int-at_int n m l i v width w live fit lt range =
    let (small, back) = to_signed-to_unsigned n width v range in
    let (m', done, s, each) = set_at_uint-at_uint n m l i (to_unsigned n v) w live fit lt small in
    (
      m',
      done,
      λ j within. elim (Bool-cases (i == j)) [
        | inl same ↦ rw same (rw (rw same at (each j within)) (ap ok back))
        | inr differ ↦ rw differ (rw (rw differ at (each j within)) refl)
      ],
    )
