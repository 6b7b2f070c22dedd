-- ===== src/IdGen/Tests.antt =====
-- The theorems on ids at a concrete generator: two ids are given, the first is removed and given again.
use mathlib.Core.Path.{subst}
use go_capnp.Base.{◌<◌, ◌^◌, ◌-◌, ℕ, ◌≡◌, refl, [], ◌∷◌, ◌⊎◌}
use go_capnp.Base.Result.{ok, panic}
use go_capnp.IdGen.{IdGen, next_id, remove_id, min_of, add, min_from, first_bit, remove, and_not}
use go_capnp.IdGen.Fresh.{Live, start, given, removed, IsIdGen, OnceInUse, Live-OnceInUse, IsNext}
use go_capnp.IdGen.Fresh.{next_id-IsNext, InUse}
use go_capnp.Base.Bits.{and_not}

abbrev none_given : IdGen
none_given = record { i = 0; free = [] }

abbrev two_given : IdGen
two_given = record { i = 2; free = [] }

abbrev one_back : IdGen
one_back = record { i = 2; free = 1 ∷ [] }

abbrev both_again : IdGen
both_again = record { i = 2; free = 0 ∷ [] }

first_given : next_id none_given ≡ ok (0, record { i = 1; free = [] })
unfolding next_id min_of min_from
first_given = refl

second_given : next_id (record { i = 1; free = [] }) ≡ ok (1, two_given)
unfolding next_id min_of min_from
second_given = refl

first_back : remove_id two_given 0 ≡ one_back
unfolding remove_id add
first_back = refl

first_again : next_id one_back ≡ ok (0, both_again)
unfolding next_id min_of min_from first_bit remove and_not
first_again = refl

two-Live : Live two_given (1 ∷ 0 ∷ [])
two-Live = given 1 (given 0 start first_given) second_given

one-Live : Live one_back (1 ∷ [])
one-Live = subst (λ g. Live g (1 ∷ [])) first_back (removed 0 (1 ∷ []) [] two-Live)

Live-OnceInUse_example : IsIdGen both_again × ((n : ℕ) → OnceInUse both_again (0 ∷ 1 ∷ []) n)
Live-OnceInUse_example = Live-OnceInUse both_again (0 ∷ 1 ∷ []) (given 0 one-Live first_again)

next_id-IsNext_example :
    ((id : ℕ) × (g' : IdGen) × (next_id one_back ≡ ok (id, g')) × IsNext one_back (id, g'))
    ⊎ ((next_id one_back ≡ panic "overflow ID") × ((n : ℕ) → n < 2 ^ 32 - 1 → InUse one_back n))
next_id-IsNext_example = next_id-IsNext one_back (Live-OnceInUse one_back (1 ∷ []) one-Live).0
