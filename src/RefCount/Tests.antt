-- ===== src/RefCount/Tests.antt =====
-- The theorems on reference counts at a cell with a second reference, of which the first is released.
use go_capnp.Base.{refl, arith, true, [], ◌∷◌, ◌≡◌, ◌^◌, ◌<◌, length}
use go_capnp.Base.Result.{ok}
use go_capnp.RefCount.{Cell, new_ref, add_ref, release}
use go_capnp.RefCount.Steps.{Reachable, starts, goes_on, shares, releases}
use go_capnp.RefCount.Once.{IsCounted, count, release_each, Reachable-IsCounted, release_each-once}

abbrev two_refs : Cell
two_refs = record { refcount = 2; refs = true ∷ true ∷ []; releases = 0 }

new_ref-add_ref : add_ref new_ref 0 ≡ ok two_refs
unfolding add_ref
new_ref-add_ref = refl

two_refs-Reachable : Reachable two_refs
two_refs-Reachable = goes_on starts (shares 0 new_ref-add_ref) (omega arith)

few : length (release two_refs 0).refs < 2 ^ 31
unfolding release
few = omega arith

released-Reachable : Reachable (release two_refs 0)
released-Reachable = goes_on two_refs-Reachable (releases 0) few

Reachable-IsCounted_example : IsCounted (release two_refs 0)
Reachable-IsCounted_example = Reachable-IsCounted (release two_refs 0) released-Reachable

release_each-once_example :
    (count (release_each two_refs 2).refs ≡ 0) × ((release_each two_refs 2).releases ≡ 1)
release_each-once_example = release_each-once two_refs two_refs-Reachable (omega arith)
