-- ===== src/RefCount/Steps.antt =====
-- util/rc/ref.go: the states that calls reach, in any order.
use go_capnp.Base.{ℕ, ◌≡◌, ◌<◌, ◌^◌, length}
use go_capnp.Base.Result.{ok}
use go_capnp.RefCount.{Cell, new_ref, add_ref, release, steal, add_weak_ref}

pub data Step : Cell → Cell → Type 0 where
  shares : {c c' : Cell} (i : ℕ) → add_ref c i ≡ ok c' → Step c c'
  releases : {c : Cell} (i : ℕ) → Step c (release c i)
  steals : {c : Cell} (i : ℕ) → i < length c.refs → Step c (steal c i)
  revives : {c : Cell} → Step c (add_weak_ref c).0

-- The cells that calls reach from a new one, with fewer than 2 ^ 31 references ever made.
pub data Reachable : Cell → Type 0 where
  starts : Reachable new_ref
  goes_on : {c c' : Cell} → Reachable c → Step c c' → length c'.refs < 2 ^ 31 → Reachable c'
