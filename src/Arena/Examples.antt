-- ===== src/Arena/Examples.antt =====
-- A pool of buffers, for runs of the code.
use go_capnp.Base.{ℕ, arith, List, replicate, length-replicate}
use go_capnp.Slice.Bytes.{zeros-IsBytes}
use go_capnp.Arena.Contract.{IsPool}

-- A pool of new buffers.
abbrev pub fresh : ℕ → List ℕ
fresh n = replicate n 0

pub fresh-IsPool : IsPool fresh
fresh-IsPool = record {
  room = λ n. omega (arith, length-replicate {A = ℕ} n 0);
  bytes = zeros-IsBytes;
}
