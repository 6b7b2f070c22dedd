-- ===== src/RingQueue.antt =====
-- flowcontrol/bbr/queue.go: an unbounded queue in a ring buffer. `zero_value` is the zero value of the
-- element type, which fills a new buffer. An int does not wrap at the sizes that memory has.
pub mod Rotation
pub mod Refines
pub mod Fifo
mod Tests
use go_capnp.Base.{ℕ, ◌+◌, ◌-◌, ◌*◌, ◌%◌, Bool, true, false, ◌&&◌, List, [], ◌∷◌, ◌++◌, length}
use go_capnp.Base.{take, drop, replicate, set, get_elem?, Option, none, some, ltb, leb, ◌==◌}
use go_capnp.Base.{if◌then◌else◌}
use go_capnp.Base.Result.{Result, ok, panic, ◌>>=◌}

pub record Queue {ℓ} (A : Type ℓ) : Type ℓ where
  pub buf : List A
  pub start : ℕ
  pub length : ℕ

module _ {ℓ} {A : Type ℓ} where
  -- `buf[i]`, `buf[i] = v` and `buf[lo:hi]`; a queue's buffer has no capacity beyond its length.
  abbrev pub indexed : Option A → Result A
  indexed none = panic "index out of range"
  indexed (some v) = ok v

  unfoldable pub at_index : List A → ℕ → Result A
  at_index buf i = indexed (get_elem? buf i)

  unfoldable pub store : List A → ℕ → A → Result (List A)
  store buf i v = if ltb i (length buf) then ok (set buf i v) else panic "index out of range"

  unfoldable pub part : List A → ℕ → ℕ → Result (List A)
  part buf lo hi =
      if leb lo hi && leb hi (length buf)
      then ok (take (hi - lo) (drop lo buf))
      else panic "slice bounds out of range"

  unfoldable pub empty : Queue A → Bool
  empty q = q.length == 0

  unfoldable pub peek : Queue A → Result A
  unfolding empty
  peek q = if empty q then panic "empty queue" else at_index q.buf q.start

  unfoldable pub pop : Queue A → Result (A × Queue A)
  unfolding ◌>>=◌
  pop q = do
    v ← peek q
    ok (v, record q { start = (q.start + 1) % length q.buf; length = q.length - 1 })

  -- The items in two parts, those of the first before those of the second.
  unfoldable pub items : Queue A → Result (List A × List A)
  unfolding ◌>>=◌
  items q =
      let n = length q.buf in
      if ltb n (q.start + q.length)
      then (do
        head ← part q.buf q.start n
        tail ← part q.buf 0 (q.start + q.length - n)
        ok (head, tail))
      else (do head ← part q.buf q.start (q.start + q.length); ok (head, []))

  unfoldable pub fold_slice {κ} : {B : Type κ} → (B → A → B) → B → List A → B
  fold_slice combine acc [] = acc
  fold_slice combine acc (v ∷ vs) = fold_slice combine (combine acc v) vs

  unfoldable pub fold_queue {κ} : {B : Type κ} → Queue A → B → (B → A → B) → Result B
  unfolding ◌>>=◌ fold_slice
  fold_queue q init combine = do
    r ← items q
    ok (fold_slice combine (fold_slice combine init r.0) r.1)

  module _ (zero_value : A) where
    unfoldable pub new_queue : ℕ → Queue A
    new_queue size_hint = record { buf = replicate size_hint zero_value; start = 0; length = 0 }

    -- The appends fit the new buffer's capacity, up to which it is then extended.
    unfoldable pub grow : Queue A → Result (Queue A)
    unfolding ◌>>=◌
    grow q = do
      r ← items q
      let filled = r.0 ++ r.1
      let capacity = 2 * length q.buf + 1
      ok (record q { buf = filled ++ replicate (capacity - length filled) zero_value; start = 0 })

    unfoldable pub put : Queue A → A → Result (Queue A)
    unfolding ◌>>=◌
    put q v = do
      buf ← store q.buf ((q.start + q.length) % length q.buf) v
      ok (record q { buf = buf; length = q.length + 1 })

    unfoldable pub push : Queue A → A → Result (Queue A)
    unfolding ◌>>=◌
    push q v = if q.length == length q.buf then (do grown ← grow q; put grown v) else put q v
