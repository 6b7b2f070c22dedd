-- ===== src/RingQueue/Fifo.antt =====
-- The ring buffer as a queue: Push, Pop and Fold on the list of its elements, and any sequence of
-- calls from a new queue.
use go_capnp.Base.{ℕ, ◌<◌, ◌≡◌, refl, sym, ap, ◌∙◌, arith, ◌⊎◌, inl, inr, List, [], ◌∷◌, ◌++◌}
use go_capnp.Base.{length, Bool-cases, ◌==◌}
use mathlib.Core.List.{foldl, foldl-append}
use go_capnp.Base.Result.{Result, ok, panic, ◌>>=◌}
use go_capnp.RingQueue.{Queue, pop, peek, empty, push, fold_slice, fold_queue, new_queue}
use go_capnp.RingQueue.Rotation.{elements}
use go_capnp.RingQueue.Refines.{IsQueue, items-elements, pop_full, put_lem, grow_lem}

module _ {ℓ} {A : Type ℓ} where
  -- A push on a well-formed queue does not panic, keeps it well formed, also where the buffer is
  -- full and grows, and appends the value.
  pub push-elements :
      (zero_value : A) (q : Queue A) (x : A)
      → IsQueue q
      → (more : Queue A) × (push zero_value q x ≡ ok more)
        × IsQueue more
        × (elements more ≡ elements q ++ (x ∷ []))
  unfolding push ◌>>=◌
  push-elements zero_value q x v = elim (Bool-cases (q.length == length q.buf)) [
    | inl full ↦
        let (grown, e, valid, room, same) = grow_lem zero_value q v in
        let (more, e', valid', added) = put_lem zero_value grown x valid room in
        (more, rw (full, e) e', valid', added ∙ ap (λ xs. xs ++ (x ∷ [])) same)
    | inr space ↦
        let room : q.length < length q.buf = ground (arith, v.fits) in
        let (more, e, valid, added) = put_lem zero_value q x v room in
        (more, rw space e, valid, added)
  ]

  -- A pop on a well-formed queue panics when it holds nothing, and otherwise returns the first
  -- element and a well-formed queue of the others.
  pub pop-elements :
      (q : Queue A)
      → IsQueue q
      → ((elements q ≡ []) × (pop q ≡ panic "empty queue"))
        ⊎ ((x : A) × (rest : Queue A) × (pop q ≡ ok (x, rest))
            × IsQueue rest
            × (elements q ≡ x ∷ elements rest))
  unfolding pop peek empty ◌>>=◌
  pop-elements q v = elim (Bool-cases (q.length == 0)) [
    | inl none_left ↦
        let nothing : q.length ≡ 0 = ground arith in inl (rw nothing refl, rw none_left refl)
    | inr some_items ↦ inr (pop_full q v (ground arith))
  ]

  fold_slice-foldl {κ} :
      {B : Type κ} (combine : B → A → B) (acc : B) (xs : List A)
      → fold_slice combine acc xs ≡ foldl combine acc xs
  unfolding fold_slice
  fold_slice-foldl combine acc [] = refl
  fold_slice-foldl combine acc (x ∷ xs) = fold_slice-foldl combine (combine acc x) xs

  -- Fold of a well-formed queue does not panic, and is the left fold of the list of its elements, from the
  -- first to the last, also where they lie around the end of the buffer.
  pub fold_queue-elements {κ} :
      {B : Type κ} (q : Queue A) (init : B) (combine : B → A → B)
      → IsQueue q
      → fold_queue q init combine ≡ ok (foldl combine init (elements q))
  unfolding fold_queue ◌>>=◌
  fold_queue-elements q init combine v =
      let (head, tail, e, join) = items-elements q v in
      rw
        (
          e,
          fold_slice-foldl combine init head,
          fold_slice-foldl combine (foldl combine init head) tail,
        )
        (ap ok (sym (foldl-append combine init head tail) ∙ ap (foldl combine init) join))

pub data Call {ℓ} (A : Type ℓ) : Type ℓ where
  pushes : A → Call A
  pops : Call A

module _ {ℓ} {A : Type ℓ} where
  -- The values that the pops of some calls return.
  abbrev pub run : A → Queue A → List (Call A) → Result (List A)
  run zero_value q [] = ok []
  run zero_value q (pushes x ∷ calls) = do q' ← push zero_value q x; run zero_value q' calls
  run zero_value q (pops ∷ calls) = do r ← pop q; out ← run zero_value r.1 calls; ok (r.0 ∷ out)

  -- The same calls on a list, which appends at its end.
  abbrev pub run_list : List A → List (Call A) → Result (List A)
  run_list xs [] = ok []
  run_list xs (pushes x ∷ calls) = run_list (xs ++ (x ∷ [])) calls
  run_list [] (pops ∷ calls) = panic "empty queue"
  run_list (x ∷ xs) (pops ∷ calls) = do out ← run_list xs calls; ok (x ∷ out)

  run-elements :
      (zero_value : A) (q : Queue A) (calls : List (Call A))
      → IsQueue q
      → run zero_value q calls ≡ run_list (elements q) calls
  unfolding ◌>>=◌
  run-elements zero_value q [] v = refl
  run-elements zero_value q (pushes x ∷ calls) v =
      let (more, e, valid, added) = push-elements zero_value q x v in
      rw (e, run-elements zero_value more calls valid, added) refl
  run-elements zero_value q (pops ∷ calls) v = elim (pop-elements q v) [
    | inl (nothing, e) ↦ rw (e, nothing) refl
    | inr (x, rest, e, valid, taken) ↦
        rw (e, taken) (rw (run-elements zero_value rest calls valid) refl)
  ]

  new_queue-IsQueue : (zero_value : A) (size_hint : ℕ) → IsQueue (new_queue zero_value size_hint)
  unfolding new_queue
  new_queue-IsQueue zero_value size_hint = record { head = omega arith; fits = omega arith }

  -- From a new queue of any size, any sequence of pushes and pops returns what a first-in,
  -- first-out list returns, and panics exactly where a pop finds that list empty.
  pub new_queue-run :
      (zero_value : A) (size_hint : ℕ) (calls : List (Call A))
      → run zero_value (new_queue zero_value size_hint) calls ≡ run_list [] calls
  new_queue-run zero_value size_hint calls =
      run-elements zero_value (new_queue zero_value size_hint) calls
        (new_queue-IsQueue zero_value size_hint)
      ∙ ap (λ xs. run_list xs calls) (unfold new_queue in refl)
