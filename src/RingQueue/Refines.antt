-- ===== src/RingQueue/Refines.antt =====
-- The ring buffer is a queue: its elements, in order, are what a list would hold.
use go_capnp.Base.{ℕ, zero, suc, ◌+◌, ◌-◌, ◌*◌, ◌%◌, ◌≤◌, ◌<◌, ◌≡◌, refl, sym, ap, ◌∙◌, arith}
use go_capnp.Base.{◌⊎◌, inl, inr, List, [], ◌∷◌, ◌++◌, length, take, drop, set, replicate}
use go_capnp.Base.{length-append, length-take, length-drop, length-replicate, take-take}
use go_capnp.Base.{length-set, Bool-cases, ltb, leb, true, false, ◌==◌}
use mathlib.Core.List.{append_assoc, append-nil}
use native.Mathlib.Nat.{mod-lt, mod_self, mod-eq-sub-mod, mod-eq_of_lt}
use go_capnp.Base.Result.{ok, ◌>>=◌}
use go_capnp.RingQueue.{Queue, items, pop, peek, empty, put, grow, part, store, at_index}
use go_capnp.RingQueue.Rotation.{rotate, elements, length-rotate, take-append, take_all, drop_all}
use go_capnp.RingQueue.Rotation.{set-append_left, set-append_right, take-set_end, take-set_behind}
use go_capnp.RingQueue.Rotation.{drop-set_before, drop-set, take-set, Parted, part_at}

-- The start is an index of the buffer, 0 in an empty one, and the items fit.
pub record IsQueue {ℓ} {A : Type ℓ} (q : Queue A) : Type 0 where
  pub head : q.start ≤ length q.buf - 1
  pub fits : q.length ≤ length q.buf

mod_wrap : (a n : ℕ) → n ≤ a → a < n + n → a % n ≡ a - n
mod_wrap a n h k = mod-eq-sub-mod h ∙ mod-eq_of_lt (omega arith)

sum_cases : (a n : ℕ) → (a < n) ⊎ (n ≤ a)
sum_cases a n = ground arith

last_or_less : (s n : ℕ) → s < n → (s + 1 < n) ⊎ (s + 1 ≡ n)
last_or_less s n h = ground arith

next_cases : (s n : ℕ) → s < n → ((s + 1) % n ≡ s + 1) ⊎ ((s + 1 ≡ n) × ((s + 1) % n ≡ 0))
next_cases s n h = elim (last_or_less s n h) [
  | inl inside ↦ inl (mod-eq_of_lt inside)
  | inr last ↦ inr (last, ap (λ (k : ℕ). k % n) last ∙ mod_self n)
]

module _ {ℓ} {A : Type ℓ} where
  pub length-elements : (q : Queue A) → IsQueue q → length (elements q) ≡ q.length
  length-elements q v = omega (
    arith,
    length-take q.length (rotate q.start q.buf),
    length-rotate q.start q.buf (omega (arith, v.head)),
    v.fits,
  )

  part_lem :
      (buf : List A) (lo hi : ℕ)
      → lo ≤ hi
      → hi ≤ length buf
      → part buf lo hi ≡ ok (take (hi - lo) (drop lo buf))
  unfolding part
  part_lem buf lo hi h k =
      let lower : leb lo hi ≡ true = ground arith in
      let upper : leb hi (length buf) ≡ true = ground arith in rw (lower, upper) refl

  at_index_lem : (buf : List A) (i : ℕ) (p : Parted buf i) → at_index buf i ≡ ok p.item
  unfolding at_index
  at_index_lem buf i p = rw p.found refl

  store_lem : (buf : List A) (i : ℕ) (x : A) → i < length buf → store buf i x ≡ ok (set buf i x)
  unfolding store
  store_lem buf i x h = let inside : ltb i (length buf) ≡ true = ground arith in rw inside refl

  -- The two ends of the elements in the buffer.
  elements-append :
      (q : Queue A)
      → elements q
        ≡ take q.length (drop q.start q.buf)
          ++ take (q.length - (length q.buf - q.start)) (take q.start q.buf)
  elements-append q =
      let e = length-drop q.start q.buf in
      rw e at (take-append q.length (drop q.start q.buf) (take q.start q.buf))

  tail_size :
      (q : Queue A)
      → IsQueue q
      → length q.buf < q.start + q.length
      → q.start + q.length - length q.buf - 0 ≡ q.length - (length q.buf - q.start)
  tail_size q v over = omega (arith, v.head, v.fits)

  pub items-elements :
      (q : Queue A)
      → IsQueue q
      → (head : List A) × (tail : List A) × (items q ≡ ok (head, tail))
        × (head ++ tail ≡ elements q)
  unfolding items ◌>>=◌
  items-elements q v = elim (Bool-cases (ltb (length q.buf) (q.start + q.length))) [
    | inl wraps ↦
        let over : length q.buf < q.start + q.length = ground arith in
        (
          take (length q.buf - q.start) (drop q.start q.buf),
          take (q.start + q.length - length q.buf - 0) q.buf,
          rw
              (
                wraps,
                part_lem q.buf q.start (length q.buf) (omega (arith, v.head)) (omega arith),
                part_lem q.buf 0 (q.start + q.length - length q.buf) (omega arith)
                    (omega (arith, v.fits, v.head)),
              )
              refl,
          rw
              (
                elements-append q,
                take_all (length q.buf - q.start) (drop q.start q.buf)
                    (omega (arith, length-drop q.start q.buf)),
                take_all q.length (drop q.start q.buf)
                    (omega (arith, length-drop q.start q.buf, over)),
                take-take (q.length - (length q.buf - q.start)) q.start q.buf
                    (omega (arith, v.fits)),
                tail_size q v over,
              )
              refl,
        )
    | inr straight ↦
        let under : q.start + q.length ≤ length q.buf = ground arith in
        (
          take (q.start + q.length - q.start) (drop q.start q.buf),
          [],
          rw (straight, part_lem q.buf q.start (q.start + q.length) (omega arith) under) refl,
          let all : q.start + q.length - q.start ≡ q.length = omega arith in
              let none_left : q.length - (length q.buf - q.start) ≡ 0 = omega (arith, under) in
              rw (elements-append q, all, none_left) refl,
        )
  ]

  rotate_next :
      (buf : List A) (s : ℕ) (p : Parted buf s)
      → s < length buf
      → rotate ((s + 1) % length buf) buf ≡ drop (s + 1) buf ++ (take s buf ++ (p.item ∷ []))
  rotate_next buf s p h = elim (next_cases s (length buf) h) [
    | inl inside ↦ rw (inside, p.before) refl
    | inr (last, e) ↦
        rw (e, drop_all (s + 1) buf (omega arith))
          (append-nil buf ∙ sym (take_all (s + 1) buf (omega arith)) ∙ p.before)
  ]

  pop_elements :
      (buf : List A) (s l : ℕ) (p : Parted buf s)
      → s < length buf
      → 1 ≤ l
      → l ≤ length buf
      → take l (rotate s buf) ≡ p.item ∷ take (l - 1) (rotate ((s + 1) % length buf) buf)
  pop_elements buf s zero p h some_items fits = absurd (omega arith)
  pop_elements buf s (suc k) p h some_items fits =
      let less : suc k - 1 ≡ k = omega arith in
      let none_left : k - length (drop (s + 1) buf ++ take s buf) ≡ 0 = omega (
        arith,
        length-append (drop (s + 1) buf) (take s buf),
        length-drop (s + 1) buf,
        length-take s buf,
      ) in
      rw (rotate_next buf s p h, less, p.behind)
        (ap (◌∷◌ p.item) (
          sym (append-nil _)
          ∙ sym (rw none_left at (take-append k (drop (s + 1) buf ++ take s buf) (p.item ∷ [])))
          ∙ ap (take k) (append_assoc (drop (s + 1) buf) (take s buf) (p.item ∷ []))))

  rotate-set :
      (buf : List A) (s l : ℕ) (x : A)
      → s ≤ length buf - 1
      → l < length buf
      → rotate s (set buf ((s + l) % length buf) x) ≡ set (rotate s buf) l x
  rotate-set buf s l x h room = elim (sum_cases (s + l) (length buf)) [
    | inl inside ↦
        rw (mod-eq_of_lt inside, drop-set buf s l x, take-set_behind buf s (s + l) x (omega arith))
          (sym (set-append_left (drop s buf) (take s buf) l x (omega (arith, length-drop s buf))))
    | inr over ↦
        let i = s + l - length buf in
        let place : l ≡ length (drop s buf) + i = omega (arith, length-drop s buf) in
        rw
          (
            mod_wrap (s + l) (length buf) over (omega arith),
            drop-set_before buf s i x (omega arith),
            take-set buf s i x (omega arith),
          )
          (sym (
            ap (λ (k : ℕ). set (rotate s buf) k x) place
            ∙ set-append_right (drop s buf) (take s buf) i x))
  ]

  pub pop_full :
      (q : Queue A)
      → IsQueue q
      → 1 ≤ q.length
      → (x : A) × (rest : Queue A) × (pop q ≡ ok (x, rest))
        × IsQueue rest
        × (elements q ≡ x ∷ elements rest)
  unfolding pop peek empty ◌>>=◌
  pop_full q v some_items =
      let p = part_at q.buf q.start (omega (arith, v.head, v.fits)) in
      let nonempty : (q.length == 0) ≡ false = ground arith in
      (
        p.item,
        record q { start = (q.start + 1) % length q.buf; length = q.length - 1 },
        rw (nonempty, at_index_lem q.buf q.start p) refl,
        record {
          head =
              omega
                (arith, v.fits, mod-lt (q.start + 1) {m = length q.buf} (omega (arith, v.fits)));
          fits = omega (arith, v.fits);
        },
        pop_elements q.buf q.start q.length p (omega (arith, v.head, v.fits)) some_items v.fits,
      )

  module _ (zero_value : A) where
    pub put_lem :
        (q : Queue A) (x : A)
        → IsQueue q
        → q.length < length q.buf
        → (more : Queue A) × (put zero_value q x ≡ ok more)
          × IsQueue more
          × (elements more ≡ elements q ++ (x ∷ []))
    unfolding put ◌>>=◌
    put_lem q x v room =
        let i = (q.start + q.length) % length q.buf in
        (
          record q { buf = set q.buf i x; length = q.length + 1 },
          rw (store_lem q.buf i x (mod-lt (q.start + q.length) {m = length q.buf} (omega arith)))
              refl,
          record {
            head = omega (arith, v.head, length-set q.buf i x);
            fits = omega (arith, room, length-set q.buf i x);
          },
          rw (rotate-set q.buf q.start q.length x v.head room) (
              take-set_end (rotate q.start q.buf) q.length x
                (omega (arith, room, length-rotate q.start q.buf (omega (arith, v.head))))),
        )

    pub grow_lem :
        (q : Queue A)
        → IsQueue q
        → (more : Queue A) × (grow zero_value q ≡ ok more)
          × IsQueue more
          × (more.length < length more.buf)
          × (elements more ≡ elements q)
    unfolding grow ◌>>=◌
    grow_lem q v =
        let (head, tail, e, join) = items-elements q v in
        let filled : length (head ++ tail) ≡ q.length = ap length join ∙ length-elements q v in
        let spare = replicate (2 * length q.buf + 1 - length (head ++ tail)) zero_value in
        let size = length-replicate (2 * length q.buf + 1 - length (head ++ tail)) zero_value in
        let none_left : q.length - length (head ++ tail) ≡ 0 = omega (arith, filled) in
        (
          record q { buf = head ++ tail ++ spare; start = 0 },
          rw e refl,
          record {
            head = omega arith;
            fits = omega (arith, length-append (head ++ tail) spare, filled);
          },
          omega (arith, length-append (head ++ tail) spare, filled, size, v.fits),
          ap (take q.length) (append-nil (head ++ tail ++ spare))
              ∙ rw none_left at (take-append q.length (head ++ tail) spare)
              ∙ append-nil _
              ∙ take_all q.length (head ++ tail) (omega (arith, filled))
              ∙ join,
        )
