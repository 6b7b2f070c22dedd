-- ===== src/RingQueue/Rotation.antt =====
-- A ring buffer read from its start: the buffer rotated.
use go_capnp.Base.{ℕ, zero, suc, ◌+◌, ◌-◌, ◌≤◌, ◌<◌, ◌≡◌, refl, sym, ap, ◌∙◌, arith, List, []}
use go_capnp.Base.{◌∷◌, ◌++◌, length, take, drop, set, get_elem?, some, length-append}
use go_capnp.Base.{length-take, length-drop}
use go_capnp.RingQueue.{Queue}

module _ {ℓ} {A : Type ℓ} where
  abbrev pub rotate : ℕ → List A → List A
  rotate start buf = drop start buf ++ take start buf

  -- What the queue holds, in order.
  abbrev pub elements : Queue A → List A
  elements q = take q.length (rotate q.start q.buf)

  pub length-rotate :
      (start : ℕ) (buf : List A) → start ≤ length buf → length (rotate start buf) ≡ length buf
  length-rotate start buf h = omega (
    arith,
    length-append (drop start buf) (take start buf),
    length-drop start buf,
    length-take start buf,
  )

  pub take-append :
      (k : ℕ) (xs ys : List A) → take k (xs ++ ys) ≡ take k xs ++ take (k - length xs) ys
  take-append zero xs ys = rw (none_left (length xs)) refl
    where
      none_left : (n : ℕ) → 0 - n ≡ 0
      none_left n = omega arith
  take-append (suc k) [] ys = let e : suc k - 0 ≡ suc k = omega arith in rw e refl
  take-append (suc k) (x ∷ xs) ys =
      let e : suc k - suc (length xs) ≡ k - length xs = omega arith in
      ap (◌∷◌ x) (take-append k xs ys) ∙ ap (λ (n : ℕ). x ∷ (take k xs ++ take n ys)) (sym e)

  pub take_all : (k : ℕ) (xs : List A) → length xs ≤ k → take k xs ≡ xs
  take_all zero [] h = refl
  take_all zero (x ∷ xs) h = absurd (omega arith)
  take_all (suc k) [] h = refl
  take_all (suc k) (x ∷ xs) h = ap (◌∷◌ x) (take_all k xs (omega arith))

  pub set-append_left :
      (xs ys : List A) (i : ℕ) (v : A) → i < length xs → set (xs ++ ys) i v ≡ set xs i v ++ ys
  set-append_left [] ys i v h = absurd (omega arith)
  set-append_left (x ∷ xs) ys zero v h = refl
  set-append_left (x ∷ xs) ys (suc i) v h = ap (◌∷◌ x) (set-append_left xs ys i v (omega arith))

  pub set-append_right :
      (xs ys : List A) (i : ℕ) (v : A) → set (xs ++ ys) (length xs + i) v ≡ xs ++ set ys i v
  set-append_right [] ys i v = let e : 0 + i ≡ i = omega arith in rw e refl
  set-append_right (x ∷ xs) ys i v =
      let e : suc (length xs) + i ≡ suc (length xs + i) = omega arith in
      rw e (ap (◌∷◌ x) (set-append_right xs ys i v))

  -- A write at the next free place appends.
  pub take-set_end :
      (xs : List A) (k : ℕ) (v : A)
      → k < length xs
      → take (k + 1) (set xs k v) ≡ take k xs ++ (v ∷ [])
  take-set_end [] k v h = absurd (omega arith)
  take-set_end (x ∷ xs) zero v h = refl
  take-set_end (x ∷ xs) (suc k) v h =
      let e : suc k + 1 ≡ suc (k + 1) = omega arith in
      rw e (ap (◌∷◌ x) (take-set_end xs k v (omega arith)))

  pub take-set_behind : (xs : List A) (k i : ℕ) (v : A) → k ≤ i → take k (set xs i v) ≡ take k xs
  take-set_behind xs zero i v h = refl
  take-set_behind [] (suc k) i v h = refl
  take-set_behind (x ∷ xs) (suc k) zero v h = absurd (omega arith)
  take-set_behind (x ∷ xs) (suc k) (suc i) v h = ap (◌∷◌ x) (take-set_behind xs k i v (omega arith))

  pub drop-set_before : (xs : List A) (k i : ℕ) (v : A) → i < k → drop k (set xs i v) ≡ drop k xs
  drop-set_before xs zero i v h = absurd (omega arith)
  drop-set_before [] (suc k) i v h = refl
  drop-set_before (x ∷ xs) (suc k) zero v h = refl
  drop-set_before (x ∷ xs) (suc k) (suc i) v h = drop-set_before xs k i v (omega arith)

  pub drop-set : (xs : List A) (k i : ℕ) (v : A) → drop k (set xs (k + i) v) ≡ set (drop k xs) i v
  drop-set xs zero i v = let e : 0 + i ≡ i = omega arith in rw e refl
  drop-set [] (suc k) i v = refl
  drop-set (x ∷ xs) (suc k) i v =
      let e : suc k + i ≡ suc (k + i) = omega arith in rw e (drop-set xs k i v)

  pub take-set : (xs : List A) (k i : ℕ) (v : A) → i < k → take k (set xs i v) ≡ set (take k xs) i v
  take-set xs zero i v h = absurd (omega arith)
  take-set [] (suc k) i v h = refl
  take-set (x ∷ xs) (suc k) zero v h = refl
  take-set (x ∷ xs) (suc k) (suc i) v h = ap (◌∷◌ x) (take-set xs k i v (omega arith))

  pub drop_all : (k : ℕ) (xs : List A) → length xs ≤ k → drop k xs ≡ []
  drop_all zero [] h = refl
  drop_all zero (x ∷ xs) h = absurd (omega arith)
  drop_all (suc k) [] h = refl
  drop_all (suc k) (x ∷ xs) h = drop_all k xs (omega arith)

  -- The element at an index parts the list there.
  pub record Parted (xs : List A) (i : ℕ) : Type ℓ where
    pub item : A
    pub found : get_elem? xs i ≡ some item
    pub behind : drop i xs ≡ item ∷ drop (i + 1) xs
    pub before : take (i + 1) xs ≡ take i xs ++ (item ∷ [])

  pub part_at : (xs : List A) (i : ℕ) → i < length xs → Parted xs i
  part_at [] i h = absurd (omega arith)
  part_at (x ∷ xs) zero h = record { item = x; found = refl; behind = refl; before = refl }
  part_at (x ∷ xs) (suc i) h =
      let p = part_at xs i (omega arith) in
      let e : suc i + 1 ≡ suc (i + 1) = omega arith in
      record {
        item = p.item;
        found = p.found;
        behind = rw e p.behind;
        before = rw e (ap (◌∷◌ x) p.before);
      }
