-- ===== src/Arena/Growth.antt =====
-- The sizes that nextAlloc answers grow with what is allocated.
use go_capnp.Base.{ℕ, zero, suc, ◌+◌, ◌-◌, ◌/◌, ◌^◌, ◌≤◌, ◌<◌, ◌≡◌, ◌⊎◌, arith, some, inl, inr}
use go_capnp.Base.{Bool-cases, ltb, leb, ◌==◌, ◌||◌, true, false, refl}
use mathlib.Core.Option.{some-injective}
use go_capnp.Base.Result.{Ensures, returns, fails}
use go_capnp.Address.{max_alloc_size, pad_to_word}
use go_capnp.Address.Bounds.{pad_to_word_lem, and_not_seven}
use go_capnp.Arena.{next_alloc, grow_by_quarters, is_negative, alloc_more, grown, runs, and_not}
use go_capnp.Arena.Enough.{four_rounds, alloc_limit}

-- The loop never shrinks its size, and ends at most a quarter above `want`.
grow_by_quarters-within :
    (left want size n : ℕ)
    → size ≤ want + want / 4
    → grow_by_quarters left want size ≡ some n
    → (size ≤ n) × (n ≤ want + want / 4)
unfolding grow_by_quarters
grow_by_quarters-within zero want size n h e = ground (arith, e)
grow_by_quarters-within (suc left) want size n h e = elim (Bool-cases (runs want size)) [
  | inl more ↦
      let (up, high) =
        grow_by_quarters-within left want (size + size / 4) n (ground (arith, more))
          (rw more at e) in
      (omega (arith, up), high)
  | inr done ↦
      let same : some size ≡ some n = rw done at e in
      let s : size ≡ n = some-injective _ _ same in (omega (arith, s), omega (arith, s, h))
]

-- Its first round adds a quarter.
first_round :
    (left want size n : ℕ)
    → 1 ≤ size
    → size < want
    → want < 2 ^ 63
    → grow_by_quarters (suc left) want size ≡ some n
    → (size + size / 4 ≤ n) × (n ≤ want + want / 4)
unfolding grow_by_quarters
first_round left want size n some_bytes less small e =
    let more : runs want size ≡ true = ground (arith, some_bytes, less, small) in
    grow_by_quarters-within left want (size + size / 4) n (omega (arith, less)) (rw more at e)

-- A quarter of what is there, or the largest size.
abbrev pub Grows : ℕ → ℕ → Type 0
Grows curr n = (curr / 4 ≤ n) ⊎ (n ≡ max_alloc_size)

grown-Grows :
    (curr padreq n : ℕ)
    → 1 ≤ n
    → n < 2 ^ 63
    → curr + curr / 4 ≤ n
    → Ensures (Grows curr) (grown curr padreq (some n))
grown-Grows curr padreq n some_bytes small up =
    let fine : (n == 0 || is_negative n) ≡ false = ground (arith, some_bytes, small) in
    rw fine (elim (Bool-cases (ltb max_alloc_size (n - curr))) [
      | inl far ↦ rw far (returns (inr refl))
      | inr near ↦ rw near (returns (inl (omega (arith, up, and_not_seven (n - curr + 7)))))
    ])

alloc_more-Grows :
    (curr padreq : ℕ) → 1 ≤ padreq → curr < 2 ^ 61 → Ensures (Grows curr) (alloc_more curr padreq)
unfolding alloc_more
alloc_more-Grows curr padreq some_bytes small = elim (Bool-cases (ltb (curr + padreq) 1024)) [
  | inl less ↦ rw less (elim (Bool-cases (ltb (and_not (1024 - curr + 7) 7) curr)) [
    | inl big ↦ rw big (returns (inl (omega (arith, and_not_seven (curr + 7)))))
    | inr rest ↦ rw rest (returns (inl (ground (arith, rest))))
  ])
  | inr more ↦
      rw more (elim (Bool-cases (is_negative (curr + curr) || ltb (curr + curr) (curr + padreq))) [
        | inl far ↦ rw far (returns (inl (ground (arith, far, small))))
        | inr near ↦
            let twice : curr + padreq ≤ curr + curr = ground (arith, near) in
            let large : 512 ≤ curr = ground (arith, more, twice) in
            let (n, e, enough) =
              four_rounds (curr + padreq) curr large twice (omega (arith, twice, small)) in
            let (up, high) =
              first_round 3 (curr + padreq) curr n (omega (arith, large)) (omega arith)
                (omega (arith, twice, small)) e in
            rw near (
              rw e (
                grown-Grows curr padreq n (omega (arith, enough))
                  (omega (arith, high, twice, small)) up))
      ])
]

-- With less than 2 ^ 61 bytes allocated so far, nextAlloc does not panic, and a size that it returns for a
-- request that is not empty is at least a quarter of these bytes, or the largest allocation: the sizes grow
-- exponentially up to that one.
pub next_alloc-grows :
    (curr max req : ℕ)
    → curr < 2 ^ 61
    → max < 2 ^ 63
    → 1 ≤ req
    → Ensures (λ n. (curr / 4 ≤ n) ⊎ (n ≡ max_alloc_size)) (next_alloc curr max req)
unfolding next_alloc
next_alloc-grows curr max req small hm some_bytes =
    let nonempty : (req == 0) ≡ false = ground arith in
    rw nonempty (elim (Bool-cases (ltb max_alloc_size req)) [
      | inl large ↦ rw large fails
      | inr fits ↦
          rw fits
            (elim (Bool-cases (
              is_negative (curr + pad_to_word req)
              || (leb (curr + pad_to_word req) curr || ltb max (curr + pad_to_word req)))) [
                | inl overflow ↦ rw overflow fails
                | inr room ↦ rw room (
                    let low : req ≤ 2 ^ 32 - 8 = ground (arith, alloc_limit) in
                    alloc_more-Grows curr (pad_to_word req)
                      (omega (arith, pad_to_word_lem req low, some_bytes)) small)
              ])
    ])
