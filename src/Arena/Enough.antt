-- ===== src/Arena/Enough.antt =====
-- What nextAlloc answers is enough for the request.
use go_capnp.Base.{ℕ, suc, ◌+◌, ◌-◌, ◌/◌, ◌%◌, ◌^◌, ◌≤◌, ◌<◌, ◌≡◌, refl, arith, Option, some, inl}
use go_capnp.Base.{inr, Bool-cases, ltb, leb, false, ◌==◌, ◌||◌}
use go_capnp.Base.Result.{Ensures, Ensures-weaken, returns, fails}
use go_capnp.Address.{max_alloc_size, pad_to_word}
use go_capnp.Address.Bounds.{pad_to_word_lem, and_not_seven}
use go_capnp.Arena.{next_alloc, grow_by_quarters, is_negative, alloc_more, grown, runs, and_not}

-- The loop ends at `want` or above.
abbrev pub Reaches : ℕ → ℕ → ℕ → Type 0
Reaches rounds want size = (n : ℕ) × (grow_by_quarters rounds want size ≡ some n) × (want ≤ n)

round :
    (left want size : ℕ)
    → 1 ≤ size
    → want < 2 ^ 63
    → Reaches left want (size + size / 4)
    → Reaches (suc left) want size
unfolding grow_by_quarters
round left want size h k (n, e, enough) = elim (Bool-cases (runs want size)) [
  | inl more ↦ (n, rw more e, enough)
  | inr done ↦ (size, rw done refl, ground arith)
]

last_round : (want size : ℕ) → want ≤ size → Reaches 0 want size
unfolding grow_by_quarters
last_round want size h = let done : runs want size ≡ false = ground arith in (size, rw done refl, h)

-- Four rounds of a quarter more double a size of 512 or more.
pub four_rounds :
    (want size : ℕ) → 512 ≤ size → want ≤ size + size → want < 2 ^ 63 → Reaches 4 want size
four_rounds want size large twice h =
    let a = size + size / 4 in
    let b = a + a / 4 in
    let c = b + b / 4 in
    round 3 want size (omega arith) h (
      round 2 want a (omega arith) h (
        round 1 want b (omega arith) h
          (round 0 want c (omega arith) h (last_round want (c + c / 4) (omega arith)))))

is_negative-false : (n : ℕ) → n < 2 ^ 63 → is_negative n ≡ false
is_negative-false n h = ground arith

grown_enough :
    (curr padreq : ℕ) (r : Option ℕ)
    → padreq % 8 ≡ 0
    → padreq ≤ 2 ^ 32 - 8
    → (n : ℕ) × (r ≡ some n) × (curr + padreq ≤ n)
    → Ensures (λ n. (padreq ≤ n) × (n % 8 ≡ 0) × (n ≤ 2 ^ 32 - 8)) (grown curr padreq r)
unfolding max_alloc_size
grown_enough curr padreq r whole small (n, e, more) =
    rw e (elim (Bool-cases (n == 0 || is_negative n)) [
      | inl wrapped ↦ rw wrapped (returns (omega arith))
      | inr fine ↦ rw fine (elim (Bool-cases (ltb (2 ^ 32 - 8) (n - curr))) [
        | inl far ↦ rw far (returns (omega arith))
        | inr near ↦ rw near (
            let bound : n - curr ≤ 2 ^ 32 - 8 = ground arith in
            returns (omega (arith, bound, and_not_seven (n - curr + 7))))
      ])
    ])

alloc_more-enough :
    (curr padreq : ℕ)
    → padreq % 8 ≡ 0
    → 1 ≤ padreq
    → padreq ≤ 2 ^ 32 - 8
    → curr + padreq < 2 ^ 63
    → Ensures (λ n. (padreq ≤ n) × (n % 8 ≡ 0) × (n ≤ 2 ^ 32 - 8)) (alloc_more curr padreq)
unfolding alloc_more
alloc_more-enough curr padreq whole some_bytes small h =
    elim (Bool-cases (ltb (curr + padreq) 1024)) [
      | inl less ↦ rw less (elim (Bool-cases (ltb (and_not (1024 - curr + 7) 7) curr)) [
        | inl big ↦
            rw big
              (returns (ground (arith, and_not_seven (1024 - curr + 7), and_not_seven (curr + 7))))
        | inr rest ↦ rw rest (returns (ground (arith, and_not_seven (1024 - curr + 7))))
      ])
      | inr more ↦
          rw more
            (elim (Bool-cases (is_negative (curr + curr) || ltb (curr + curr) (curr + padreq))) [
              | inl far ↦ rw far (returns (omega arith))
              | inr near ↦ rw near (
                  grown_enough curr padreq _ whole small
                    (four_rounds (curr + padreq) curr (ground arith) (ground arith) h))
            ])
    ]

pub alloc_limit : max_alloc_size ≡ 2 ^ 32 - 8
unfolding max_alloc_size
alloc_limit = refl

-- With int64 values that are not negative, nextAlloc does not panic, and a size that it returns is
-- at least the request, of whole words, and at most the largest allocation. Its loop ends within
-- four rounds.
pub next_alloc-enough :
    (curr max req : ℕ)
    → curr < 2 ^ 63
    → max < 2 ^ 63
    → Ensures (λ n. (req ≤ n) × (n % 8 ≡ 0) × (n ≤ max_alloc_size)) (next_alloc curr max req)
unfolding next_alloc
next_alloc-enough curr max req hc hm = elim (Bool-cases (req == 0)) [
  | inl nothing ↦ rw nothing (returns (ground arith))
  | inr some_bytes ↦ rw some_bytes (elim (Bool-cases (ltb max_alloc_size req)) [
    | inl large ↦ rw large fails
    | inr fits ↦
        rw fits
          (elim (Bool-cases (
            is_negative (curr + pad_to_word req)
            || (leb (curr + pad_to_word req) curr || ltb max (curr + pad_to_word req)))) [
              | inl overflow ↦ rw overflow fails
              | inr room ↦ rw room (
                  let small : req ≤ 2 ^ 32 - 8 = ground (arith, alloc_limit) in
                  let nonzero : 1 ≤ req = ground arith in
                  let sum : curr + pad_to_word req < 2 ^ 63 = ground arith in
                  let padded = pad_to_word_lem req small in
                  Ensures-weaken (λ n. (pad_to_word req ≤ n) × (n % 8 ≡ 0) × (n ≤ 2 ^ 32 - 8))
                    (λ n (enough, whole, bound).
                      (omega (arith, enough, padded), whole, omega (arith, bound, alloc_limit)))
                    (alloc_more-enough curr (pad_to_word req) padded.0 (omega (arith, padded))
                      (omega (arith, padded)) sum))
            ])
  ])
]
