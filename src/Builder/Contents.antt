-- ===== src/Builder/Contents.antt =====
-- What a segment's bytes are once it has grown.
use go_capnp.Base.{ℕ, zero, suc, ◌+◌, ◌-◌, ◌^◌, ◌≤◌, ◌<◌, ◌≡◌, refl, sym, ap, ◌∙◌, arith, List}
use go_capnp.Base.{[], ◌∷◌, length, take, drop, replicate, length-replicate, take-take}
use go_capnp.Base.Result.{ok}
use go_capnp.Slice.{Slice, IsSlice, read_uint, le_uint}
use go_capnp.Slice.Bytes.{range-splice_self, range-splice_before, length-splice, splice-IsBytes}
use go_capnp.Slice.Bytes.{zeros-IsBytes}
use go_capnp.Slice.ReadWrite.{read_in_range}
use go_capnp.Builder.{cleared}

take-drop_prefix :
    (xs : List ℕ) (n off k : ℕ) → off + k ≤ n → take k (drop off (take n xs)) ≡ take k (drop off xs)
take-drop_prefix xs n zero k h = take-take k n xs (omega arith)
take-drop_prefix [] zero (suc off) k h = absurd (omega arith)
take-drop_prefix [] (suc n) (suc off) k h = refl
take-drop_prefix (x ∷ xs) zero (suc off) k h = absurd (omega arith)
take-drop_prefix (x ∷ xs) (suc n) (suc off) k h = take-drop_prefix xs n off k (omega arith)

drop-nil : (n : ℕ) → [] ≡ drop {A = ℕ} n []
drop-nil zero = refl
drop-nil (suc n) = refl

pub drop-drop : (xs : List ℕ) (a b : ℕ) → drop b (drop a xs) ≡ drop (a + b) xs
drop-drop xs zero b = ap (λ k. drop k xs) (omega arith)
drop-drop [] (suc a) zero = drop-nil (suc a + 0)
drop-drop [] (suc a) (suc b) = drop-nil (suc a + suc b)
drop-drop (x ∷ xs) (suc a) b =
    drop-drop xs a b ∙ ap (λ k. drop k (x ∷ xs)) {x = suc (a + b)} {y = suc a + b} (omega arith)

range-replicate :
    (n off k : ℕ) → off + k ≤ n → take {A = ℕ} k (drop off (replicate n 0)) ≡ replicate k 0
range-replicate n off zero h = refl
range-replicate zero off (suc k) h = absurd (omega arith)
range-replicate (suc n) zero (suc k) h =
    ap (λ bytes. 0 ∷ bytes) (range-replicate n 0 k (omega arith))
range-replicate (suc n) (suc off) (suc k) h = range-replicate n off (suc k) (omega arith)

le_uint-zeros : (k : ℕ) → le_uint (replicate k 0) ≡ 0
unfolding le_uint
le_uint-zeros zero = refl
le_uint-zeros (suc k) = omega (arith, le_uint-zeros k)

-- Two slices read alike where their bytes are the same.
pub read_prefix :
    (s t : Slice) (n off k : ℕ)
    → take n s.mem ≡ take n t.mem
    → n ≤ length s.mem
    → n ≤ length t.mem
    → n < 2 ^ 32
    → off + k ≤ n
    → read_uint k s off ≡ read_uint k t off
read_prefix s t n off k same hs ht small h =
    read_in_range k s off (omega (arith, hs, h)) (omega (arith, small, h))
    ∙ ap (λ bytes. ok (le_uint bytes))
        (sym (take-drop_prefix s.mem n off k h)
          ∙ ap (λ bytes. take k (drop off bytes)) same
          ∙ take-drop_prefix t.mem n off k h)
    ∙ sym (read_in_range k t off (omega (arith, ht, h)) (omega (arith, small, h)))

module _ (d : Slice) (end : ℕ) (v : IsSlice d) (up : d.len ≤ end) (room : end ≤ length d.mem) where
  abbrev zeros : List ℕ
  zeros = replicate (end - d.len) 0

  length-zeros : length zeros ≡ end - d.len
  length-zeros = length-replicate (end - d.len) 0

  pub length-cleared : length (cleared d end).mem ≡ length d.mem
  length-cleared = length-splice d.mem zeros d.len (omega (arith, length-zeros, up, room))

  pub cleared-IsSlice : IsSlice (cleared d end)
  cleared-IsSlice = record {
    within = omega (arith, length-cleared, room);
    bytes = splice-IsBytes d.mem zeros d.len v.bytes (zeros-IsBytes (end - d.len));
  }

  pub cleared-kept : take d.len (cleared d end).mem ≡ take d.len d.mem
  cleared-kept = range-splice_before d.mem zeros d.len 0 d.len v.within (omega arith)

  pub cleared-zero :
      (off k : ℕ)
      → d.len ≤ off
      → off + k ≤ end
      → end < 2 ^ 32
      → read_uint k (cleared d end) off ≡ ok 0
  cleared-zero off k low high small =
      let inside : (off - d.len) + k ≤ end - d.len = omega (arith, low, high) in
      read_in_range k (cleared d end) off (omega (arith, length-cleared, room, high))
        (omega (arith, small, high))
      ∙ ap (λ bytes. ok (le_uint bytes))
          (ap (λ j. take k (drop j (cleared d end).mem)) (omega (arith, low))
            ∙ ap (take k) (sym (drop-drop (cleared d end).mem d.len (off - d.len)))
            ∙ sym (
                take-drop_prefix (drop d.len (cleared d end).mem) (end - d.len) (off - d.len) k
                  inside)
            ∙ ap (λ bytes. take k (drop (off - d.len) bytes))
                (ap (λ j. take j (drop d.len (cleared d end).mem)) (sym length-zeros)
                  ∙ range-splice_self d.mem zeros d.len v.within)
            ∙ range-replicate (end - d.len) (off - d.len) k inside)
      ∙ ap ok (le_uint-zeros k)
