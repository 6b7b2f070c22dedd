-- ===== src/Packed/Step.antt =====
-- The runs behind the tags 0x00 and 0xff, as Pack writes them and Unpack reads them.
use go_capnp.Base.{ℕ, zero, suc, ◌+◌, ◌-◌, ◌*◌, ◌/◌, ◌%◌, ◌≤◌, ◌<◌, ◌≡◌, ◌≢◌, ◌⊎◌, inl, inr, refl}
use go_capnp.Base.{sym, ap, ◌∙◌, arith, min, true, List, [], ◌∷◌, ◌++◌, some, length, take, drop}
use go_capnp.Base.{replicate, length-take, length-drop, take-append-drop, ◌==◌, ltb, u8}
use go_capnp.Base.{Bool-cases, Option, ltb→lt}
use go_capnp.Slice.{IsBytes}
use go_capnp.Slice.Bytes.{take-IsBytes, drop-IsBytes, take_append, drop_append}
use mathlib.Core.List.{append-nil}
use go_capnp.Packed.{zero_words_from, num_zero_words, count_zeros, raw_end, pack_run, unpack_run}
use go_capnp.Packed.{alloc_words, zero_tag, unpacked_tag, word_size}

-- Up to the words that are counted all bytes are zero.
zero_prefix : (bs : List ℕ) (i m : ℕ) → i + m ≤ zero_words_from i bs * 8 → take m bs ≡ replicate m 0
unfolding zero_words_from
zero_prefix bs i zero h = refl
zero_prefix [] i (suc m) h = absurd (omega arith)
zero_prefix (b ∷ bs) i (suc m) h = ground (arith, zero_prefix bs (i + 1) m)

zero_words-le : (bs : List ℕ) (i : ℕ) → zero_words_from i bs * 8 ≤ i + length bs
unfolding zero_words_from
zero_words-le [] i = omega arith
zero_words-le (b ∷ bs) i = ground (arith, zero_words-le bs (i + 1))

-- The copied words: whole ones, no more than `end`, and the next one, if any, has two zero bytes
-- or more.
pub raw_end_lem :
    (rounds i end : ℕ) (src : List ℕ)
    → i % 8 ≡ 0
    → end % 8 ≡ 0
    → i ≤ end
    → end ≤ i + rounds * 8
    → let last = raw_end rounds i end src in
      (last % 8 ≡ 0)
      × (last ≤ end)
      × ((last ≡ end) ⊎ (1 < count_zeros (take word_size (drop last src))))
unfolding raw_end
raw_end_lem zero i end src a b h k = (a, h, inl (omega arith))
raw_end_lem (suc rounds) i end src a b h k = elim (Bool-cases (ltb i end)) [
  | inr over ↦ rw over (a, h, inl (ground arith))
  | inl more ↦ rw more (elim (Bool-cases (ltb 1 (count_zeros (take word_size (drop i src))))) [
    | inl sparse ↦ rw sparse (a, h, inr (ltb→lt 1 _ sparse))
    | inr dense ↦
        rw dense (raw_end_lem rounds (i + 8) end src (omega arith) b (ground arith) (omega arith))
  ])
]

-- What a run stands for: the bytes that Pack takes off src beside it, and that Unpack appends.
pub record RunOf (hdr : ℕ) (src : List ℕ) (run rest : List ℕ) : Type 0 where
  pub taken : List ℕ
  pub splits : src ≡ taken ++ rest
  pub whole : length rest % 8 ≡ 0
  pub bytes : IsBytes run
  pub rest_bytes : IsBytes rest
  pub unpacks : (dst more : List ℕ) → unpack_run hdr dst (run ++ more) ≡ some (dst ++ taken, more)

unpack_zeros :
    (n : ℕ) (dst more : List ℕ)
    → unpack_run zero_tag dst (n ∷ more) ≡ some (dst ++ replicate (n * 8) 0, more)
unfolding unpack_run alloc_words
unpack_zeros n dst more = refl

unpack_raw :
    (n : ℕ) (dst bs more : List ℕ)
    → length bs ≡ n * 8
    → unpack_run unpacked_tag dst (n ∷ (bs ++ more)) ≡ some (dst ++ bs, more)
unfolding unpack_run
unpack_raw n dst bs more e =
    rw (← e, take_append bs more, drop_append bs more) (no_padding (length bs) (omega arith))
  where
    no_padding :
        (k : ℕ)
        → k - k ≡ 0
        → ◌≡◌ {A = Option (List ℕ × List ℕ)}
            (some (dst ++ (bs ++ replicate (k - k) 0), more))
            (some (dst ++ bs, more))
    no_padding k z = rw (z, append-nil)

zero_run :
    (src : List ℕ) (z : ℕ)
    → z ≤ 255
    → z ≤ num_zero_words src
    → length src % 8 ≡ 0
    → IsBytes src
    → RunOf zero_tag src (u8 z ∷ []) (drop (z * 8) src)
unfolding num_zero_words
zero_run src z small counted whole bytes = record {
  taken = take (z * 8) src;
  splits = sym (take-append-drop (z * 8) src);
  whole = omega (arith, length-drop (z * 8) src);
  bytes = (omega arith, tt);
  rest_bytes = drop-IsBytes (z * 8) src bytes;
  unpacks = λ dst more. unpack_zeros (u8 z) dst more ∙ ap (λ t. some (dst ++ t, more)) filled;
}
  where
    filled : replicate (u8 z * 8) 0 ≡ take (z * 8) src
    filled =
        ap (λ (n : ℕ). replicate (n * 8) 0) (omega arith)
        ∙ sym (zero_prefix src 0 (z * 8) (omega arith))

raw_run :
    (src : List ℕ) (i : ℕ)
    → i % 8 ≡ 0
    → i ≤ 255 * 8
    → i ≤ length src
    → length src % 8 ≡ 0
    → IsBytes src
    → RunOf unpacked_tag src (u8 (i / 8) ∷ take i src) (drop i src)
raw_run src i mult small within whole bytes = record {
  taken = take i src;
  splits = sym (take-append-drop i src);
  whole = omega (arith, length-drop i src);
  bytes = (omega arith, take-IsBytes i src bytes);
  rest_bytes = drop-IsBytes i src bytes;
  unpacks =
      λ dst more. unpack_raw (u8 (i / 8)) dst (take i src) more (omega (arith, length-take i src));
}

no_run :
    (hdr : ℕ) (src : List ℕ)
    → hdr ≢ zero_tag
    → hdr ≢ unpacked_tag
    → length src % 8 ≡ 0
    → IsBytes src
    → RunOf hdr src [] src
unfolding unpack_run
no_run hdr src nz nf whole bytes = record {
  taken = [];
  splits = refl;
  whole = whole;
  bytes = tt;
  rest_bytes = bytes;
  unpacks = λ dst more. ground (arith, append-nil dst);
}

==→eq : (a b : ℕ) → (a == b) ≡ true → a ≡ b
==→eq a b h = ground arith

-- The run that Pack writes behind a header.
pub pack_run-RunOf :
    (hdr : ℕ) (src : List ℕ)
    → length src % 8 ≡ 0
    → IsBytes src
    → RunOf hdr src (pack_run hdr src).0 (pack_run hdr src).1
unfolding pack_run
pack_run-RunOf hdr src whole bytes = elim (Bool-cases (hdr == zero_tag)) [
  | inl zeros ↦ rw zeros (
      rw (==→eq hdr zero_tag zeros)
        (zero_run src (min (num_zero_words src) 255) (omega arith) (omega arith) whole bytes))
  | inr some_byte ↦ rw some_byte (elim (Bool-cases (hdr == unpacked_tag)) [
    | inl full ↦ rw full (
        rw (==→eq hdr unpacked_tag full) (
          let (mult, within, _) =
            raw_end_lem (end / 8 + 1) 0 end src (omega arith) (omega arith) (omega arith)
              (omega arith) in
          raw_run src (raw_end (end / 8 + 1) 0 end src) mult (omega arith) (omega arith) whole
            bytes))
    | inr mixed ↦ rw mixed (no_run hdr src (ground arith) (ground arith) whole bytes)
  ])
]
  where
    end : ℕ
    end = min (length src) (255 * 8)
