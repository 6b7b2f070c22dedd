-- ===== src/Packed/RoundTrip.antt =====
-- Unpack gives back what Pack was given.
use go_capnp.Base.{ℕ, zero, suc, ◌%◌, ◌^◌, ◌≤◌, ◌≡◌, sym, ap, ◌∙◌, arith, false, List, [], ◌∷◌}
use go_capnp.Base.{◌++◌, some, none, length, take, drop, length-take, length-drop, length-append}
use go_capnp.Base.{take-append-drop, ◌==◌, ==_iff, Bool-cases, inl, inr}
use mathlib.Core.Path.{subst}
use go_capnp.Base.Result.{ok}
use go_capnp.Slice.{IsBytes}
use go_capnp.Slice.Bytes.{take-IsBytes, drop-IsBytes, append-IsBytes}
use mathlib.Core.List.{append-nil, append_assoc}
use go_capnp.Packed.{pack, pack_loop, pack_run, scan_word, unpack, unpack_loop, read_word}
use go_capnp.Packed.{slow_word}
use go_capnp.Packed.Word.{mask, nonzero, mask-lt, scan_word_lem, slow_word-mask}
use go_capnp.Packed.Word.{read_word-slow_word}
use go_capnp.Packed.Step.{RunOf, pack_run-RunOf}

nonzero-IsBytes : (bs : List ℕ) → IsBytes bs → IsBytes (nonzero bs)
nonzero-IsBytes [] h = tt
nonzero-IsBytes (b ∷ bs) (hb, h) = elim (Bool-cases (b == 0)) [
  | inl z ↦ rw z (nonzero-IsBytes bs h)
  | inr nz ↦ rw nz (hb, nonzero-IsBytes bs h)
]

-- A word reads back behind its header.
read_word-mask :
    (w more : List ℕ)
    → length w ≡ 8
    → IsBytes w
    → IsBytes more
    → read_word (mask w) (nonzero w ++ more) ≡ some (record { word = w; rest = more; eof = false })
read_word-mask w more e hw hm =
    read_word-slow_word (mask w) _ (append-IsBytes _ more (nonzero-IsBytes w hw) hm)
    ∙ ap (λ n. some (slow_word n 0 (mask w) (nonzero w ++ more))) (sym e)
    ∙ ap some (slow_word-mask w 0 (mask w) more (omega arith))

-- One round of Pack, on a word and what follows it.
pack_loop-word :
    (fuel : ℕ) (dst : List ℕ) (b : ℕ) (bs : List ℕ)
    → let w = take 8 (b ∷ bs) in
      let r = pack_run (mask w) (drop 8 (b ∷ bs)) in
      pack_loop (suc fuel) dst (b ∷ bs) ≡ pack_loop fuel (dst ++ (mask w ∷ (nonzero w ++ r.0))) r.1
unfolding pack_loop
pack_loop-word fuel dst b bs =
    ap
      (λ (s : ℕ × List ℕ).
        pack_loop fuel (dst ++ (s.0 ∷ (s.1 ++ (pack_run s.0 (drop 7 bs)).0)))
          (pack_run s.0 (drop 7 bs)).1)
      (scanned (take 8 (b ∷ bs)))
  where
    scanned : (w : List ℕ) → scan_word 0 0 [] w ≡ (mask w, nonzero w)
    scanned w = scan_word_lem 0 0 [] w (omega arith) ∙ ap (λ (n : ℕ). (n, nonzero w)) (omega arith)

-- What Unpack makes of a stream, whatever it is given as dst.
abbrev Unpacks : List ℕ → List ℕ → Type 0
Unpacks p src =
    (fuel : ℕ) (dst : List ℕ) → length p ≤ fuel → unpack_loop fuel dst p ≡ some (dst ++ src, none)

-- One round of Unpack, on a word and its run.
unpack_word :
    (w src run rest p : List ℕ)
    → length w ≡ 8
    → IsBytes w
    → IsBytes p
    → RunOf (mask w) src run rest
    → Unpacks p rest
    → Unpacks (mask w ∷ (nonzero w ++ (run ++ p))) (w ++ src)
unfolding unpack_loop
unpack_word w src run rest p e hw hp r h zero dst room = absurd (omega arith)
unpack_word w src run rest p e hw hp r h (suc fuel) dst room =
    rw
      (
        read_word-mask w (run ++ p) e hw (append-IsBytes run p r.bytes hp),
        r.unpacks (dst ++ w) p,
        unpack_loop,
      )
      (h fuel ((dst ++ w) ++ r.taken) shorter ∙ ap (λ t. some (t, none)) regroup)
  where
    shorter : length p ≤ fuel
    shorter = omega (arith, room, length-append (nonzero w) (run ++ p), length-append run p)

    regroup : ((dst ++ w) ++ r.taken) ++ rest ≡ dst ++ (w ++ src)
    regroup = rw r.splits (simp append_assoc)

-- The packed form that a loop appends, with what Unpack makes of it.
pub record Packs (fuel : ℕ) (src : List ℕ) : Type 0 where
  pub form : List ℕ
  pub form_bytes : IsBytes form
  pub packs : (dst : List ℕ) → pack_loop fuel dst src ≡ some (dst ++ form)
  pub unpacks : Unpacks form src

-- The word at the front and what follows it, and the run that is taken off with it.
abbrev front : ℕ → List ℕ → List ℕ
front b bs = take 8 (b ∷ bs)

abbrev behind : List ℕ → List ℕ
behind bs = drop 7 bs

abbrev next_run : ℕ → List ℕ → List ℕ × List ℕ
next_run b bs = pack_run (mask (front b bs)) (behind bs)

front_run :
    (b : ℕ) (bs : List ℕ)
    → suc (length bs) % 8 ≡ 0
    → IsBytes (b ∷ bs)
    → RunOf (mask (front b bs)) (behind bs) (next_run b bs).0 (next_run b bs).1
front_run b bs whole bytes =
    pack_run-RunOf _ (behind bs) (omega (arith, length-drop 7 bs)) (drop-IsBytes 8 (b ∷ bs) bytes)

rest_shorter :
    (b fuel : ℕ) (bs : List ℕ) {hdr : ℕ} {run rest : List ℕ}
    → RunOf hdr (behind bs) run rest
    → length bs ≤ fuel
    → length rest ≤ fuel
rest_shorter b fuel bs {rest = rest} r h =
    omega (arith, ap length r.splits, length-append r.taken rest, length-drop 7 bs)

Packs-word :
    (fuel b : ℕ) (bs : List ℕ)
    → suc (length bs) % 8 ≡ 0
    → IsBytes (b ∷ bs)
    → Packs fuel (next_run b bs).1
    → Packs (suc fuel) (b ∷ bs)
Packs-word fuel b bs whole bytes next = record {
  form = mask w ∷ (nonzero w ++ (run ++ next.form));
  form_bytes = (
    omega (arith, mask-lt w, ap (λ (n : ℕ). 2 ^ n) word_length),
    append-IsBytes _ _ (nonzero-IsBytes w w_bytes) (append-IsBytes run _ r.bytes next.form_bytes),
  );
  packs = λ dst. pack_loop-word fuel dst b bs ∙ next.packs _ ∙ ap some (simp append_assoc);
  unpacks = subst (Unpacks _) (take-append-drop 8 (b ∷ bs)) (
      unpack_word w (behind bs) run _ next.form word_length w_bytes next.form_bytes r next.unpacks);
}
  where
    w : List ℕ
    w = front b bs

    run : List ℕ
    run = (next_run b bs).0

    w_bytes : IsBytes w
    w_bytes = take-IsBytes 8 (b ∷ bs) bytes

    word_length : length w ≡ 8
    word_length = omega (arith, whole, length-take 8 (b ∷ bs))

    r : RunOf (mask w) (behind bs) run (next_run b bs).1
    r = front_run b bs whole bytes

pub pack_loop-Packs :
    (fuel : ℕ) (src : List ℕ)
    → length src ≤ fuel
    → length src % 8 ≡ 0
    → IsBytes src
    → Packs fuel src
pack_loop-Packs fuel [] room whole bytes = record {
  form = [];
  form_bytes = tt;
  packs = λ dst. unfold pack_loop in ap some (sym (append-nil dst));
  unpacks = λ fuel' dst h. unfold unpack_loop in ap (λ t. some (t, none)) (sym (append-nil dst));
}
pack_loop-Packs zero (b ∷ bs) room whole bytes = absurd (omega arith)
pack_loop-Packs (suc fuel) (b ∷ bs) room whole bytes =
    let r = front_run b bs whole bytes in
    Packs-word fuel b bs whole bytes (
      pack_loop-Packs fuel (next_run b bs).1 (rest_shorter b fuel bs r (omega arith)) r.whole
        r.rest_bytes)

-- Packing bytes of whole words returns, appending to dst bytes that Unpack turns back into the
-- same words, appended to any other dst, without an error.
pub unpack-pack :
    (dst src : List ℕ)
    → length src % 8 ≡ 0
    → IsBytes src
    → (p : List ℕ) × (pack dst src ≡ ok (dst ++ p))
      × IsBytes p
      × ((out : List ℕ) → unpack out p ≡ some (out ++ src, none))
unfolding pack unpack
unpack-pack dst src whole bytes =
    let r = pack_loop-Packs (length src) src (omega arith) whole bytes in
    (
      r.form,
      rw ((==_iff _ _).1 whole, r.packs dst),
      r.form_bytes,
      λ out. r.unpacks (length r.form) out (omega arith),
    )
