-- ===== src/Compare/Utf8.antt =====
-- The two paths of `compareUtf8` in store.ts.
use zyncbase.Compare.{
  compare_text, encode_unit, encode_utf8, compare_utf8_bytes, is_utf8_lexical_fast_path,
  compare_utf8,
}
use zyncbase.Prelude.Int.{pos, negsuc}
use zyncbase.Prelude.{
  ℕ, ◌<◌, ◌≡◌, refl, List, [], ◌∷◌, arith, ltb, if◌then◌else◌, sym, ◌∙◌, inl, inr, true, Bool-cases,
}
use zyncbase.Prelude.Text.{Text}

encode_utf8-cons :
    (c : ℕ) (s : Text) → c < 2048 → encode_utf8 (c ∷ s) ≡ encode_unit c (encode_utf8 s)
unfolding encode_utf8
encode_utf8-cons c [] h = refl
encode_utf8-cons c (d ∷ s) h = ground arith

compare-encode_unit :
    (c d : ℕ) (xs ys : List ℕ)
    → c < 2048
    → d < 2048
    → compare_text (encode_unit c xs) (encode_unit d ys)
      ≡ (if ltb c d then negsuc 0 else if ltb d c then pos 1 else compare_text xs ys)
unfolding compare_text
compare-encode_unit c d xs ys hc hd = ground arith

fast_head : (c : ℕ) (s : Text) → is_utf8_lexical_fast_path (c ∷ s) ≡ true → c < 2048
unfolding is_utf8_lexical_fast_path
fast_head c s h = ground arith

fast_tail :
    (c : ℕ) (s : Text)
    → is_utf8_lexical_fast_path (c ∷ s) ≡ true
    → is_utf8_lexical_fast_path s ≡ true
unfolding is_utf8_lexical_fast_path
fast_tail c s h = ground arith

compare_text-encode_utf8 :
    (a b : Text)
    → is_utf8_lexical_fast_path a ≡ true
    → is_utf8_lexical_fast_path b ≡ true
    → compare_text (encode_utf8 a) (encode_utf8 b) ≡ compare_text a b
unfolding compare_text is_utf8_lexical_fast_path encode_utf8
compare_text-encode_utf8 [] [] ha hb = refl
compare_text-encode_utf8 [] (d ∷ t) ha hb =
    rw (encode_utf8-cons d t (fast_head d t hb)) (ground arith)
compare_text-encode_utf8 (c ∷ s) [] ha hb =
    rw (encode_utf8-cons c s (fast_head c s ha)) (ground arith)
compare_text-encode_utf8 (c ∷ s) (d ∷ t) ha hb =
    rw (encode_utf8-cons c s (fast_head c s ha), encode_utf8-cons d t (fast_head d t hb))
      (compare-encode_unit c d (encode_utf8 s) (encode_utf8 t) (fast_head c s ha) (fast_head d t hb)
        ∙ rw (compare_text-encode_utf8 s t (fast_tail c s ha) (fast_tail d t hb)) refl)

-- `compareUtf8` compares by the UTF-8 bytes also where it takes its fast path.
pub compare_utf8-bytes : (a b : Text) → compare_utf8 a b ≡ compare_utf8_bytes a b
unfolding compare_utf8 compare_utf8_bytes
compare_utf8-bytes a b = elim (Bool-cases (is_utf8_lexical_fast_path a)) [
  | inr slow ↦ rw slow refl
  | inl fast ↦ elim (Bool-cases (is_utf8_lexical_fast_path b)) [
    | inr slow ↦ rw (fast, slow) refl
    | inl also ↦ rw (fast, also) (sym (compare_text-encode_utf8 a b fast also))
  ]
]
