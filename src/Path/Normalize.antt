-- ===== src/Path/Normalize.antt =====
-- `normalizePath`: when it accepts an address, and what it returns.
use zyncbase.Path.{check_segments, Address, dotted, join, normalize_path, segments_of, has_empty}
use zyncbase.Prelude.Result.{ok}
use zyncbase.Path.Split.{AllAvoid, split_on-join}
use zyncbase.Prelude.{◌≡◌, refl, ◌≢◌, ◌↔◌, inl, inr, false, List, [], ◌∷◌, arith, Bool-cases}
use zyncbase.Prelude.Text.{Text}

abbrev pub AllNonempty : List Text → Type 0
AllNonempty [] = Unit {0}
AllNonempty (s ∷ ss) = (s ≢ []) × AllNonempty ss

has_empty-false : (ss : List Text) → AllNonempty ss → has_empty ss ≡ false
has_empty-false [] h = refl
has_empty-false ([] ∷ ss) (ne, h) = absurd (ne refl)
has_empty-false ((c ∷ s) ∷ ss) (ne, h) = has_empty-false ss h

AllNonempty-of_has_empty : (ss : List Text) → has_empty ss ≡ false → AllNonempty ss
AllNonempty-of_has_empty [] h = tt
AllNonempty-of_has_empty ([] ∷ ss) h = cc
AllNonempty-of_has_empty ((c ∷ s) ∷ ss) h = ((cc), AllNonempty-of_has_empty ss h)

accepts :
    (path : Address) (ss : List Text)
    → segments_of path ≡ ss
    → ss ≢ []
    → AllNonempty ss
    → normalize_path path ≡ ok ss
unfolding normalize_path
accepts path [] e ne h = absurd (ne refl)
accepts path (s ∷ ss) e ne h = rw e (ground (arith, has_empty-false (s ∷ ss) h))

nonempty_of_ok :
    (path : Address) (s : Text) (all ss : List Text)
    → check_segments path (s ∷ all) ≡ ok ss
    → (s ∷ all ≡ ss) × (ss ≢ []) × AllNonempty ss
nonempty_of_ok path s all ss h = elim (Bool-cases (has_empty (s ∷ all))) [
  | inl empty ↦ cc (rw empty at h)
  | inr full ↦
      let e : s ∷ all ≡ ss = cc (rw full at h) in
      (e, rw (← e) (cc), rw (← e) (AllNonempty-of_has_empty (s ∷ all) full))
]

accepted :
    (path : Address) (ss : List Text) (all : List Text)
    → segments_of path ≡ all
    → normalize_path path ≡ ok ss
    → (all ≡ ss) × (ss ≢ []) × AllNonempty ss
unfolding normalize_path
accepted path ss [] e h = cc (rw e at h)
accepted path ss (s ∷ all) e h = nonempty_of_ok path s all ss (rw e at h)

-- `normalizePath` accepts exactly the addresses that have segments, all of them nonempty, and
-- returns those segments.
pub normalize_path_iff :
    (path : Address) (ss : List Text)
    → (normalize_path path ≡ ok ss) ↔ ((segments_of path ≡ ss) × (ss ≢ []) × AllNonempty ss)
normalize_path_iff path ss =
    (accepted path ss (segments_of path) refl, λ h. accepts path ss h.0 h.1 h.2)

-- The dotted join of nonempty segments without dots, of which there is one at least, is accepted and
-- gives those segments.
pub normalize_path-join :
    (s : Text) (ss : List Text)
    → AllNonempty (s ∷ ss)
    → AllAvoid b'.' (s ∷ ss)
    → normalize_path (dotted (join (b'.' ∷ []) (s ∷ ss))) ≡ ok (s ∷ ss)
normalize_path-join s ss h a =
    (normalize_path_iff (dotted (join (b'.' ∷ []) (s ∷ ss))) (s ∷ ss)).1
      (split_on-join b'.' s ss a, cc, h)
