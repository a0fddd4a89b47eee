-- ===== src/Path/Split.antt =====
-- Joining and splitting in path.ts.
use zyncbase.Path.{cons_head, split_on, join, join_field_path, split_field_path, delimiter}
use zyncbase.Prelude.{
  ℕ, ◌≡◌, refl, ap, ◌∙◌, ◌≢◌, ◌⊎◌, List, [], ◌∷◌, ◌++◌, arith, inl, inr, ◌&&◌, ◌==◌, ==_iff,
  Bool-cases,
}
use zyncbase.Prelude.Text.{Text}

-- The segment holds no separator.
abbrev pub Avoids : ℕ → Text → Type 0
Avoids sep [] = Unit {0}
Avoids sep (c ∷ s) = (c ≢ sep) × Avoids sep s

abbrev pub AllAvoid : ℕ → List Text → Type 0
AllAvoid sep [] = Unit {0}
AllAvoid sep (s ∷ ss) = Avoids sep s × AllAvoid sep ss

split_on-last : (sep : ℕ) (s : Text) → Avoids sep s → split_on sep s ≡ s ∷ []
unfolding split_on
split_on-last sep [] h = refl
split_on-last sep (c ∷ s) (ne, h) = rw (split_on-last sep s h) (ground arith)

split_on-append :
    (sep : ℕ) (s t : Text) → Avoids sep s → split_on sep (s ++ sep ∷ t) ≡ s ∷ split_on sep t
unfolding split_on
split_on-append sep [] t h = ground arith
split_on-append sep (c ∷ s) t (ne, h) = rw (split_on-append sep s t h) (ground arith)

-- Splitting what was joined by a separator of one unit gives the segments back, if there is one at
-- least and none of them holds the separator.
pub split_on-join :
    (sep : ℕ) (s : Text) (ss : List Text)
    → AllAvoid sep (s ∷ ss)
    → split_on sep (join (sep ∷ []) (s ∷ ss)) ≡ s ∷ ss
unfolding join
split_on-join sep s [] (h, _) = split_on-last sep s h
split_on-join sep s (s' ∷ ss) (h, hs) =
    split_on-append sep s (join (sep ∷ []) (s' ∷ ss)) h ∙ ap (◌∷◌ s) (split_on-join sep s' ss hs)

join-cons_head :
    (sep : Text) (c : ℕ) (s : Text) (ss : List Text)
    → join sep (cons_head c (s ∷ ss)) ≡ c ∷ join sep (s ∷ ss)
unfolding join
join-cons_head sep c s [] = refl
join-cons_head sep c s (s' ∷ ss) = refl

abbrev IsJoined : Text → List Text → Text → Type 0
IsJoined sep ss t = (join sep ss ≡ t) × (ss ≢ [])

IsJoined-cons_head :
    (sep : Text) (c : ℕ) (ss : List Text) (t : Text)
    → IsJoined sep ss t
    → IsJoined sep (cons_head c ss) (c ∷ t)
IsJoined-cons_head sep c [] t (e, ne) = absurd (ne refl)
IsJoined-cons_head sep c (s ∷ ss) t (e, ne) = (join-cons_head sep c s ss ∙ ap (◌∷◌ c) e, cc)

IsJoined-cut :
    (sep : Text) (ss : List Text) (t : Text) → IsJoined sep ss t → IsJoined sep ([] ∷ ss) (sep ++ t)
unfolding join
IsJoined-cut sep [] t (e, ne) = absurd (ne refl)
IsJoined-cut sep (s ∷ ss) t (e, ne) = (ap (◌++◌ sep) e, cc)

split_on-IsJoined : (sep : ℕ) (s : Text) → IsJoined (sep ∷ []) (split_on sep s) s
unfolding join split_on
split_on-IsJoined sep [] = (refl, cc)
split_on-IsJoined sep (c ∷ s) = elim (Bool-cases (c == sep)) [
  | inl same ↦
      rw (same, (==_iff c sep).0 same) (IsJoined-cut (sep ∷ []) _ s (split_on-IsJoined sep s))
  | inr other ↦ rw other (IsJoined-cons_head (sep ∷ []) c _ s (split_on-IsJoined sep s))
]

-- Joining what was split gives the text back.
pub join-split_on : (sep : ℕ) (s : Text) → join (sep ∷ []) (split_on sep s) ≡ s
join-split_on sep s = (split_on-IsJoined sep s).0

split_field_path-IsJoined : (s : Text) → IsJoined delimiter (split_field_path s) s
unfolding join split_field_path
split_field_path-IsJoined [] = (refl, cc)
split_field_path-IsJoined (c ∷ []) = (refl, cc)
split_field_path-IsJoined (c ∷ d ∷ s) = elim (Bool-cases (c == b'_' && d == b'_')) [
  | inl same ↦
      let ec : c ≡ b'_' = ground arith in
      let ed : d ≡ b'_' = ground arith in
      rw (ec, ed) (IsJoined-cut delimiter _ s (split_field_path-IsJoined s))
  | inr other ↦
      rw other (IsJoined-cons_head delimiter c _ (d ∷ s) (split_field_path-IsJoined (d ∷ s)))
]

-- Joining the segments of a flat key gives the key back, whatever the key is.
pub join_field_path-split : (s : Text) → join_field_path (split_field_path s) ≡ s
unfolding join_field_path
join_field_path-split s = (split_field_path-IsJoined s).0

-- A segment of a field path: no "__" inside and no "_" at its end.
abbrev pub IsSegment : Text → Type 0
IsSegment [] = Unit {0}
IsSegment (c ∷ []) = c ≢ b'_'
IsSegment (c ∷ d ∷ s) = ((c ≢ b'_') ⊎ (d ≢ b'_')) × IsSegment (d ∷ s)

abbrev pub AllSegments : List Text → Type 0
AllSegments [] = Unit {0}
AllSegments (s ∷ ss) = IsSegment s × AllSegments ss

split_field_path-last : (s : Text) → IsSegment s → split_field_path s ≡ s ∷ []
unfolding split_field_path
split_field_path-last [] h = refl
split_field_path-last (c ∷ []) h = refl
split_field_path-last (c ∷ d ∷ s) (ne, h) = rw (split_field_path-last (d ∷ s) h) (ground arith)

split_field_path-append :
    (s t : Text) → IsSegment s → split_field_path (s ++ b'_' ∷ b'_' ∷ t) ≡ s ∷ split_field_path t
unfolding split_field_path
split_field_path-append [] t h = refl
split_field_path-append (c ∷ []) t ne = ground arith
split_field_path-append (c ∷ d ∷ s) t (ne, h) =
    rw (split_field_path-append (d ∷ s) t h) (ground arith)

-- Splitting a joined field path gives its segments back, if there is one at least, none holds "__",
-- and none ends in "_".
pub split_field_path-join :
    (s : Text) (ss : List Text)
    → AllSegments (s ∷ ss)
    → split_field_path (join_field_path (s ∷ ss)) ≡ s ∷ ss
unfolding join_field_path
split_field_path-join s [] (h, _) = split_field_path-last s h
split_field_path-join s (s' ∷ ss) (h, hs) =
    split_field_path-append s (join delimiter (s' ∷ ss)) h
    ∙ ap (◌∷◌ s) (split_field_path-join s' ss hs)
