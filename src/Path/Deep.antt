-- ===== src/Path/Deep.antt =====
-- `getDeepProperty` and `setDeepProperty` of path.ts.
use zyncbase.Json.{set_prop, bytes, Value, obj, Fields, end, get_prop}
use zyncbase.Json.Laws.{get_prop-set_prop_self, get_prop-set_prop_ne}
use zyncbase.Path.{set_deep, get_deep, child_fields}
use zyncbase.Prelude.{
  ◌≡◌, refl, ◌≢◌, ◌⊎◌, inl, inr, Option, none, some, List, [], ◌∷◌, ◌∙◌, Option-cases,
}
use zyncbase.Prelude.Text.{Text}

-- No property on the way to the last segment is a byte array.
abbrev pub IsOpen : Fields → List Text → Type 0
IsOpen fs [] = ⊥
IsOpen fs (p ∷ []) = Unit {0}
IsOpen fs (p ∷ q ∷ ps) =
    (child : Fields) × (child_fields (get_prop p fs) ≡ some child) × IsOpen child (q ∷ ps)

-- A value that was written is read back.
pub get_deep-set_deep :
    (ps : List Text) (fs : Fields) (v : Value)
    → IsOpen fs ps
    → get_deep (obj (set_deep fs ps v)) ps ≡ some v
unfolding get_deep set_deep
get_deep-set_deep [] fs v h = elim h [ ]
get_deep-set_deep (p ∷ []) fs v h = rw (get_prop-set_prop_self p v fs, get_deep)
get_deep-set_deep (p ∷ q ∷ ps) fs v (child, e, h) =
    rw (e, set_deep)
      (rw (get_prop-set_prop_self p (obj (set_deep child (q ∷ ps) v)) fs, get_deep)
        (get_deep-set_deep (q ∷ ps) child v h))

-- Two addresses that part at some segment: neither is a prefix of the other.
abbrev pub Diverge : List Text → List Text → Type 0
Diverge [] qs = ⊥
Diverge (p ∷ ps) [] = ⊥
Diverge (p ∷ ps) (q ∷ qs) = (p ≢ q) ⊎ ((p ≡ q) × Diverge ps qs)

get_deep-end : (qs : List Text) (ps : List Text) → Diverge ps qs → get_deep (obj end) qs ≡ none
unfolding get_deep get_prop
get_deep-end [] [] h = absurd h
get_deep-end [] (p ∷ ps) h = absurd h
get_deep-end (q ∷ qs) ps h = refl

get_deep-absent :
    (v : Value) (child : Fields) (qs ps : List Text)
    → child_fields (some v) ≡ some child
    → Diverge ps qs
    → get_deep (obj child) qs ≡ get_deep v qs
unfolding get_deep get_prop
get_deep-absent (obj fs) child qs ps e d = (let s : fs ≡ child = cc in rw s)
get_deep-absent (bytes bs) child qs ps e d = cc
get_deep-absent v child [] [] e d = absurd d
get_deep-absent v child [] (p ∷ ps) e d = absurd d
get_deep-absent v child (q ∷ qs) ps e d = (let s : end ≡ child = cc in rw (← s))

-- Below the child that a write goes through, reads see what they saw below the old child.
read_child :
    (o : Option Value) (child : Fields) (ps qs : List Text)
    → child_fields o ≡ some child
    → Diverge ps qs
    → get_deep (obj child) qs ≡ elim o [ none ↦ none | some w ↦ get_deep w qs ]
read_child none child ps qs e d = (let s : end ≡ child = cc in rw (← s) (get_deep-end qs ps d))
read_child (some v) child ps qs e d = get_deep-absent v child qs ps e d

module _ (p : Text) (fs : Fields) (v : Value) where
  skip_ne :
      (q : Text) (qs : List Text)
      → p ≢ q
      → get_deep (obj (set_prop p v fs)) (q ∷ qs) ≡ get_deep (obj fs) (q ∷ qs)
  unfolding get_deep
  skip_ne q qs ne = rw (get_prop-set_prop_ne p q v fs ne, get_deep)

  enter : (qs : List Text) → get_deep (obj (set_prop p v fs)) (p ∷ qs) ≡ get_deep v qs
  unfolding get_deep
  enter qs = rw (get_prop-set_prop_self p v fs, get_deep)

below :
    (p : Text) (ps : List Text) (q : Text) (qs : List Text) (fs child written : Fields)
    → child_fields (get_prop p fs) ≡ some child
    → (p ≢ q) ⊎ ((p ≡ q) × Diverge ps qs)
    → (Diverge ps qs → get_deep (obj written) qs ≡ get_deep (obj child) qs)
    → get_deep (obj (set_prop p (obj written) fs)) (q ∷ qs) ≡ get_deep (obj fs) (q ∷ qs)
unfolding get_deep
below p ps q qs fs child written found (inl ne) ih = skip_ne p fs (obj written) q qs ne
below p ps q qs fs child written found (inr (e, d)) ih =
    rw (← e) (enter p fs (obj written) qs ∙ ih d ∙ read_child (get_prop p fs) child ps qs found d)

-- A write leaves every address alone that diverges from its own.
pub get_deep-set_deep_other :
    (ps qs : List Text) (fs : Fields) (v : Value)
    → Diverge ps qs
    → get_deep (obj (set_deep fs ps v)) qs ≡ get_deep (obj fs) qs
unfolding set_deep
get_deep-set_deep_other [] qs fs v d = absurd d
get_deep-set_deep_other (p ∷ ps) [] fs v d = absurd d
get_deep-set_deep_other (p ∷ []) (q ∷ qs) fs v (inl ne) = skip_ne p fs v q qs ne
get_deep-set_deep_other (p ∷ []) (q ∷ qs) fs v (inr (e, d)) = absurd d
get_deep-set_deep_other (p ∷ p' ∷ ps) (q ∷ qs) fs v d =
    elim (Option-cases (child_fields (get_prop p fs))) [
      | inl closed ↦ rw (closed, set_deep)
      | inr (child, found) ↦
          rw (found, set_deep)
            (below p (p' ∷ ps) q qs fs child (set_deep child (p' ∷ ps) v) found d
              (λ d'. get_deep-set_deep_other (p' ∷ ps) qs child v d'))
    ]
