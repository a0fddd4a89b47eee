-- ===== src/Presence/UsersLaws.antt =====
-- The array of entries and the index map of `PresenceImpl` in presence.ts, and when they agree.
use zyncbase.Prelude.{
  ℕ, zero, suc, ◌+◌, ◌<◌, ◌≡◌, refl, ◌∙◌, none, some, List, [], ◌∷◌, ◌++◌, arith, ◌==◌,
  if◌then◌else◌, length, get_elem?, set, sym, ap, inl, inr, false, ==_iff, Bool-cases,
}
use zyncbase.Prelude.Dict.{lookup, insert, lookup-insert}
use zyncbase.Presence.Users.{PresenceEntry, Users, pop}
use zyncbase.Prelude.Text.{Text, text_eq, text_eq_iff, text_eq_refl}

-- Each index leads to the entry of its user, and each entry is found through its index.
pub record IsIndexed (u : Users) : Type 0 where
  pub index_entry :
      (k : Text) (i : ℕ)
      → lookup k u.indexes ≡ some i
      → (e : PresenceEntry) × (get_elem? u.entries i ≡ some e) × (e.user_id ≡ k)
  pub entry_index :
      (i : ℕ) (e : PresenceEntry)
      → get_elem? u.entries i ≡ some e
      → lookup e.user_id u.indexes ≡ some i

pub get_elem?-lt {ℓ} :
    {A : Type ℓ} (xs : List A) (i : ℕ) (a : A) → get_elem? xs i ≡ some a → i < length xs
get_elem?-lt [] i a h = cc
get_elem?-lt (x ∷ xs) zero a h = omega arith
get_elem?-lt (x ∷ xs) (suc i) a h = omega (arith, get_elem?-lt xs i a h)

pub get_elem?-some {ℓ} :
    {A : Type ℓ} (xs : List A) (i : ℕ) → i < length xs → (a : A) × (get_elem? xs i ≡ some a)
get_elem?-some [] i h = absurd (omega arith)
get_elem?-some (x ∷ xs) zero h = (x, refl)
get_elem?-some (x ∷ xs) (suc i) h = get_elem?-some xs i (omega arith)

pub get_elem?-concat :
    {A : Type 0} (xs : List A) (a : A) (i : ℕ)
    → get_elem? (xs ++ a ∷ []) i ≡ (if i == length xs then some a else get_elem? xs i)
get_elem?-concat [] a zero = refl
get_elem?-concat [] a (suc i) = ground arith
get_elem?-concat (x ∷ xs) a zero = ground arith
get_elem?-concat (x ∷ xs) a (suc i) = get_elem?-concat xs a i ∙ ground arith

pub get_elem?-set :
    {A : Type 0} (xs : List A) (i j : ℕ) (a : A)
    → i < length xs
    → get_elem? (set xs i a) j ≡ (if i == j then some a else get_elem? xs j)
get_elem?-set [] i j a h = absurd (omega arith)
get_elem?-set (x ∷ xs) zero zero a h = refl
get_elem?-set (x ∷ xs) zero (suc j) a h = ground arith
get_elem?-set (x ∷ xs) (suc i) zero a h = ground arith
get_elem?-set (x ∷ xs) (suc i) (suc j) a h = get_elem?-set xs i j a (omega arith) ∙ ground arith

pub get_elem?-pop :
    {A : Type 0} (xs : List A) (i : ℕ)
    → get_elem? (pop xs) i ≡ (if i + 1 == length xs then none else get_elem? xs i)
unfolding pop
get_elem?-pop [] i = ground arith
get_elem?-pop (x ∷ []) zero = ground arith
get_elem?-pop (x ∷ []) (suc i) = ground arith
get_elem?-pop (x ∷ y ∷ xs) zero = ground arith
get_elem?-pop (x ∷ y ∷ xs) (suc i) = get_elem?-pop (y ∷ xs) i ∙ ground arith

pub lt-ne : (i n : ℕ) → i < n → (i == n) ≡ false
lt-ne i n h = ground arith

-- An entry of a new user goes to the end.
module _ (u : Users) (h : IsIndexed u) (e : PresenceEntry)
    (absent : lookup e.user_id u.indexes ≡ none) where
  abbrev pub added : Users
  added = record {
    indexes = insert e.user_id (length u.entries) u.indexes;
    entries = u.entries ++ e ∷ [];
  }

  added-index :
      (k : Text) (i : ℕ)
      → lookup k added.indexes ≡ some i
      → (e' : PresenceEntry) × (get_elem? added.entries i ≡ some e') × (e'.user_id ≡ k)
  added-index k i hk = elim (Bool-cases (text_eq e.user_id k)) [
    | inl same ↦
        let read = lookup-insert e.user_id k (length u.entries) u.indexes in
        (e, ground (arith, read, get_elem?-concat u.entries e i), (text_eq_iff e.user_id k).0 same)
    | inr other ↦
        let old : lookup k u.indexes ≡ some i =
          ground (arith, lookup-insert e.user_id k (length u.entries) u.indexes) in
        let (e', place, owner) = h.index_entry k i old in
        (
          e',
          ground (arith, get_elem?-concat u.entries e i, get_elem?-lt u.entries i e' place),
          owner,
        )
  ]

  added-entry :
      (i : ℕ) (e' : PresenceEntry)
      → get_elem? added.entries i ≡ some e'
      → lookup e'.user_id added.indexes ≡ some i
  added-entry i e' hi = elim (Bool-cases (i == length u.entries)) [
    | inl same ↦
        let new : e ≡ e' = ground (arith, get_elem?-concat u.entries e i) in
        rw (← new) (
          ground (
            arith,
            lookup-insert e.user_id e.user_id (length u.entries) u.indexes,
            text_eq_refl e.user_id,
          ))
    | inr other ↦
        let old : get_elem? u.entries i ≡ some e' =
          ground (arith, get_elem?-concat u.entries e i) in
        let found = h.entry_index i e' old in
        ground (
          arith,
          found,
          absent,
          lookup-insert e.user_id e'.user_id (length u.entries) u.indexes,
          text_eq_iff e.user_id e'.user_id,
        )
  ]

  pub added-IsIndexed : IsIndexed added
  added-IsIndexed = record { index_entry = added-index; entry_index = added-entry }

-- An entry of a known user takes the place of the old one.
module _ (u : Users) (h : IsIndexed u) (e : PresenceEntry) (at : ℕ)
    (known : lookup e.user_id u.indexes ≡ some at) where
  abbrev pub replaced : Users
  replaced = record u { entries = set u.entries at e }

  at-lt : at < length u.entries
  at-lt =
      let (old, place, _) = h.index_entry e.user_id at known in get_elem?-lt u.entries at old place

  replaced-index :
      (k : Text) (i : ℕ)
      → lookup k u.indexes ≡ some i
      → (e' : PresenceEntry) × (get_elem? replaced.entries i ≡ some e') × (e'.user_id ≡ k)
  replaced-index k i hk =
      let (e', place, owner) = h.index_entry k i hk in
      let (old, old_place, old_owner) = h.index_entry e.user_id at known in
      elim (Bool-cases (at == i)) [
        | inl same ↦
            let s : old ≡ e' = ground arith in
            (
              e,
              ground (arith, get_elem?-set u.entries at i e at-lt),
              sym old_owner ∙ ap PresenceEntry.user_id s ∙ owner,
            )
        | inr other ↦ (e', ground (arith, get_elem?-set u.entries at i e at-lt), owner)
      ]

  replaced-entry :
      (i : ℕ) (e' : PresenceEntry)
      → get_elem? replaced.entries i ≡ some e'
      → lookup e'.user_id u.indexes ≡ some i
  replaced-entry i e' hi = elim (Bool-cases (at == i)) [
    | inl same ↦
        let new : e ≡ e' = ground (arith, get_elem?-set u.entries at i e at-lt) in
        rw (← new) (known ∙ ap some ((==_iff at i).0 same))
    | inr other ↦ h.entry_index i e' (ground (arith, get_elem?-set u.entries at i e at-lt))
  ]

  pub replaced-IsIndexed : IsIndexed replaced
  replaced-IsIndexed = record { index_entry = replaced-index; entry_index = replaced-entry }
