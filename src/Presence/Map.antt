-- ===== src/Presence/Map.antt =====
-- What `get` of presence.ts sees after `setUserEntry` and `removeUserEntry`.
use zyncbase.Presence.Removal
use zyncbase.Prelude.{
  ℕ, ◌+◌, ◌-◌, ◌<◌, ◌≡◌, ◌≢◌, inl, inr, true, false, none, some, arith, ◌==◌, Option-cases, length,
  get_elem?, sym, ap, ◌∙◌, if◌then◌else◌, Bool-cases,
}
use zyncbase.Prelude.Dict.{lookup, lookup-insert, lookup-delete}
use zyncbase.Presence.Users.{
  PresenceEntry, Users, set_user_entry, remove_user_entry, get, clear_user_cache,
}
use zyncbase.Presence.UsersLaws.{
  IsIndexed, get_elem?-lt, get_elem?-set, get_elem?-pop, get_elem?-concat, get_elem?-some, added,
  replaced, added-IsIndexed, replaced-IsIndexed,
}
use zyncbase.Prelude.Text.{Text, text_eq, text_eq_iff}

-- Setting an entry keeps the array and the index map in agreement.
pub set_user_entry-IsIndexed :
    (e : PresenceEntry) (u : Users) → IsIndexed u → IsIndexed (set_user_entry e u)
unfolding set_user_entry
set_user_entry-IsIndexed e u h = elim (Option-cases (lookup e.user_id u.indexes)) [
  | inl absent ↦ rw (absent, set_user_entry) (added-IsIndexed u h e absent)
  | inr (i, known) ↦ rw (known, set_user_entry) (replaced-IsIndexed u h e i known)
]

pub clear_user_cache-IsIndexed : IsIndexed clear_user_cache
unfolding clear_user_cache lookup
clear_user_cache-IsIndexed = record { index_entry = λ k i e. cc e; entry_index = λ i e e'. cc e' }

-- What `removeUserEntry` leaves behind, by the place of the entry.
module _ (k : Text) (u : Users) (h : IsIndexed u) where
  last_entry :
      (i : ℕ)
      → i < length u.entries
      → (e : PresenceEntry) × (get_elem? u.entries (length u.entries - 1) ≡ some e)
  last_entry i lt = get_elem?-some u.entries (length u.entries - 1) (omega arith)

  remove_absent : lookup k u.indexes ≡ none → remove_user_entry k u ≡ u
  unfolding remove_user_entry
  remove_absent absent = rw (absent, remove_user_entry)

  remove_last :
      (i : ℕ) (known : lookup k u.indexes ≡ some i) (at_end : i + 1 ≡ length u.entries)
      → remove_user_entry k u ≡ Removal.shortened u h k i known at_end
  unfolding remove_user_entry
  remove_last i known at_end =
      let (e, is_last) = last_entry i (omega arith) in
      let same : (i == length u.entries - 1) ≡ true = ground arith in
      rw (known, remove_user_entry, is_last, same)

  remove_inner :
      (i : ℕ) (known : lookup k u.indexes ≡ some i) (e : PresenceEntry) (last : ℕ)
      (len : last + 1 ≡ length u.entries) (is_last : get_elem? u.entries last ≡ some e)
      (inside : i ≢ last)
      → remove_user_entry k u ≡ Removal.moved u h k i known e last len is_last inside
  unfolding remove_user_entry
  remove_inner i known e last len is_last inside =
      let l : length u.entries - 1 ≡ last = omega arith in
      let other : (i == last) ≡ false = ground arith in
      rw (known, remove_user_entry, l, is_last, other)

  -- The three outcomes of a removal, for proofs about its result.
  remove_cases :
      (P : Users → Type 0)
      → (lookup k u.indexes ≡ none → P u)
      → ((i : ℕ) (known : lookup k u.indexes ≡ some i) (at_end : i + 1 ≡ length u.entries)
          → P (Removal.shortened u h k i known at_end))
      → ((i : ℕ) (known : lookup k u.indexes ≡ some i) (e : PresenceEntry) (last : ℕ)
            (len : last + 1 ≡ length u.entries) (is_last : get_elem? u.entries last ≡ some e)
            (inside : i ≢ last)
          → P (Removal.moved u h k i known e last len is_last inside))
      → P (remove_user_entry k u)
  remove_cases P at_none at_last at_inner = elim (Option-cases (lookup k u.indexes)) [
    | inl absent ↦ rw (remove_absent absent) (at_none absent)
    | inr (i, known) ↦
        let (old, place, owner) = h.index_entry k i known in
        let lt = get_elem?-lt u.entries i old place in
        let (e, is_last) = last_entry i lt in
        elim (Bool-cases (i == length u.entries - 1)) [
          | inl same ↦
              let at_end : i + 1 ≡ length u.entries = ground arith in
              rw (remove_last i known at_end) (at_last i known at_end)
          | inr other ↦
              let len : length u.entries - 1 + 1 ≡ length u.entries = omega arith in
              let inside : i ≢ length u.entries - 1 = ground arith in
              rw (remove_inner i known e (length u.entries - 1) len is_last inside)
                (at_inner i known e (length u.entries - 1) len is_last inside)
        ]
  ]

-- Removing a user keeps the array and the index map in agreement.
pub remove_user_entry-IsIndexed :
    (k : Text) (u : Users) → IsIndexed u → IsIndexed (remove_user_entry k u)
remove_user_entry-IsIndexed k u h =
    remove_cases k u h IsIndexed (λ _. h) (Removal.shortened-IsIndexed u h k)
      (Removal.moved-IsIndexed u h k)

get-added :
    (e : PresenceEntry) (j : Text) (u : Users) (h : IsIndexed u)
    (absent : lookup e.user_id u.indexes ≡ none)
    → get j (added u h e absent) ≡ (if text_eq e.user_id j then some e else get j u)
unfolding get
get-added e j u h absent = elim (Option-cases (lookup j u.indexes)) [
  | inl none_there ↦ ground (
    arith,
    lookup-insert e.user_id j (length u.entries) u.indexes,
    get_elem?-concat u.entries e (length u.entries),
  )
  | inr (i, found) ↦
      let (e', place, owner) = h.index_entry j i found in
      ground (
        arith,
        lookup-insert e.user_id j (length u.entries) u.indexes,
        get_elem?-concat u.entries e (length u.entries),
        get_elem?-concat u.entries e i,
        get_elem?-lt u.entries i e' place,
      )
]

get-replaced :
    (e : PresenceEntry) (j : Text) (u : Users) (h : IsIndexed u) (i : ℕ)
    (known : lookup e.user_id u.indexes ≡ some i)
    → get j (replaced u h e i known) ≡ (if text_eq e.user_id j then some e else get j u)
unfolding get
get-replaced e j u h i known =
    let (old, place, owner) = h.index_entry e.user_id i known in
    let lt = get_elem?-lt u.entries i old place in
    elim (Bool-cases (text_eq e.user_id j)) [
      | inl same ↦
          let s : lookup j u.indexes ≡ some i =
            ap (λ t. lookup t u.indexes) (sym ((text_eq_iff e.user_id j).0 same)) ∙ known in
          ground (arith, get_elem?-set u.entries i i e lt)
      | inr other ↦ elim (Option-cases (lookup j u.indexes)) [
        | inl none_there ↦ ground arith
        | inr (n, found) ↦
            let ne : e.user_id ≢ j = ground (arith, text_eq_iff e.user_id j) in
            let apart = Removal.other_place u h e.user_id i known j n found ne in
            ground (arith, get_elem?-set u.entries i n e lt)
      ]
    ]

-- A read after a write sees the new entry for its user, and what was there for every other.
pub get-set_user_entry :
    (e : PresenceEntry) (j : Text) (u : Users)
    → IsIndexed u
    → get j (set_user_entry e u) ≡ (if text_eq e.user_id j then some e else get j u)
unfolding get set_user_entry
get-set_user_entry e j u h = elim (Option-cases (lookup e.user_id u.indexes)) [
  | inl absent ↦ rw (absent, set_user_entry) (get-added e j u h absent)
  | inr (i, known) ↦ rw (known, set_user_entry) (get-replaced e j u h i known)
]

get-absent :
    (k j : Text) (u : Users)
    → lookup k u.indexes ≡ none
    → get j u ≡ (if text_eq k j then none else get j u)
unfolding get
get-absent k j u absent = elim (Bool-cases (text_eq k j)) [
  | inl same ↦
      let s : lookup j u.indexes ≡ none =
        ap (λ t. lookup t u.indexes) (sym ((text_eq_iff k j).0 same)) ∙ absent in
      ground arith
  | inr other ↦ rw other
]

module _ (k j : Text) (u : Users) (h : IsIndexed u) (i : ℕ)
    (known : lookup k u.indexes ≡ some i) where
  get-shortened :
      (at_end : i + 1 ≡ length u.entries)
      → get j (Removal.shortened u h k i known at_end) ≡ (if text_eq k j then none else get j u)
  unfolding get
  get-shortened at_end = elim (Bool-cases (text_eq k j)) [
    | inl same ↦ ground (arith, lookup-delete k j u.indexes)
    | inr other ↦ elim (Option-cases (lookup j u.indexes)) [
      | inl none_there ↦ ground (arith, lookup-delete k j u.indexes)
      | inr (n, found) ↦
          let ne : k ≢ j = ground (arith, text_eq_iff k j) in
          let apart = Removal.other_place u h k i known j n found ne in
          ground (arith, lookup-delete k j u.indexes, get_elem?-pop u.entries n)
    ]
  ]

  get-moved :
      (e : PresenceEntry) (last : ℕ) (len : last + 1 ≡ length u.entries)
      (is_last : get_elem? u.entries last ≡ some e) (inside : i ≢ last)
      → get j (Removal.moved u h k i known e last len is_last inside)
        ≡ (if text_eq k j then none else get j u)
  unfolding get
  get-moved e last len is_last inside = elim (Bool-cases (text_eq k j)) [
    | inl same ↦ ground (arith, read)
    | inr other ↦ elim (Bool-cases (text_eq e.user_id j)) [
      | inl mine ↦
          let s : lookup j u.indexes ≡ some last =
            ap (λ t. lookup t u.indexes) (sym ((text_eq_iff e.user_id j).0 mine))
            ∙ h.entry_index last e is_last in
          ground (arith, read, Removal.moved_entry u h k i known e last len is_last inside i)
      | inr theirs ↦ elim (Option-cases (lookup j u.indexes)) [
        | inl none_there ↦ ground (arith, read)
        | inr (n, found) ↦
            let ne : k ≢ j = ground (arith, text_eq_iff k j) in
            let apart = Removal.other_place u h k i known j n found ne in
            let (e', place, owner) = h.index_entry j n found in
            let early =
              Removal.not_last u h k i known e last len is_last inside j n e' theirs place owner in
            ground (arith, read, Removal.moved_entry u h k i known e last len is_last inside n)
      ]
    ]
  ]
    where
      read : lookup j (Removal.moved u h k i known e last len is_last inside).indexes ≡ (
          if text_eq k j then none else if text_eq e.user_id j then some i else lookup j u.indexes)
      read = Removal.moved_lookup u h k i known e last len is_last inside j

-- A read after a removal sees nothing for the removed user, and what was there for every other.
pub get-remove_user_entry :
    (k j : Text) (u : Users)
    → IsIndexed u
    → get j (remove_user_entry k u) ≡ (if text_eq k j then none else get j u)
unfolding get
get-remove_user_entry k j u h =
    remove_cases k u h (λ u'. get j u' ≡ (if text_eq k j then none else get j u)) (get-absent k j u)
      (get-shortened k j u h) (get-moved k j u h)
