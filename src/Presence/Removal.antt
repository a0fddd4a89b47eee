-- ===== src/Presence/Removal.antt =====
-- `removeUserEntry`: the last entry moves to the place of the removed one.
use zyncbase.Prelude.{
  length-set, ℕ, ◌+◌, ◌<◌, ◌≡◌, sym, ap, ◌∙◌, ◌≢◌, inl, inr, false, none, some, arith, ◌==◌,
  if◌then◌else◌, ==_iff, Bool-cases, length, get_elem?, set,
}
use zyncbase.Prelude.Dict.{lookup, insert, delete, lookup-insert, lookup-delete}
use zyncbase.Presence.Users.{PresenceEntry, Users, pop}
use zyncbase.Presence.UsersLaws.{IsIndexed, get_elem?-lt, get_elem?-set, get_elem?-pop}
use zyncbase.Prelude.Text.{Text, text_eq, text_eq_iff, text_eq_refl}

module _ (u : Users) (h : IsIndexed u) (k : Text) (i : ℕ)
    (known : lookup k u.indexes ≡ some i) where
  pub gone : (e : PresenceEntry) × (get_elem? u.entries i ≡ some e) × (e.user_id ≡ k)
  gone = h.index_entry k i known

  -- Another user's index is another place.
  pub other_place : (j : Text) (n : ℕ) → lookup j u.indexes ≡ some n → k ≢ j → (i == n) ≡ false
  other_place j n found ne = elim (Bool-cases (i == n)) [
    | inr other ↦ other
    | inl same ↦
        let (e, place, owner) = gone in
        let (e', place', owner') = h.index_entry j n found in
        let s : i ≡ n = (==_iff i n).0 same in
        let t : e ≡ e' = ground arith in
        absurd (ne (sym owner ∙ ap PresenceEntry.user_id t ∙ owner'))
  ]

  -- The removed entry is the last one.
  module _ (at_end : i + 1 ≡ length u.entries) where
    abbrev pub shortened : Users
    shortened = record { entries = pop u.entries; indexes = delete k u.indexes }

    shortened-index :
        (j : Text) (n : ℕ)
        → lookup j shortened.indexes ≡ some n
        → (e : PresenceEntry) × (get_elem? shortened.entries n ≡ some e) × (e.user_id ≡ j)
    shortened-index j n hj =
        let old : lookup j u.indexes ≡ some n = ground (arith, lookup-delete k j u.indexes) in
        let ne : k ≢ j = ground (arith, lookup-delete k j u.indexes, text_eq_iff k j) in
        let apart = other_place j n old ne in
        let (e, place, owner) = h.index_entry j n old in
        (e, ground (arith, get_elem?-pop u.entries n), owner)

    shortened-entry :
        (n : ℕ) (e : PresenceEntry)
        → get_elem? shortened.entries n ≡ some e
        → lookup e.user_id shortened.indexes ≡ some n
    shortened-entry n e hn =
        let old : get_elem? u.entries n ≡ some e = ground (arith, get_elem?-pop u.entries n) in
        let found = h.entry_index n e old in
        ground (
          arith,
          found,
          known,
          get_elem?-pop u.entries n,
          lookup-delete k e.user_id u.indexes,
          text_eq_iff k e.user_id,
        )

    pub shortened-IsIndexed : IsIndexed shortened
    shortened-IsIndexed = record { index_entry = shortened-index; entry_index = shortened-entry }

  -- Another entry is the last one, and moves.
  module _ (e_last : PresenceEntry) (last : ℕ) (len : last + 1 ≡ length u.entries)
      (is_last : get_elem? u.entries last ≡ some e_last) (inside : i ≢ last) where
    abbrev pub moved : Users
    moved = record {
      entries = pop (set u.entries i e_last);
      indexes = delete k (insert e_last.user_id i u.indexes);
    }

    i-lt : i < length u.entries
    i-lt = let (e, place, owner) = gone in get_elem?-lt u.entries i e place

    last_known : lookup e_last.user_id u.indexes ≡ some last
    last_known = h.entry_index last e_last is_last

    last_other : k ≢ e_last.user_id
    last_other same = inside (ground (arith, known, last_known))

    pub moved_lookup :
        (j : Text)
        → lookup j moved.indexes ≡ (
            if text_eq k j
            then none
            else if text_eq e_last.user_id j
            then some i
            else lookup j u.indexes)
    moved_lookup j = ground (
      arith,
      lookup-delete k j (insert e_last.user_id i u.indexes),
      lookup-insert e_last.user_id j i u.indexes,
    )

    pub moved_entry :
        (n : ℕ)
        → get_elem? moved.entries n
          ≡ (if n == last then none else if i == n then some e_last else get_elem? u.entries n)
    moved_entry n = ground (
      arith,
      get_elem?-pop (set u.entries i e_last) n,
      get_elem?-set u.entries i n e_last i-lt,
      length-set u.entries i e_last,
      len,
    )

    pub not_last :
        (j : Text) (n : ℕ) (e : PresenceEntry)
        → text_eq e_last.user_id j ≡ false
        → get_elem? u.entries n ≡ some e
        → e.user_id ≡ j
        → (n == last) ≡ false
    not_last j n e other place owner = elim (Bool-cases (n == last)) [
      | inr no_last ↦ no_last
      | inl same ↦
          let s : n ≡ last = (==_iff n last).0 same in
          let t : e_last ≡ e = ground arith in
          let o : e_last.user_id ≡ j = ap PresenceEntry.user_id t ∙ owner in
          cc ((text_eq_iff e_last.user_id j).1 o)
    ]

    moved-index :
        (j : Text) (n : ℕ)
        → lookup j moved.indexes ≡ some n
        → (e : PresenceEntry) × (get_elem? moved.entries n ≡ some e) × (e.user_id ≡ j)
    moved-index j n hj = elim (Bool-cases (text_eq e_last.user_id j)) [
      | inl same ↦
          (e_last, ground (arith, moved_lookup j, moved_entry n, inside), (text_eq_iff _ j).0 same)
      | inr other ↦
          let old : lookup j u.indexes ≡ some n = ground (arith, moved_lookup j) in
          let ne : k ≢ j = ground (arith, moved_lookup j, text_eq_iff k j) in
          let apart = other_place j n old ne in
          let (e, place, owner) = h.index_entry j n old in
          let not_last : (n == last) ≡ false = not_last j n e other place owner in
          (e, ground (arith, moved_entry n), owner)
    ]

    moved-entry :
        (n : ℕ) (e : PresenceEntry)
        → get_elem? moved.entries n ≡ some e
        → lookup e.user_id moved.indexes ≡ some n
    moved-entry n e hn = elim (Bool-cases (i == n)) [
      | inl same ↦
          let s : e_last ≡ e = ground (arith, moved_entry n) in
          rw (← s) (
            ground (
              arith,
              moved_lookup e_last.user_id,
              text_eq_iff k e_last.user_id,
              text_eq_refl e_last.user_id,
              last_other,
            ))
      | inr other ↦
          let old : get_elem? u.entries n ≡ some e = ground (arith, moved_entry n) in
          let found = h.entry_index n e old in
          ground (
            arith,
            found,
            known,
            last_known,
            moved_entry n,
            moved_lookup e.user_id,
            text_eq_iff k e.user_id,
            text_eq_iff e_last.user_id e.user_id,
          )
    ]

    pub moved-IsIndexed : IsIndexed moved
    moved-IsIndexed = record { index_entry = moved-index; entry_index = moved-entry }
