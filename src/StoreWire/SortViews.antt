-- ===== src/StoreWire/SortViews.antt =====
-- The order that `StoreImpl.subscribe` keeps for its comparator and the one that it sends.
use zyncbase.StoreWire.Sort.{WireOrder, encode_field, encode_order_by}
use zyncbase.StoreWire.SortLaws.{AreClauses, IsClause, encode_order_by_iff, direction_text}
use zyncbase.Compare.Collection.{OrderClause, encode_dots, sort_entries, sort_entry}
use zyncbase.Json.{Value, str, arr, obj, Items, nil, cons, field}
use zyncbase.Compare.{SortEntry}
use zyncbase.Errors.{Thrown}
use zyncbase.Path.{split_field_path, split_on, join, delimiter}
use zyncbase.Prelude.{
  ◌≡◌, refl, sym, inl, inr, ℕ, Bool, true, false, none, some, List, [], ◌∷◌, ◌==◌, Bool-cases,
}
use zyncbase.Prelude.Result.{Result, ok, ◌>>=◌}
use zyncbase.Prelude.Text.{Text, text, text_eq}

-- `clause[field] === "desc"`
unfoldable pub is_desc : Value → Bool
unfolding text_eq
is_desc (str s) = text_eq s (text "desc")
is_desc v = false

-- The first key of a clause, and whether its direction is "desc".
abbrev pub read_clause : Value → OrderClause
unfolding is_desc
read_clause (obj (field name dir fs)) = record { key = some name; desc = is_desc dir }
read_clause v = record { key = none; desc = false }

-- The clauses that the comparator reads.
abbrev pub read_clauses : Items → List OrderClause
read_clauses nil = []
read_clauses (cons v vs) = read_clause v ∷ read_clauses vs

pub split_on-some : (sep : ℕ) (s : Text) → (p : Text) × (ps : List Text) × (split_on sep s ≡ p ∷ ps)
unfolding split_on
split_on-some sep [] = ([], [], refl)
split_on-some sep (c ∷ s) = elim (Bool-cases (c == sep)) [
  | inl cut ↦ ([], split_on sep s, rw cut refl)
  | inr on ↦ (let (p, ps, e) = split_on-some sep s in (c ∷ p, ps, rw (on, e) refl))
]

join-cons :
    (c : ℕ) (p : Text) (ps : List Text)
    → join delimiter ((c ∷ p) ∷ ps) ≡ c ∷ join delimiter (p ∷ ps)
unfolding join
join-cons c p [] = refl
join-cons c p (q ∷ qs) = refl

-- `replace(/\./g, "__")` and `split(".").join("__")` agree.
encode_dots-field : (s : Text) → encode_dots s ≡ encode_field s
unfolding encode_dots encode_field split_on join
encode_dots-field [] = refl
encode_dots-field (c ∷ s) =
    let (p, ps, e) = split_on-some b'.' s in
    let ih = encode_dots-field s in
    elim (Bool-cases (c == b'.')) [
      | inl dot ↦ rw (dot, ih, e) refl
      | inr other ↦ rw (other, ih, e) (sym (join-cons c p ps))
    ]

is_desc_text : (desc : Bool) → is_desc (str (direction_text desc)) ≡ desc
unfolding is_desc text_eq
is_desc_text true = refl
is_desc_text false = refl

-- The sort entries of an order that was sent, with the answers of `is_doc_id` for its fields.
abbrev pub wire_entries :
    (Text → Result Thrown Bool) → List WireOrder → Result Thrown (List SortEntry)
wire_entries is_doc_id [] = ok []
wire_entries is_doc_id (e ∷ es) = do
  doc_id ← is_doc_id e.key
  rest ← wire_entries is_doc_id es
  ok (record { parts = split_field_path e.key; desc = e.desc; doc_id = doc_id } ∷ rest)

module _ (is_doc_id : Text → Result Thrown Bool) where
  entry_of_clause :
      (v : Value) (e : WireOrder) (cs : List OrderClause)
      → IsClause v e
      → sort_entries is_doc_id (read_clause v ∷ cs) ≡ (do
        doc_id ← is_doc_id e.key
        rest ← sort_entries is_doc_id cs
        ok (sort_entry doc_id e.key e.desc ∷ rest))
  unfolding sort_entries read_clause
  entry_of_clause v e cs (name, shape, key) =
      rw (shape, is_desc_text e.desc, encode_dots-field name, key) refl

  wire_entries_clauses :
      (vs : Items) (es : List WireOrder)
      → AreClauses vs es
      → sort_entries is_doc_id (read_clauses vs) ≡ wire_entries is_doc_id es
  unfolding sort_entries
  wire_entries_clauses nil [] c = refl
  wire_entries_clauses nil (e ∷ es) c = absurd c
  wire_entries_clauses (cons v vs) [] c = absurd c
  wire_entries_clauses (cons v vs) (e ∷ es) (c, cs) =
      rw (entry_of_clause v e (read_clauses vs) c, wire_entries_clauses vs es cs) refl

  -- When `encodeOrderBy` accepts the clauses of a subscription, the comparator that the client keeps
  -- for it sorts by exactly the fields and directions that are sent, in the same order, before the
  -- tie break is added; it asks the schema for the same fields, and throws where that throws.
  pub sort_entries-encode_order_by :
      (clauses : Items) (es : List WireOrder)
      → encode_order_by (arr clauses) ≡ ok es
      → sort_entries is_doc_id (read_clauses clauses) ≡ wire_entries is_doc_id es
  sort_entries-encode_order_by clauses es h =
      let (vs, whole, cs, low, high, distinct, last) = (encode_order_by_iff (arr clauses) es).0 h in
      let same : clauses ≡ vs = cc in wire_entries_clauses clauses es (rw same cs)
