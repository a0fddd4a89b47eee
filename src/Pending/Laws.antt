-- ===== src/Pending/Laws.antt =====
-- What becomes of the ids that `PendingRequests` hands out.
use zyncbase.Pending
use zyncbase.Pending.{
  new, Call, sent, taken, issued, answered, failed, closed, send, call, run, Pending, Settled,
  resolved, rejected, find, remove, put, next_id, register, settle, resolve, reject, reject_all,
}
use zyncbase.Prelude.Table.{find, put, remove}
use zyncbase.Prelude.{
  ℕ, ◌+◌, ◌<◌, ◌≡◌, refl, inl, inr, some, List, [], ◌∷◌, ◌++◌, map, arith, ◌==◌, if◌then◌else◌,
  Option-cases, ◌≤◌, none, is_some, ==_iff,
}

-- How often an id is a key of the list.
pub count {ℓ} : {A : Type ℓ} → ℕ → List (ℕ × A) → ℕ
count id [] = 0
count id ((k, a) ∷ es) = (if k == id then 1 else 0) + count id es

count-append {ℓ} :
    {A : Type ℓ} (id : ℕ) (xs ys : List (ℕ × A)) → count id (xs ++ ys) ≡ count id xs + count id ys
unfolding count
count-append id [] ys = omega arith
count-append id ((k, a) ∷ xs) ys = omega (arith, count-append id xs ys)

count-map :
    {A B : Type 0} (id : ℕ) (b : B) (xs : List (ℕ × A))
    → count id (map (λ e. (e.0, b)) xs) ≡ count id xs
unfolding count
count-map id b [] = refl
count-map id b ((k, a) ∷ xs) = rw (count-map id b xs)

count_one : {A : Type 0} (id j : ℕ) (a : A) → count id ((j, a) ∷ []) ≡ (if j == id then 1 else 0)
unfolding count
count_one id j a = ground arith

module _ {C : Type 0} where
  count-put :
      (id j : ℕ) (c : C) (es : List (ℕ × C))
      → count j es ≡ 0
      → count id (put j c es) ≡ (if j == id then 1 else 0) + count id es
  unfolding count put
  count-put id j c [] h = refl
  count-put id j c ((k, d) ∷ es) h = ground (arith, count-put id j c es)

  count-remove :
      (id j : ℕ) (c : C) (es : List (ℕ × C))
      → find j es ≡ some c
      → (if j == id then 1 else 0) + count id (remove j es) ≡ count id es
  unfolding count find remove
  count-remove id j c [] h = cc
  count-remove id j c ((k, d) ∷ es) h = ground (arith, count-remove id j c es)

  count_of_find : (j : ℕ) (c : C) (es : List (ℕ × C)) → find j es ≡ some c → 0 < count j es
  unfolding count find
  count_of_find j c [] h = cc
  count_of_find j c ((k, d) ∷ es) h = ground (arith, count_of_find j c es)

module _ {C R E : Type 0} where
  -- How often the id is pending or settled.
  abbrev pub held : ℕ → Pending C R E → ℕ
  held id p = count id p.entries + count id p.log

  -- No id is pending or settled twice, and none from the counter on is.
  pub record IsAccounted (p : Pending C R E) : Type 0 where
    pub once : (id : ℕ) → held id p ≤ 1
    pub fresh : (id : ℕ) → p.next_request_id ≤ id → held id p ≡ 0

  held-settle :
      (id : ℕ) (s : Settled R E) (p : Pending C R E) (j : ℕ)
      → (held j (settle id s p).0 ≡ held j p)
        × ((settle id s p).0.next_request_id ≡ p.next_request_id)
  unfolding settle
  held-settle id s p j = elim (Option-cases (find id p.entries)) [
    | inl absent ↦ rw (absent, settle) (refl, refl)
    | inr (c, present) ↦
        rw (present, settle)
          (
            rw (count-append j p.log)
                (omega (arith, count-remove j id c p.entries present, count_one j id s)),
            refl,
          )
  ]

  held-send :
      (c : C) (p : Pending C R E) (j : ℕ)
      → IsAccounted p
      → held j (send c p) ≡ (if p.next_request_id == j then 1 else 0) + held j p
  unfolding send next_id register
  held-send c p j h =
      ground (arith, count-put j p.next_request_id c p.entries, h.fresh p.next_request_id)

  held-reject_all :
      (reason : E) (p : Pending C R E) (j : ℕ) → held j (Pending.reject_all reason p) ≡ held j p
  unfolding Pending.reject_all count
  held-reject_all reason p j =
      rw (count-append j p.log, count-map {B = Settled R E} j (rejected reason) p.entries)
        (omega arith)

  IsAccounted-same :
      (p q : Pending C R E)
      → ((j : ℕ) → held j q ≡ held j p)
      → p.next_request_id ≤ q.next_request_id
      → IsAccounted p
      → IsAccounted q
  IsAccounted-same p q same grows h = record {
    once = λ id. omega (arith, same id, h.once id);
    fresh = λ id le. ground (arith, same id, h.fresh id);
  }

  IsAccounted-grown :
      (p q : Pending C R E)
      → ((j : ℕ) → held j q ≡ (if p.next_request_id == j then 1 else 0) + held j p)
      → q.next_request_id ≡ p.next_request_id + 1
      → IsAccounted p
      → IsAccounted q
  IsAccounted-grown p q grown next h = record {
    once = λ id. ground (arith, grown id, h.once id, h.fresh id);
    fresh = λ id le. ground (arith, grown id, h.fresh id);
  }

  call-IsAccounted : (c : Call C R E) (p : Pending C R E) → IsAccounted p → IsAccounted (call c p)
  unfolding call Pending.resolve Pending.reject send next_id register Pending.reject_all
  call-IsAccounted (sent c) p h = IsAccounted-grown p _ (λ j. held-send c p j h) refl h
  call-IsAccounted taken p h = IsAccounted-same p _ (λ j. refl) (omega arith) h
  call-IsAccounted (answered id value) p h =
      IsAccounted-same p _ (λ j. (held-settle id (resolved value) p j).0)
        (omega (arith, (held-settle id (resolved value) p 0).1)) h
  call-IsAccounted (failed id reason) p h =
      IsAccounted-same p _ (λ j. (held-settle id (rejected reason) p j).0)
        (omega (arith, (held-settle id (rejected reason) p 0).1)) h
  call-IsAccounted (closed reason) p h =
      IsAccounted-same p _ (held-reject_all reason p) (omega arith) h

  pub run-IsAccounted :
      (cs : List (Call C R E)) (p : Pending C R E) → IsAccounted p → IsAccounted (run cs p)
  unfolding run
  run-IsAccounted [] p h = h
  run-IsAccounted (c ∷ cs) p h = run-IsAccounted cs (call c p) (call-IsAccounted c p h)

  held-same :
      (cs : List (Call C R E)) (q p : Pending C R E) (id : ℕ)
      → held id (run cs q) ≡ issued id cs q.next_request_id + held id q
      → held id q ≡ held id p
      → q.next_request_id ≡ p.next_request_id
      → held id (run cs q) ≡ issued id cs p.next_request_id + held id p
  held-same cs q p id ih same next = cc

  held-run :
      (cs : List (Call C R E)) (p : Pending C R E) (id : ℕ)
      → IsAccounted p
      → held id (run cs p) ≡ issued id cs p.next_request_id + held id p
  unfolding run call Pending.resolve Pending.reject send next_id register Pending.reject_all issued
  held-run [] p id h = omega arith
  held-run (sent c ∷ cs) p id h =
      omega (
        arith,
        held-run cs (call (sent c) p) id (call-IsAccounted (sent c) p h),
        held-send c p id h,
      )
  held-run (taken ∷ cs) p id h = held-run cs (call taken p) id (call-IsAccounted taken p h)
  held-run (answered i value ∷ cs) p id h =
      let (same, next) = held-settle i (resolved value) p id in
      let ih =
        held-run cs (call (answered i value) p) id (call-IsAccounted (answered i value) p h) in
      held-same cs _ p id ih same next
  held-run (failed i reason ∷ cs) p id h =
      let (same, next) = held-settle i (rejected reason) p id in
      let ih = held-run cs (call (failed i reason) p) id (call-IsAccounted (failed i reason) p h) in
      held-same cs _ p id ih same next
  held-run (closed reason ∷ cs) p id h = omega (
    arith,
    held-run cs (call (closed reason) p) id (call-IsAccounted (closed reason) p h),
    held-reject_all reason p id,
  )

pub new-IsAccounted : {C R E : Type 0} → IsAccounted (new {C = C} {R = R} {E = E})
unfolding new count
new-IsAccounted = record { once = λ id. omega arith; fresh = λ id le. refl }

-- Whatever calls `ConnectionManager` makes, in whatever order: an id is pending or settled as often
-- as a request was registered under it, which is once at most.
pub run_once :
    {C R E : Type 0} (cs : List (Call C R E)) (id : ℕ)
    → (count id (run cs new).entries + count id (run cs new).log ≡ issued id cs 1)
      × (issued id cs 1 ≤ 1)
unfolding new count
run_once cs id =
    let total = held-run cs new id new-IsAccounted in
    (omega (arith, total), omega (arith, total, (run-IsAccounted cs new new-IsAccounted).once id))

-- When the connection has ended, no request is pending, and every request ever registered has
-- settled exactly once.
pub run_closed :
    {C R E : Type 0} (cs : List (Call C R E)) (reason : E) (id : ℕ)
    → (Pending.size (call (closed reason) (run cs new)) ≡ 0)
      × (count id (call (closed reason) (run cs new)).log ≡ issued id cs 1)
unfolding call Pending.size Pending.reject_all count
run_closed cs reason id =
    (refl, omega (arith, held-reject_all reason (run cs new) id, (run_once cs id).0))

module _ {C : Type 0} where
  find_of_count : (j : ℕ) (es : List (ℕ × C)) → count j es ≡ 0 → find j es ≡ none
  unfolding count find
  find_of_count j [] h = refl
  find_of_count j ((k, d) ∷ es) h = ground (arith, find_of_count j es)

  pub find-remove :
      (j id : ℕ) (es : List (ℕ × C))
      → count id es ≤ 1
      → find j (remove id es) ≡ (if id == j then none else find j es)
  unfolding count find remove
  find-remove j id [] h = ground arith
  find-remove j id ((k, d) ∷ es) h =
      ground (arith, find-remove j id es, find_of_count id es, find_of_count j es)

once_le : {C R E : Type 0} (id : ℕ) (p : Pending C R E) → IsAccounted p → count id p.entries ≤ 1
once_le id p h = ground (arith, h.once id)

-- A response for a pending id settles that request with its value and forgets it; the other
-- requests keep their contexts. For any other id nothing changes and the result is `false`.
pub context-resolve :
    {C R E : Type 0} (p : Pending C R E) (id j : ℕ) (value : R)
    → IsAccounted p
    → (Pending.context j (Pending.resolve id value p).0
        ≡ (if id == j then none else Pending.context j p))
      × ((Pending.resolve id value p).1 ≡ is_some (Pending.context id p))
      × ((Pending.resolve id value p).0.log
          ≡ (if is_some (Pending.context id p) then p.log ++ (id, resolved value) ∷ [] else p.log))
unfolding Pending.context Pending.resolve
context-resolve p id j value h = elim (Option-cases (find id p.entries)) [
  | inl absent ↦ rw (absent, settle) (ground (arith, ==_iff id j))
  | inr (c, present) ↦
      rw (present, settle) (find-remove j id p.entries (omega (arith, once_le id p h)), refl, refl)
]
