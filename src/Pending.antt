-- ===== src/Pending.antt =====
-- sdk/typescript/src/pending_requests.ts: requests that wait for a response. The map keeps its
-- entries in insertion order. `log` is what the promises observe: one event for each settled promise.
pub mod Laws
use zyncbase.Prelude.Table.{find, put, remove}
use zyncbase.Prelude.{
  ℕ, ◌+◌, Bool, true, false, Option, none, some, List, [], ◌∷◌, ◌++◌, map, ◌==◌, if◌then◌else◌,
  length,
}

pub data Settled (R E : Type 0) : Type 0 where
  resolved : R → Settled R E
  rejected : E → Settled R E

pub record Pending (C R E : Type 0) : Type 0 where
  pub next_request_id : ℕ
  pub entries : List (ℕ × C)
  pub log : List (ℕ × Settled R E)

module _ {C R E : Type 0} where
  unfoldable pub new : Pending C R E
  new = record { next_request_id = 1; entries = []; log = [] }

  unfoldable pub next_id : Pending C R E → Pending C R E × ℕ
  next_id p = (record p { next_request_id = p.next_request_id + 1 }, p.next_request_id)

  unfoldable pub register : ℕ → C → Pending C R E → Pending C R E
  unfolding put
  register id c p = record p { entries = put id c p.entries }

  unfoldable pub context : ℕ → Pending C R E → Option C
  unfolding find
  context id p = find id p.entries

  -- The body that `resolve` and `reject` share.
  unfoldable pub settle : ℕ → Settled R E → Pending C R E → Pending C R E × Bool
  unfolding find remove
  settle id s p = elim (find id p.entries) [
    | none ↦ (p, false)
    | some _ ↦ (record p { entries = remove id p.entries; log = p.log ++ (id, s) ∷ [] }, true)
  ]

  unfoldable pub resolve : ℕ → R → Pending C R E → Pending C R E × Bool
  unfolding settle
  resolve id value = settle id (resolved value)

  unfoldable pub reject : ℕ → E → Pending C R E → Pending C R E × Bool
  unfolding settle
  reject id reason = settle id (rejected reason)

  unfoldable pub reject_all : E → Pending C R E → Pending C R E
  reject_all reason p = record p {
    entries = [];
    log = p.log ++ map (λ e. (e.0, rejected reason)) p.entries;
  }

  unfoldable pub clear : Pending C R E → Pending C R E
  clear p = record p { entries = [] }

  unfoldable pub size : Pending C R E → ℕ
  size p = length p.entries

  -- `next_id`, then `register`: how `ConnectionManager.sendRequest` opens a request.
  unfoldable pub send : C → Pending C R E → Pending C R E
  unfolding next_id register
  send c p = let (q, id) = next_id p in register id c q

-- The calls that `ConnectionManager` makes: a request; an id that is taken only, for a ping or for a
-- message that cannot be encoded; a response; an error response or a failed send; and the end of the
-- connection.
pub data Call (C R E : Type 0) : Type 0 where
  sent : C → Call C R E
  taken : Call C R E
  answered : ℕ → R → Call C R E
  failed : ℕ → E → Call C R E
  closed : E → Call C R E

module _ {C R E : Type 0} where
  unfoldable pub call : Call C R E → Pending C R E → Pending C R E
  unfolding send next_id resolve reject reject_all
  call (sent c) p = send c p
  call taken p = (next_id p).0
  call (answered id value) p = (resolve id value p).0
  call (failed id reason) p = (reject id reason p).0
  call (closed reason) p = reject_all reason p

  unfoldable pub run : List (Call C R E) → Pending C R E → Pending C R E
  unfolding call
  run [] p = p
  run (c ∷ cs) p = run cs (call c p)

-- How often a run whose counter starts at `next` registers the id.
unfoldable pub issued : {C R E : Type 0} → ℕ → List (Call C R E) → ℕ → ℕ
issued id [] next = 0
issued id (sent c ∷ cs) next = (if next == id then 1 else 0) + issued id cs (next + 1)
issued id (taken ∷ cs) next = issued id cs (next + 1)
issued id (c ∷ cs) next = issued id cs next
