-- ===== src/Registry.antt =====
-- The shared subscriptions of `StoreImpl` in sdk/typescript/src/store.ts. A registration is shared by
-- all consumers of one canonical key, and none acts on another, so the model is one registration with
-- its consumers, the flags of the session, and what was sent. A consumer is known by its number, in
-- the order of arrival, and so is its callback. An ack, a failure and a timer are steps of their own;
-- what the code does behind one `await` without another one is done at once.
pub mod Steps
pub mod Consumers
pub mod Cases
pub mod Invariant
pub mod Establishing
pub mod Leaving
pub mod Arriving
pub mod Rejecting
pub mod Histories
pub mod Changes
pub mod SafeSteps
pub mod Safety
pub mod Answers
use zyncbase.Prelude.{
  ℕ, suc, ◌-◌, Bool, true, false, not, ◌&&◌, ◌||◌, Option, none, some, List, [], ◌∷◌, ◌++◌, ◌==◌,
  length, if◌then◌else◌, zero,
}
use zyncbase.Prelude.Text.{Text}

-- The promise and the handle of one consumer: not settled, resolved with a handle that is in use,
-- released, or rejected.
pub data Phase : Type 0 where
  waiting holding released rejected : Phase

-- `establishLoop`: not running, waiting for the session to be ready, or for the answer to a message
-- that was sent in a generation.
pub data Loop : Type 0 where
  idle : Loop
  parked : Loop
  sent : ℕ → Loop

-- What the consumers share: the value at a path, or the records of a query.
pub data Kind : Type 0 where
  listen subscribe : Kind

abbrev pub is_subscribe : Kind → Bool
is_subscribe listen = false
is_subscribe subscribe = true

pub data Sent : Type 0 where
  subscribe_sent : Sent
  unsubscribe_sent : ℕ → Sent
  load_more_sent : ℕ → Text → Sent

pub record Registration : Type 0 where
  pub kind : Kind
  pub consumers : List Phase
  pub callbacks : List ℕ
  pub sub_id : Option ℕ
  pub tracked : Bool
  pub loop : Loop
  pub next_cursor : Option Text
  pub has_more : Bool
  pub in_flight : Option ℕ
  pub queued : ℕ
  pub grace : Bool
  pub closed : Bool
  pub session_ready : Bool
  pub scope_gen : ℕ
  pub switch_pending : ℕ
  pub log : List Sent

-- The new registration of `acquireKey`.
unfoldable pub new_registration : Kind → Bool → ℕ → ℕ → Registration
new_registration kind ready gen switches = record {
  kind = kind;
  consumers = [];
  callbacks = [];
  sub_id = none;
  tracked = false;
  loop = idle;
  next_cursor = none;
  has_more = false;
  in_flight = none;
  queued = 0;
  grace = false;
  closed = false;
  session_ready = ready;
  scope_gen = gen;
  switch_pending = switches;
  log = [];
}

abbrev pub is_some : {A : Type 0} → Option A → Bool
is_some none = false
is_some (some a) = true

abbrev pub is_empty : {A : Type 0} → List A → Bool
is_empty [] = true
is_empty (x ∷ xs) = false

abbrev pub is_waiting : Phase → Bool
is_waiting waiting = true
is_waiting _ = false

abbrev pub settle_phase : Phase → Phase → Phase
settle_phase p waiting = p
settle_phase p q = q

-- Every promise that has not settled settles.
unfoldable pub settle_all : Phase → List Phase → List Phase
settle_all p [] = []
settle_all p (q ∷ qs) = settle_phase p q ∷ settle_all p qs

unfoldable pub phase_at : List Phase → ℕ → Phase
phase_at [] i = released
phase_at (q ∷ qs) zero = q
phase_at (q ∷ qs) (suc i) = phase_at qs i

unfoldable pub set_phase : List Phase → ℕ → Phase → List Phase
set_phase [] i p = []
set_phase (q ∷ qs) zero p = p ∷ qs
set_phase (q ∷ qs) (suc i) p = q ∷ set_phase qs i p

-- `callbacks.splice(callbacks.indexOf(callback), 1)`; a number occurs once.
unfoldable pub remove_callback : ℕ → List ℕ → List ℕ
remove_callback c [] = []
remove_callback c (d ∷ ds) = let rest = remove_callback c ds in if d == c then rest else d ∷ rest

-- The callbacks of the consumers that have settled.
unfoldable pub settled_callbacks : List Phase → List ℕ → List ℕ
unfolding phase_at
settled_callbacks ps [] = []
settled_callbacks ps (c ∷ cs) =
    let rest = settled_callbacks ps cs in if is_waiting (phase_at ps c) then rest else c ∷ rest

-- `sessionReady && switchPending === 0`
abbrev pub may_send : Registration → Bool
may_send s = s.session_ready && s.switch_pending == 0

-- `dispatchUnsubscribe`, only while the session is ready.
unfoldable pub unsubscribe_if : Bool → ℕ → Registration → Registration
unsubscribe_if ready id s = record s {
  log = if ready then s.log ++ unsubscribe_sent id ∷ [] else s.log;
}

-- `dropKey`
unfoldable pub drop_key : Registration → Registration
drop_key s = record s { closed = true; grace = false }

-- The loop ends, and its promise resolves or rejects what waits for it.
unfoldable pub end_loop : Phase → Registration → Registration
unfolding settle_all
end_loop p s = record s { loop = idle; consumers = settle_all p s.consumers }

-- `establishLoop` up to its next `await`.
unfoldable pub advance : Registration → Registration
unfolding end_loop
advance s =
    if s.closed
    then end_loop holding s
    else if may_send s
    then record s { loop = sent s.scope_gen; log = s.log ++ subscribe_sent ∷ [] }
    else record s { loop = parked }

-- `wakeReady`
unfoldable pub wake : Registration → Registration
unfolding advance
wake s = elim s.loop [ idle ↦ s | parked ↦ advance s | sent gen ↦ s ]

-- `ensureEstablishing`
unfoldable pub ensure_establishing : Registration → Registration
unfolding advance
ensure_establishing s = elim s.loop [ idle ↦ advance s | parked ↦ s | sent gen ↦ s ]

-- `acquireKey` for a key that is there, and `attach`: a tracked subscription resolves at once.
unfoldable pub attach : Registration → Registration
unfolding ensure_establishing
attach s =
    let joined = record s { grace = false; callbacks = s.callbacks ++ length s.consumers ∷ [] } in
    if is_some s.sub_id && s.tracked
    then record joined { consumers = s.consumers ++ holding ∷ [] }
    else ensure_establishing (record joined { consumers = s.consumers ++ waiting ∷ [] })

-- `release`, through a handle, whose `released` flag lets it happen once.
unfoldable pub leave : ℕ → Registration → Registration
unfolding remove_callback set_phase
leave c s =
    let rest = remove_callback c s.callbacks in
    let last = not s.closed && is_empty rest && is_some s.sub_id in
    record s {
      consumers = set_phase s.consumers c released;
      callbacks = rest;
      grace = s.grace || last;
    }

abbrev pub is_holding : Phase → Bool
is_holding holding = true
is_holding _ = false

unfoldable pub release : ℕ → Registration → Registration
unfolding leave phase_at
release c s = if is_holding (phase_at s.consumers c) then leave c s else s

-- `teardown`
unfoldable pub teardown : Registration → Registration
unfolding drop_key unsubscribe_if
teardown s = elim s.sub_id [
  | none ↦ drop_key s
  | some id ↦
      unsubscribe_if s.session_ready id (record (drop_key s) { sub_id = none; tracked = false })
]

-- The timer of `release`.
unfoldable pub grace_fired : Registration → Registration
unfolding teardown
grace_fired s = if s.grace then teardown (record s { grace = false }) else s

-- `afterEstablishFailure`, for a dispatch that failed, an ack without an id, or a throw of
-- `acceptAck`.
unfoldable pub failed : ℕ → Registration → Registration
unfolding advance end_loop drop_key
failed gen s =
    if s.closed
    then end_loop holding s
    else if is_empty s.callbacks
    then end_loop holding (drop_key s)
    else if not (gen == s.scope_gen) || not (may_send s)
    then advance s
    else end_loop rejected (drop_key s)

-- `acceptAck` up to `tracker.register`.
unfoldable pub adopt : ℕ → Option Text → Bool → Registration → Registration
adopt id cursor more s = record s {
  sub_id = some id;
  next_cursor = if is_subscribe s.kind then cursor else s.next_cursor;
  has_more = if is_subscribe s.kind then more else s.has_more;
}

-- `acceptAck` in its place in the loop. `entryFor` throws before anything is tracked if the comparator
-- of a query does not build, which depends on the schema dictionary.
unfoldable pub accept_ack : Bool → ℕ → ℕ → Option Text → Bool → Registration → Registration
unfolding adopt failed end_loop
accept_ack builds gen id cursor more s =
    let adopted = adopt id cursor more s in
    if is_subscribe s.kind && not builds
    then failed gen adopted
    else end_loop holding (record adopted { tracked = true })

-- `attemptEstablish` behind its `await`, for an ack with a subscription id.
unfoldable pub acknowledged : Bool → ℕ → ℕ → Option Text → Bool → Registration → Registration
unfolding advance end_loop drop_key unsubscribe_if accept_ack
acknowledged builds gen id cursor more s =
    if s.closed
    then end_loop holding (unsubscribe_if (s.session_ready && gen == s.scope_gen) id s)
    else if not (gen == s.scope_gen)
    then advance s
    else if is_empty s.callbacks
    then end_loop holding (unsubscribe_if s.session_ready id (drop_key s))
    else accept_ack builds gen id cursor more s

-- `markSessionReady`, `markNotReady`, and the steps of a namespace switch.
unfoldable pub mark_session_ready : Registration → Registration
unfolding wake
mark_session_ready s = wake (record s { session_ready = true })

unfoldable pub mark_not_ready : Registration → Registration
mark_not_ready s = record s { session_ready = false; scope_gen = suc s.scope_gen }

unfoldable pub begin_namespace_switch : Registration → Registration
begin_namespace_switch s = record s { switch_pending = suc s.switch_pending }

unfoldable pub rollback_namespace_switch : Registration → Registration
unfolding wake
rollback_namespace_switch s = wake (record s { switch_pending = s.switch_pending - 1 })

unfoldable pub commit_namespace_switch : Registration → Registration
unfolding mark_not_ready
commit_namespace_switch s = mark_not_ready (record s { switch_pending = s.switch_pending - 1 })

-- `rejectPending`
unfoldable pub reject_waiting : Registration → Registration
unfolding settle_all settled_callbacks
reject_waiting s = record s {
  consumers = settle_all rejected s.consumers;
  callbacks = settled_callbacks s.consumers s.callbacks;
}

unfoldable pub reject_pending : Registration → Registration
unfolding reject_waiting teardown wake
reject_pending s =
    let rejected_ = reject_waiting s in
    wake (if not s.closed && is_empty rejected_.callbacks then teardown rejected_ else rejected_)

-- `loadMore`: a page is asked for if there is a cursor and no page is on its way.
unfoldable pub ask_page : Registration → Registration
ask_page s = elim s.sub_id [
  | none ↦ s
  | some id ↦ elim s.next_cursor [
    | none ↦ s
    | some cursor ↦ record s { in_flight = some id; log = s.log ++ load_more_sent id cursor ∷ [] }
  ]
]

unfoldable pub load_more : Registration → Registration
unfolding ask_page
load_more s = elim s.in_flight [
  | none ↦ ask_page s
  | some id ↦
      if is_some s.sub_id && is_some s.next_cursor then record s { queued = suc s.queued } else s
]

-- A call that waited for the page goes on: the first asks, the others wait again, or all return.
unfoldable pub resume : ℕ → Registration → Registration
unfolding ask_page
resume zero s = s
resume (suc n) s =
    let asked = ask_page s in
    if is_some asked.in_flight then record asked { queued = n } else record asked { queued = 0 }

abbrev pub same_id : ℕ → Option ℕ → Bool
same_id id none = false
same_id id (some id') = id == id'

-- The cursor of the page, unless it is of another subscription or the registration is closed.
unfoldable pub take_page : ℕ → Option Text → Bool → Registration → Registration
take_page id cursor more s =
    if s.closed || not (same_id id s.sub_id)
    then s
    else record s { next_cursor = cursor; has_more = more }

-- The answer to the page of `loadMore`. A failure, `none`, rejects the calls that wait as well.
unfoldable pub page_came : Option (Option Text × Bool) → Registration → Registration
unfolding resume take_page
page_came page s = elim s.in_flight [
  | none ↦ s
  | some id ↦ elim page [
    | none ↦ record s { in_flight = none; queued = 0 }
    | some (cursor, more) ↦
        resume s.queued (record (take_page id cursor more s) { in_flight = none })
  ]
]

-- `onRemap` of the tracker's entry, and an entry that the tracker gave up.
unfoldable pub remapped : ℕ → Registration → Registration
remapped id s = if s.tracked then record s { sub_id = some id } else s

unfoldable pub untracked : Registration → Registration
untracked s = record s { tracked = false }
