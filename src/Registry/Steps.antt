-- ===== src/Registry/Steps.antt =====
-- The inputs of a registration, and runs of them. An answer comes only for a message that was sent,
-- and a consumer arrives only while the key is held: a closed registration is never found again.
use zyncbase.Registry.{
  Registration, idle, parked, sent, attach, release, grace_fired, acknowledged, failed,
  mark_session_ready, mark_not_ready, begin_namespace_switch, rollback_namespace_switch,
  commit_namespace_switch, reject_pending, load_more, page_came, remapped, untracked,
}
use zyncbase.Prelude.{ℕ, Bool, Option, List, [], ◌∷◌, if◌then◌else◌}
use zyncbase.Prelude.Text.{Text}

-- An ack says as well whether the comparator of the query builds.
pub data Input : Type 0 where
  arrives : Input
  leaves : ℕ → Input
  timer : Input
  ack : Bool → ℕ → Option Text → Bool → Input
  failure : Input
  ready not_ready switch_begins switch_rejected switch_lands disconnects : Input
  asks_more : Input
  page : Option (Option Text × Bool) → Input
  remap : ℕ → Input
  lost : Input

-- An answer in the generation of its message.
unfoldable pub answered : (ℕ → Registration → Registration) → Registration → Registration
answered f s = elim s.loop [ idle ↦ s | parked ↦ s | sent gen ↦ f gen s ]

unfoldable pub step : Input → Registration → Registration
unfolding attach release grace_fired acknowledged failed mark_session_ready mark_not_ready
    begin_namespace_switch rollback_namespace_switch commit_namespace_switch reject_pending
    load_more page_came remapped untracked answered
step arrives s = if s.closed then s else attach s
step (leaves c) s = release c s
step timer s = grace_fired s
step (ack builds id cursor more) s = answered (λ gen. acknowledged builds gen id cursor more) s
step failure s = answered failed s
step ready s = mark_session_ready s
step not_ready s = mark_not_ready s
step switch_begins s = begin_namespace_switch s
step switch_rejected s = rollback_namespace_switch s
step switch_lands s = commit_namespace_switch s
step disconnects s = reject_pending s
step asks_more s = load_more s
step (page answer) s = page_came answer s
step (remap id) s = remapped id s
step lost s = untracked s

unfoldable pub run : List Input → Registration → Registration
unfolding step
run [] s = s
run (x ∷ xs) s = run xs (step x s)
