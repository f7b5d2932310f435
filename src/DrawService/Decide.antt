-- ===== src/DrawService/Decide.antt =====
-- The decisions of apps/agent/src/draw-service.ts that end or move an assignment: `unassignByDecision`,
-- `closeByDecision`, `tellRoundClosed` and `setAssignmentDeadline`. Reasons are trimmed.
pub mod Keeps
pub mod Neutral
use grainlify_bounty_agent.Base.{
  ℕ, ◌==◌, Bool, true, false, ◌||◌, ◌&&◌, Option, none, some, List, [], ◌∷◌, ◌++◌, leb,
  if◌then◌else◌, String, text_eq, first, update_where,
}
use grainlify_bounty_agent.DrawService.Tables.{
  Tables, BountyRow, AssignmentRow, AssignmentStatus, active, pr_submitted, released_voluntary,
  cancelled, unassigned, round_closed, deadline_changed, assignment_unassigned, bounty_closed,
  assignment_round_closed_notice, assignment_deadline_changed, enqueue_event, log, is_posted,
  is_live, is_pr_submitted, bounty_of, holder_of, set_bounty, set_assignment, back_to_pool,
}

pub data Decided : Type 0 where
  done : Option String → Bool → Decided
  reason_required no_active_assignment pr_open not_found not_open still_assigned : Decided
  bad_deadline deadline_in_past : Decided

-- Released by decision: no abandon.
abbrev pub release : ℕ → String → String → AssignmentRow → AssignmentRow
release now reason actor a = record a {
  status = released_voluntary;
  released_at = some now;
  release_reason = some reason;
  released_by = some actor;
  counts_as_abandon = false;
}

abbrev await_redraw : String → BountyRow → BountyRow
await_redraw login b = record b { exclude_login_next_draw = some login; awaiting_redraw = true }

abbrev pub release_holder : ℕ → String → String → ℕ → AssignmentRow → Tables → Tables
release_holder now reason actor bounty a t =
    back_to_pool bounty a.github_login (set_assignment a.id (release now reason actor) t)

abbrev unassign : ℕ → String → String → ℕ → AssignmentRow → Tables → Tables × Decided
unassign now reason actor bounty a t = (
  (enqueue_event a.github_user_id (unassigned a.id) false (
      log actor assignment_unassigned bounty (some reason) (
        set_bounty bounty (await_redraw a.github_login)
          (release_holder now reason actor bounty a t)))).0,
  done (some a.github_login) true,
)

abbrev unassign_holder : ℕ → String → String → ℕ → Option AssignmentRow → Tables → Tables × Decided
unassign_holder now reason actor bounty none t = (t, no_active_assignment)
unassign_holder now reason actor bounty (some a) t =
    if is_pr_submitted a.status then (t, pr_open) else unassign now reason actor bounty a t

-- `reason` is the trimmed one.
unfoldable pub unassign_by_decision : ℕ → ℕ → String → String → Tables → Tables × Decided
unfolding enqueue_event
unassign_by_decision now bounty actor reason t =
    if text_eq reason ""
    then (t, reason_required)
    else unassign_holder now reason actor bounty (holder_of bounty t) t

abbrev cancel : BountyRow → BountyRow
cancel b = record b { status = cancelled }

abbrev tell : ℕ → Option AssignmentRow → Tables → Tables × Decided
tell bounty none t = (t, done none false)
tell bounty (some a) t =
    let (t', notified) = enqueue_event a.github_user_id (unassigned a.id) true t in
    (t', done (some a.github_login) notified)

abbrev release_if : ℕ → String → String → ℕ → Option AssignmentRow → Tables → Tables
release_if now reason actor bounty none t = t
release_if now reason actor bounty (some a) t = release_holder now reason actor bounty a t

abbrev has_pr : Option AssignmentRow → Bool
has_pr none = false
has_pr (some a) = is_pr_submitted a.status

-- The transaction, then the message.
abbrev close_held : ℕ → String → String → ℕ → Option AssignmentRow → Tables → Tables × Decided
close_held now reason actor bounty held t =
    if has_pr held
    then (t, pr_open)
    else tell bounty held (
        log actor bounty_closed bounty (some reason)
          (release_if now reason actor bounty held (set_bounty bounty cancel t)))

abbrev close_bounty : ℕ → String → String → ℕ → Option BountyRow → Tables → Tables × Decided
close_bounty now reason actor bounty none t = (t, not_found)
close_bounty now reason actor bounty (some b) t =
    if is_posted b.status
    then close_held now reason actor bounty (holder_of bounty t) t
    else (t, not_open)

unfoldable pub close_by_decision : ℕ → ℕ → String → String → Tables → Tables × Decided
unfolding enqueue_event
close_by_decision now bounty actor reason t =
    if text_eq reason ""
    then (t, reason_required)
    else close_bounty now reason actor bounty (bounty_of bounty t) t

abbrev tell_closed : String → String → AssignmentRow → Tables → Tables × Decided
tell_closed actor reason a t =
    let (t', queued) = enqueue_event a.github_user_id (round_closed a.id) true t in
    (
      log actor assignment_round_closed_notice a.bounty_id (some reason) t',
      done (some a.github_login) queued,
    )

abbrev tell_found : String → String → Option AssignmentRow → Tables → Tables × Decided
tell_found actor reason none t = (t, not_found)
tell_found actor reason (some a) t =
    if is_live a.status then (t, still_assigned) else tell_closed actor reason a t

unfoldable pub tell_round_closed : ℕ → String → String → Tables → Tables × Decided
unfolding enqueue_event
tell_round_closed assignment actor reason t =
    if text_eq reason ""
    then (t, reason_required)
    else tell_found actor reason (first (λ (a : AssignmentRow). a.id == assignment) t.assignments) t

abbrev move_to : ℕ → AssignmentRow → AssignmentRow
move_to at a = record a { stale_at = at }

abbrev move_deadline : ℕ → String → String → ℕ → Option AssignmentRow → Tables → Tables × Decided
move_deadline new_at actor reason bounty none t = (t, no_active_assignment)
move_deadline new_at actor reason bounty (some a) t =
    let t1 = set_assignment a.id (move_to new_at) t in
    let t2 = record t1 {
      deadline_changes =
          t1.deadline_changes
          ++ record {
            assignment_id = a.id;
            previous_at = a.stale_at;
            new_at = new_at;
            reason = reason;
            changed_by = actor;
          }
            ∷ [];
    } in
    (
      (enqueue_event a.github_user_id (deadline_changed a.id new_at) false
          (log actor assignment_deadline_changed bounty (some reason) t2)).0,
      done (some a.github_login) true,
    )

abbrev check_deadline : ℕ → ℕ → String → String → Option ℕ → Tables → Tables × Decided
check_deadline now bounty actor reason none t = (t, bad_deadline)
check_deadline now bounty actor reason (some new_at) t =
    if leb new_at now
    then (t, deadline_in_past)
    else move_deadline new_at actor reason bounty (holder_of bounty t) t

-- The new deadline is `none` where the date is not one.
unfoldable pub set_assignment_deadline :
    ℕ → ℕ → Option ℕ → String → String → Tables → Tables × Decided
unfolding enqueue_event
set_assignment_deadline now bounty new_at actor reason t =
    if text_eq reason ""
    then (t, reason_required)
    else check_deadline now bounty actor reason new_at t
