-- ===== src/DrawService/Reopen.antt =====
-- `reopenAfterUnmergedClose`, the repair command around it, and `recordSubmittedPullRequests` of
-- apps/agent/src/draw-service.ts.
pub mod Twice
pub mod Keeps
use grainlify_bounty_agent.Base.{
  ℕ, ◌==◌, Bool, true, false, not, ◌||◌, ◌&&◌, Option, none, some, List, [], ◌∷◌, ◌++◌, ltb,
  if◌then◌else◌, String, text_eq, any, first, update_where,
}
use grainlify_bounty_agent.DrawService.Tables.{
  Tables, BountyRow, AssignmentRow, active, pr_submitted, posted, SubmissionRow, PrState, open_pr,
  closed_pr, merged_pr, bounty_reopened, assignment_pr_recorded, log, is_in_review, is_active,
  is_pr_submitted, is_open_pr, bounty_of, holder_of, set_bounty,
}

abbrev pub reopen_reason : String
reopen_reason = "pull request closed without merging"

pub data ReopenOutcome : Type 0 where
  reopened : ℕ → String → Option String → Bool → Bool → ReopenOutcome
  no_such_bounty not_in_review pr_open pr_merged no_closed_pr : ReopenOutcome
  still_open was_merged : ℕ → ReopenOutcome

abbrev is_merged_pr : PrState → Bool
is_merged_pr merged_pr = true
is_merged_pr open_pr = false
is_merged_pr closed_pr = false

abbrev is_closed_pr : PrState → Bool
is_closed_pr closed_pr = true
is_closed_pr open_pr = false
is_closed_pr merged_pr = false

abbrev later : SubmissionRow → Option SubmissionRow → SubmissionRow
later s none = s
later s (some r) = if ltb s.updated_at r.updated_at then r else s

-- ORDER BY updated_at DESC, and the first that passes.
abbrev latest : (SubmissionRow → Bool) → List SubmissionRow → Option SubmissionRow
latest p [] = none
latest p (s ∷ rows) = let rest = latest p rows in if p s then some (later s rest) else rest

abbrev pub submitted_to : ℕ → (PrState → Bool) → SubmissionRow → Bool
submitted_to bounty p s = s.bounty_id == bounty && p s.state

abbrev pub is_submitted_on : ℕ → AssignmentRow → Bool
is_submitted_on bounty a = a.bounty_id == bounty && is_pr_submitted a.status

abbrev pub make_active : AssignmentRow → AssignmentRow
make_active a = record a { status = active }

-- Back to 'posted', and left to a person where `hold` is set.
abbrev post_again : Bool → BountyRow → BountyRow
post_again hold b = record b { status = posted; awaiting_redraw = b.awaiting_redraw || hold }

abbrev login_of : Option AssignmentRow → Option String
login_of none = none
login_of (some a) = some a.github_login

abbrev reopen_for : String → Bool → ℕ → SubmissionRow → Tables → Tables × ReopenOutcome
reopen_for actor hold bounty closed t =
    let t1 = record t {
      assignments = update_where (is_submitted_on bounty) make_active t.assignments;
    } in
    (
      log actor bounty_reopened bounty (some reopen_reason)
          (set_bounty bounty (post_again hold) t1),
      reopened closed.pr_number closed.author_login (login_of (holder_of bounty t1))
          (any (is_submitted_on bounty) t.assignments) hold,
    )

abbrev reopen_closed : String → Bool → ℕ → Option SubmissionRow → Tables → Tables × ReopenOutcome
reopen_closed actor hold bounty none t = (t, no_closed_pr)
reopen_closed actor hold bounty (some closed) t = reopen_for actor hold bounty closed t

abbrev reopen_bounty : String → Bool → ℕ → Option BountyRow → Tables → Tables × ReopenOutcome
reopen_bounty actor hold bounty none t = (t, no_such_bounty)
reopen_bounty actor hold bounty (some b) t =
    if not (is_in_review b.status)
    then (t, not_in_review)
    else if any (submitted_to bounty is_open_pr) t.submissions
    then (t, pr_open)
    else if any (submitted_to bounty is_merged_pr) t.submissions
    then (t, pr_merged)
    else reopen_closed actor hold bounty (latest (submitted_to bounty is_closed_pr) t.submissions) t

-- One transaction.
unfoldable pub reopen_after_unmerged_close : String → Bool → ℕ → Tables → Tables × ReopenOutcome
reopen_after_unmerged_close actor hold bounty t =
    reopen_bounty actor hold bounty (bounty_of bounty t) t

-- A pull request as GitHub tells it.
pub record Pull : Type 0 where
  pub merged : Bool
  pub is_open : Bool
  pub head_sha : String

abbrev is_open_on : ℕ → ℕ → SubmissionRow → Bool
is_open_on bounty number s = submitted_to bounty is_open_pr s && s.pr_number == number

abbrev close_submission : ℕ → ℕ → ℕ → String → Tables → Tables
close_submission now bounty number sha t = record t {
  submissions =
      update_where (is_open_on bounty number)
        (λ s. record s { state = closed_pr; head_sha = sha; updated_at = now }) t.submissions;
}

-- The loop over the pull requests that are recorded as open, in the order of `numbers`.
refresh : (ℕ → Pull) → ℕ → String → Bool → ℕ → List ℕ → Tables → Tables × ReopenOutcome
unfolding reopen_after_unmerged_close
refresh get_pull now actor hold bounty [] t = reopen_after_unmerged_close actor hold bounty t
refresh get_pull now actor hold bounty (n ∷ numbers) t =
    let pr = get_pull n in
    let rest =
      refresh get_pull now actor hold bounty numbers
        (close_submission now bounty n pr.head_sha t) in
    if pr.merged then (t, was_merged n) else if pr.is_open then (t, still_open n) else rest

abbrev insert_sorted : ℕ → List ℕ → List ℕ
insert_sorted n [] = n ∷ []
insert_sorted n (m ∷ ms) = let rest = insert_sorted n ms in if ltb m n then m ∷ rest else n ∷ m ∷ ms

-- SELECT pr_number … ORDER BY pr_number
abbrev open_numbers : ℕ → List SubmissionRow → List ℕ
open_numbers bounty [] = []
open_numbers bounty (s ∷ rows) =
    let rest = open_numbers bounty rows in
    if submitted_to bounty is_open_pr s then insert_sorted s.pr_number rest else rest

abbrev repair :
    (ℕ → Pull) → ℕ → String → Bool → ℕ → Option BountyRow → Tables → Tables × ReopenOutcome
repair get_pull now actor hold bounty none t = (t, no_such_bounty)
repair get_pull now actor hold bounty (some b) t =
    if not (is_in_review b.status)
    then (t, not_in_review)
    else refresh get_pull now actor hold bounty (open_numbers bounty t.submissions) t

-- `get_pull` is what GitHub says of a pull request of the bounty's repository.
unfoldable pub reopen_after_closed_pull_request :
    (ℕ → Pull) → ℕ → String → Bool → ℕ → Tables → Tables × ReopenOutcome
unfolding refresh
reopen_after_closed_pull_request get_pull now actor hold bounty t =
    repair get_pull now actor hold bounty (bounty_of bounty t) t

-- The holder's own submissions on the bounty.
abbrev pub own_pr : AssignmentRow → (PrState → Bool) → SubmissionRow → Bool
own_pr a p s =
    s.bounty_id == a.bounty_id && (s.author_github_user_id == a.github_user_id && p s.state)

abbrev pub has_open_pr : Tables → AssignmentRow → Bool
has_open_pr t a = any (own_pr a is_open_pr) t.submissions

abbrev pub is_unrecorded : Tables → AssignmentRow → Bool
is_unrecorded t a = is_active a.status && has_open_pr t a

abbrev number_of : Option SubmissionRow → Option ℕ
number_of none = none
number_of (some s) = some s.pr_number

abbrev pub set_submitted : Tables → AssignmentRow → AssignmentRow
set_submitted t a = record a {
  status = pr_submitted;
  qualifying_pr_number = number_of (first (own_pr a is_open_pr) t.submissions);
}

abbrev pub log_recorded : List AssignmentRow → Tables → Tables
log_recorded [] t = t
log_recorded (a ∷ rows) t =
    log_recorded rows (log "agent" assignment_pr_recorded a.bounty_id none t)

-- SELECT … WHERE
abbrev pub select_where {ℓ} : {A : Type ℓ} → (A → Bool) → List A → List A
select_where p [] = []
select_where p (x ∷ xs) = let rest = select_where p xs in if p x then x ∷ rest else rest

-- Where a holder has several open pull requests on the bounty, the database may record any of them.
unfoldable pub record_submitted_pull_requests : Tables → Tables
record_submitted_pull_requests t =
    log_recorded (select_where (is_unrecorded t) t.assignments)
      (record t { assignments = update_where (is_unrecorded t) (set_submitted t) t.assignments })
