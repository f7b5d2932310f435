-- ===== src/DrawService/Apply.antt =====
-- `openApplications` and `apply` of apps/agent/src/draw-service.ts, and the pool as a maintainer sees it.
-- A maintainer's permission and the age of an account come from GitHub; the texts are left out.
pub mod Gates
pub mod Answers
use grainlify_bounty_agent.Base.{
  ℕ, suc, ◌+◌, ◌*◌, ◌==◌, Bool, true, false, not, ◌||◌, ◌&&◌, Option, none, some, List, [], ◌∷◌,
  ◌++◌, ltb, leb, if◌then◌else◌, Result, ok, err, String, text_eq, includes, truthy, any, first,
  count_by, update_where,
}
use grainlify_bounty_agent.Draw.Run.{Fit, DifficultyMatch}
use grainlify_bounty_agent.Draw.Config.{is_waivable, applicant_bucket, ApplicantBucket}
use grainlify_bounty_agent.DrawService.Tables.{
  Tables, BountyRow, ApplicationRow, ApplicationStatus, AssignmentRow, GateFailure, applied,
  rejected_gate, holding_another_bounty, no_linked_wallet, account_age_unknown, account_too_new,
  org_member, DedupeKey, application_received, enqueue_event, is_posted, is_live, is_rejected,
  bounty_of, holds, set_bounty, has_wallet,
}
use grainlify_bounty_agent.DrawService.Settings.{config, int_setting, bool_setting}

-- The built-in functions, the clock, and GitHub's answers to one request (`none` where it throws).
-- `assess` is what the fit service writes for an application, if it writes anything, and `cut_text` is
-- `trim().slice(0, 2000)`.
pub record Env : Type 0 where
  pub now : ℕ
  pub parse_int : String → Option ℕ
  pub lower : String → String
  pub trim : String → String
  pub cut_text : String → String
  pub user_created_at : String → String → Option ℕ
  pub permission : String → String → Option String
  pub assess : ApplicationRow → Option (Option Fit × Option DifficultyMatch)

abbrev pub hour : ℕ
hour = 3600000

-- COALESCE(column, value)
abbrev or_else : Option ℕ → ℕ → Option ℕ
or_else none n = some n
or_else (some old) n = some old

abbrev open_window : ℕ → ℕ → BountyRow → BountyRow
open_window now hours b = record b {
  applications_open_at = or_else b.applications_open_at now;
  applications_close_at = or_else b.applications_close_at (now + hours * hour);
}

-- It throws where there is no such bounty.
unfoldable pub open_applications : Env → ℕ → Tables → Option Tables
unfolding config
open_applications e bounty t = elim (bounty_of bounty t) [
  | none ↦ none
  | some b ↦ some (
      set_bounty bounty
        (open_window e.now (int_setting e.parse_int (config t) "application_window_hours" 6)) t)
]

pub record ApplyInput : Type 0 where
  pub bounty_id : ℕ
  pub github_user_id : ℕ
  pub github_login : String
  pub application_text : String

pub data ApplyOutcome : Type 0 where
  accepted : ℕ → ApplyOutcome
  refused : GateFailure → ApplyOutcome
  no_such_bounty not_open applications_closed own_bounty assigned already_applied : ApplyOutcome

abbrev pub insiders : List String
insiders = "admin" ∷ "maintain" ∷ "write" ∷ []

abbrev pub is_application : ApplyInput → ApplicationRow → Bool
is_application i a = a.bounty_id == i.bounty_id && a.github_user_id == i.github_user_id

abbrev new_application : ℕ → ApplyInput → ApplicationRow
new_application id i = record {
  id = id;
  bounty_id = i.bounty_id;
  github_user_id = i.github_user_id;
  github_login = i.github_login;
  status = applied;
  gate_failure_reason = none;
  application_text = none;
  fit = none;
  difficulty_match = none;
}

-- INSERT … ON CONFLICT (bounty_id, github_user_id) DO UPDATE: `f` sets the columns of either row.
abbrev upsert : ApplyInput → (ApplicationRow → ApplicationRow) → Tables → Tables
upsert i f t =
    if any (is_application i) t.applications
    then record t { applications = update_where (is_application i) f t.applications }
    else record t {
      applications = t.applications ++ f (new_application (suc t.seq) i) ∷ [];
      seq = suc t.seq;
    }

abbrev set_refused : GateFailure → ApplicationRow → ApplicationRow
set_refused reason a = record a { status = rejected_gate; gate_failure_reason = some reason }

abbrev refuse : ApplyInput → GateFailure → Tables → Tables × ApplyOutcome
refuse i reason t = (upsert i (set_refused reason) t, refused reason)

abbrev set_applied : Option String → ApplicationRow → ApplicationRow
set_applied text a = record a {
  status = applied;
  gate_failure_reason = none;
  application_text = text;
}

abbrev with_fit : Option (Option Fit × Option DifficultyMatch) → ApplicationRow → ApplicationRow
with_fit none a = a
with_fit (some (fit, difficulty)) a = record a { fit = fit; difficulty_match = difficulty }

-- The fit columns of the row that was just written.
abbrev assess_row : Env → ApplyInput → Tables → Tables
assess_row e i t = record t {
  applications = update_where (is_application i) (λ a. with_fit (e.assess a) a) t.applications;
}

abbrev id_of : Option ApplicationRow → ℕ
id_of none = 0
id_of (some a) = a.id

abbrev insert_application : Env → ApplyInput → Tables → Tables × ApplyOutcome
insert_application e i t =
    let t1 = upsert i (set_applied (truthy (some (e.cut_text i.application_text)))) t in
    (
      (enqueue_event i.github_user_id (application_received i.bounty_id i.github_user_id) false
          (assess_row e i t1)).0,
      accepted (id_of (first (is_application i) t1.applications)),
    )

abbrev or_no_access : Option String → String
or_no_access none = "none"
or_no_access (some p) = p

abbrev waives_org_members : BountyRow → Bool
waives_org_members b = any (λ w. is_waivable w && text_eq w "block_org_members") b.waived

abbrev check_member :
    Env → List (String × String) → ApplyInput → BountyRow → Tables → Tables × ApplyOutcome
check_member e cfg i b t =
    if bool_setting cfg "block_org_members" true
      && (not (waives_org_members b)
          && includes insiders (or_no_access (e.permission b.repo i.github_login)))
    then refuse i org_member t
    else insert_application e i t

-- The age in days is a quotient: it is below the minimum when the day count has not passed yet.
abbrev check_created :
    Env
    → List (String × String)
    → ApplyInput
    → BountyRow
    → ℕ
    → Option ℕ
    → Tables
    → Tables × ApplyOutcome
check_created e cfg i b min_age none t = refuse i account_age_unknown t
check_created e cfg i b min_age (some created) t =
    if ltb e.now (created + min_age * (24 * hour))
    then refuse i account_too_new t
    else check_member e cfg i b t

abbrev check_age :
    Env → List (String × String) → ApplyInput → BountyRow → Tables → Tables × ApplyOutcome
check_age e cfg i b t =
    if ltb 0 (int_setting e.parse_int cfg "min_account_age_days" 30)
    then check_created e cfg i b (int_setting e.parse_int cfg "min_account_age_days" 30)
        (e.user_created_at b.repo i.github_login) t
    else check_member e cfg i b t

abbrev check_wallet :
    Env → List (String × String) → ApplyInput → BountyRow → Tables → Tables × ApplyOutcome
check_wallet e cfg i b t =
    if bool_setting cfg "require_linked_wallet_to_apply" true && not (has_wallet t i.github_user_id)
    then refuse i no_linked_wallet t
    else check_age e cfg i b t

abbrev pub holdings : Tables → ℕ → ℕ
holdings t user =
    count_by (λ (a : AssignmentRow). a.github_user_id == user && is_live a.status) t.assignments

abbrev check_holdings :
    Env → List (String × String) → ApplyInput → BountyRow → Tables → Tables × ApplyOutcome
check_holdings e cfg i b t =
    if leb (int_setting e.parse_int cfg "max_active_assignments_per_person" 1)
      (holdings t i.github_user_id)
    then refuse i holding_another_bounty t
    else check_wallet e cfg i b t

abbrev check_gates : Env → ApplyInput → BountyRow → Tables → Tables × ApplyOutcome
check_gates e i b t =
    if any (λ a. is_application i a && not (is_rejected a.status)) t.applications
    then (t, already_applied)
    else check_holdings e (config t) i b t

abbrev check_funder : Env → ApplyInput → BountyRow → Option String → Tables → Tables × ApplyOutcome
check_funder e i b none t = check_gates e i b t
check_funder e i b (some funder) t =
    if text_eq (e.lower funder) (e.lower i.github_login)
    then (t, own_bounty)
    else if any (holds i.bounty_id) t.assignments
    then (t, assigned)
    else check_gates e i b t

abbrev pub is_after : ℕ → Option ℕ → Bool
is_after now none = false
is_after now (some close) = ltb now close

abbrev check_open : Env → ApplyInput → Option BountyRow → Tables → Tables × ApplyOutcome
check_open e i none t = (t, no_such_bounty)
check_open e i (some b) t =
    if not (is_posted b.status)
    then (t, not_open)
    else if not (is_after e.now b.applications_close_at)
    then (t, applications_closed)
    else check_funder e i b (truthy b.funded_by) t

unfoldable pub apply : Env → ApplyInput → Tables → Tables × ApplyOutcome
unfolding config is_waivable enqueue_event
apply e i t = check_open e i (bounty_of i.bounty_id t) t

pub data ManageVerdict : Type 0 where
  may_manage : String → ManageVerdict
  unknown_bounty not_your_bounty : ManageVerdict

abbrev by_permission : Env → String → String → ManageVerdict
by_permission e repo login =
    if includes insiders (or_no_access (e.permission repo login))
    then may_manage repo
    else not_your_bounty

abbrev manage : Env → String → BountyRow → Option String → ManageVerdict
manage e login b none = by_permission e b.repo login
manage e login b (some funder) =
    if text_eq (e.lower funder) (e.lower login)
    then may_manage b.repo
    else by_permission e b.repo login

unfoldable pub can_manage_bounty : Env → ℕ → String → Tables → ManageVerdict
can_manage_bounty e bounty login t = elim (bounty_of bounty t) [
  | none ↦ unknown_bounty
  | some b ↦ manage e login b (truthy b.funded_by)
]

-- The number of applicants itself is never given: the source's second field is always null.
unfoldable pub pool_visibility_for_maintainer : ℕ → String → Option ApplicantBucket
unfolding applicant_bucket
pool_visibility_for_maintainer total visibility =
    if text_eq visibility "hidden" then none else some (applicant_bucket total)
