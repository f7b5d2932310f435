-- ===== src/DrawService/Views.antt =====
-- What apps/agent/src/draw-service.ts tells of a bounty: applicationsFor, applicationsForUser, drawsFor and
-- maintainerView. The times of rows, the evidence and the cost of an assessment are left out.
pub mod Private
use grainlify_bounty_agent.Base.{
  ℕ, ◌==◌, Bool, true, false, not, ◌||◌, ◌&&◌, Option, none, some, List, [], ◌∷◌, ◌++◌, map,
  if◌then◌else◌, String, any, first, count_by,
}
use grainlify_bounty_agent.Draw.Run.{Floats, Fit, DifficultyMatch, Candidate, NoWinnerReason}
use grainlify_bounty_agent.Draw.Config.{ApplicantBucket}
use grainlify_bounty_agent.DrawService.Tables.{
  Tables, BountyRow, BountyStatus, AssignmentRow, AssignmentStatus, ApplicationRow,
  ApplicationStatus, GateFailure, applied, won, lost, rejected_gate, withdrawn, is_rejected,
  bounty_of, holder_of,
}
use grainlify_bounty_agent.DrawService.Settings.{config, setting_of}
use grainlify_bounty_agent.DrawService.Apply.{Env, is_after, pool_visibility_for_maintainer}
use grainlify_bounty_agent.DrawService.Reopen.{select_where}
use grainlify_bounty_agent.DrawService.Draw.{DrawRow, Db}

-- status IN ('applied','won','lost')
abbrev pub is_eligible : ApplicationStatus → Bool
is_eligible applied = true
is_eligible won = true
is_eligible lost = true
is_eligible rejected_gate = false
is_eligible withdrawn = false

pub record Applications : Type 0 where
  pub total : ℕ
  pub eligible : ℕ
  pub refused : ℕ
  pub applications : List ApplicationRow

abbrev count_all : List ApplicationRow → ℕ
count_all rows = count_by (λ a. true) rows

abbrev applications_of : List ApplicationRow → Applications
applications_of rows = record {
  total = count_all rows;
  eligible = count_by (λ (a : ApplicationRow). is_eligible a.status) rows;
  refused = count_by (λ (a : ApplicationRow). is_rejected a.status) rows;
  applications = rows;
}

unfoldable pub applications_for : ℕ → Tables → Applications
applications_for bounty t =
    applications_of (select_where (λ (a : ApplicationRow). a.bounty_id == bounty) t.applications)

pub record OwnApplication : Type 0 where
  pub bounty_id : ℕ
  pub status : ApplicationStatus
  pub gate_failure_reason : Option GateFailure

abbrev own_application : ApplicationRow → OwnApplication
own_application a = record {
  bounty_id = a.bounty_id;
  status = a.status;
  gate_failure_reason = a.gate_failure_reason;
}

-- Keyed by bounty; a person has one row on a bounty.
unfoldable pub applications_for_user : ℕ → Tables → List OwnApplication
applications_for_user user t =
    map own_application
      (select_where (λ (a : ApplicationRow). a.github_user_id == user) t.applications)

pub record HolderView : Type 0 where
  pub github_login : String
  pub status : AssignmentStatus
  pub stale_at : ℕ
  pub pr_number : Option ℕ

abbrev holder_view : Option AssignmentRow → Option HolderView
holder_view none = none
holder_view (some a) = some (record {
  github_login = a.github_login;
  status = a.status;
  stale_at = a.stale_at;
  pr_number = a.qualifying_pr_number;
})

pub record ApplicantView : Type 0 where
  pub github_login : String
  pub status : ApplicationStatus
  pub gate_failure_reason : Option GateFailure
  pub fit : Option Fit

abbrev applicant_view : ApplicationRow → ApplicantView
applicant_view a = record {
  github_login = a.github_login;
  status = a.status;
  gate_failure_reason = a.gate_failure_reason;
  fit = a.fit;
}

abbrev reverse_onto {ℓ} : {A : Type ℓ} → List A → List A → List A
reverse_onto [] ys = ys
reverse_onto (x ∷ xs) ys = reverse_onto xs (x ∷ ys)

abbrev pub or_bucketed : Option String → String
or_bucketed none = "bucketed"
or_bucketed (some v) = v

abbrev pub eligible_count : ℕ → List ApplicationRow → ℕ
eligible_count bounty rows =
    count_by (λ (a : ApplicationRow). a.bounty_id == bounty && is_eligible a.status) rows

module _ (x : Floats) where
  -- ORDER BY created_at DESC
  unfoldable pub draws_for : ℕ → List (DrawRow x) → List (DrawRow x)
  draws_for bounty draws =
      reverse_onto (select_where (λ (d : DrawRow x). d.bounty_id == bounty) draws) []

  pub record DrawView : Type 0 where
    pub winner : Option (Candidate x)
    pub seed : ℕ
    pub pool : List (Candidate x)
    pub no_winner_reason : Option (NoWinnerReason x)

  abbrev draw_view : Option (DrawRow x) → Option (DrawView)
  draw_view none = none
  draw_view (some d) = some (record {
    winner = d.winner;
    seed = d.seed;
    pool = d.pool;
    no_winner_reason = d.no_winner_reason;
  })

  pub record MaintainerView : Type 0 where
    pub bounty_status : BountyStatus
    pub awaiting_redraw : Bool
    pub assignment : Option HolderView
    pub window_open : Bool
    pub applications_close_at : Option ℕ
    pub applicant_bucket : Option ApplicantBucket
    pub applicant_count : Option ℕ
    pub applications : Option (List ApplicantView)
    pub draw : Option (DrawView)

  -- While the window is open.
  abbrev pub open_view : ℕ → BountyRow → Tables → MaintainerView
  open_view bounty b t = record {
    bounty_status = b.status;
    awaiting_redraw = b.awaiting_redraw;
    assignment = holder_view (holder_of bounty t);
    window_open = true;
    applications_close_at = b.applications_close_at;
    applicant_bucket =
        pool_visibility_for_maintainer (eligible_count bounty t.applications)
          (or_bucketed (setting_of (config t) "applicant_count_visibility"));
    applicant_count = none;
    applications = none;
    draw = none;
  }

  abbrev closed_view : ℕ → BountyRow → Db x → MaintainerView
  closed_view bounty b db = record {
    bounty_status = b.status;
    awaiting_redraw = b.awaiting_redraw;
    assignment = holder_view (holder_of bounty db.tables);
    window_open = false;
    applications_close_at = b.applications_close_at;
    applicant_bucket = none;
    applicant_count = some (eligible_count bounty db.tables.applications);
    applications = some (map applicant_view (applications_for bounty db.tables).applications);
    draw = draw_view (first (λ (d : DrawRow x). not d.is_simulation) (draws_for bounty db.draws));
  }

  abbrev view_of : Env → ℕ → Db x → Option BountyRow → Option (MaintainerView)
  view_of e bounty db none = none
  view_of e bounty db (some b) =
      if is_after e.now b.applications_close_at
      then some (open_view bounty b db.tables)
      else some (closed_view bounty b db)

  -- `none` where there is no such bounty.
  unfoldable pub maintainer_view : Env → ℕ → Db x → Option (MaintainerView)
  unfolding applications_for draws_for config pool_visibility_for_maintainer
  maintainer_view e bounty db = view_of e bounty db (bounty_of bounty db.tables)
