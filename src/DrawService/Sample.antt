-- ===== src/DrawService/Sample.antt =====
-- Concrete tables for the examples: one bounty, one application, and one assignment.
use grainlify_bounty_agent.Base.{false, none, some, [], ◌∷◌}
use grainlify_bounty_agent.DrawService.Tables
use grainlify_bounty_agent.DrawService.Tables.{
  Tables, BountyRow, BountyStatus, AssignmentRow, ApplicationRow, SubmissionRow, bounty_of,
}
use grainlify_bounty_agent.DrawService.Apply.{Env}
use grainlify_bounty_agent.DrawService.Draw.{DrawOptions}

abbrev pub env : Env
env = record {
  now = 100000000;
  parse_int = λ s. none;
  lower = λ s. s;
  trim = λ s. s;
  cut_text = λ s. s;
  user_created_at = λ repo login. some 0;
  permission = λ repo login. none;
  assess = λ a. none;
}

abbrev pub bounty : BountyRow
bounty = record {
  id = 1;
  status = Tables.posted;
  repo = "grainlify/agent";
  issue_number = 35;
  funded_by = none;
  funded_by_github_user_id = none;
  is_test = false;
  applications_open_at = some 0;
  applications_close_at = some 90000000;
  window_extensions = 0;
  waived = [];
  reserved_for_newcomers = false;
  awaiting_redraw = false;
  exclude_login_next_draw = none;
  auto_draw_ran_at = none;
}

abbrev pub application : ApplicationRow
application = record {
  id = 2;
  bounty_id = 1;
  github_user_id = 7;
  github_login = "ada";
  status = Tables.applied;
  gate_failure_reason = none;
  application_text = none;
  fit = none;
  difficulty_match = none;
}

abbrev pub on_offer : Tables
on_offer = record {
  bounties = bounty ∷ [];
  assignments = [];
  applications = application ∷ [];
  submissions = [];
  wallets = [];
  settings = [];
  events = [];
  audit = [];
  deadline_changes = [];
  seq = 2;
}

abbrev pub by_hand : DrawOptions
by_hand = record {
  triggered_by = "maintainer";
  simulate = false;
  stale_hours = some 72;
  stale_at = none;
  require_wallet = false;
}

abbrev pub held : AssignmentRow
held = record {
  id = 3;
  bounty_id = 1;
  draw_id = some 4;
  github_user_id = 7;
  github_login = "ada";
  status = Tables.active;
  assigned_at = 0;
  stale_at = 95000000;
  qualifying_pr_number = none;
  released_at = none;
  release_reason = none;
  released_by = none;
  counts_as_abandon = false;
  unassigned_on_chain_directly = false;
}

abbrev pub assigned : Tables
assigned = record on_offer { assignments = held ∷ []; seq = 4 }

abbrev pub closed_pr : SubmissionRow
closed_pr = record {
  bounty_id = 1;
  pr_number = 37;
  author_github_user_id = 7;
  author_login = "ada";
  state = Tables.closed_pr;
  head_sha = "abc";
  updated_at = 50;
}

abbrev pub in_review : Tables
in_review = record assigned {
  bounties = record bounty { status = Tables.in_review } ∷ [];
  assignments = record held { status = Tables.pr_submitted } ∷ [];
  submissions = closed_pr ∷ [];
}
