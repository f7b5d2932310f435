-- ===== src/DrawService/Draw.antt =====
-- `runDrawFor` of apps/agent/src/draw-service.ts, in two parts: what it reads, up to the seed, and what it
-- writes. Another request may come between them. The share of a candidate, the quotient of its tickets
-- and their total, is left out of the stored pool.
pub mod Replay
pub mod Unchecked
pub mod Planned
pub mod Assigns
use grainlify_bounty_agent.Base.{
  ℕ, suc, ◌+◌, ◌*◌, ◌==◌, Bool, true, false, not, ◌||◌, ◌&&◌, Option, none, some, List, [], ◌∷◌,
  ◌++◌, map, if◌then◌else◌, Result, ok, err, String, text_eq, truthy, any, first, count_by,
  update_where,
}
use grainlify_bounty_agent.Draw.Run
use grainlify_bounty_agent.Draw.Run.{
  Floats, DrawApplicant, Candidate, DrawResult, NoWinnerReason, run_draw,
}
use grainlify_bounty_agent.DrawService.Tables.{
  Tables, BountyRow, AssignmentRow, AssignmentStatus, active, completed, released_stale,
  ApplicationRow, won, lost, draw_won, draw_lost, enqueue_event, is_live, is_drawable, bounty_of,
  holds, set_bounty, has_wallet,
}
use grainlify_bounty_agent.DrawService.Settings.{config, setting_of, int_setting, bool_setting}
use grainlify_bounty_agent.DrawService.Apply.{Env, hour}
use grainlify_bounty_agent.DrawService.Reopen.{select_where}

pub record History : Type 0 where
  pub completions : ℕ
  pub prior_assignments : ℕ
  pub abandons : ℕ

abbrev is_completed : AssignmentStatus → Bool
is_completed completed = true
is_completed _ = false

abbrev is_released_stale : AssignmentStatus → Bool
is_released_stale released_stale = true
is_released_stale _ = false

abbrev pub is_completion : ℕ → AssignmentRow → Bool
is_completion user a = a.github_user_id == user && is_completed a.status

abbrev pub is_of : ℕ → AssignmentRow → Bool
is_of user a = a.github_user_id == user

abbrev pub is_abandon : ℕ → AssignmentRow → Bool
is_abandon user a = a.github_user_id == user && (is_released_stale a.status && a.counts_as_abandon)

-- One user's row of `historyFor`.
unfoldable pub history_for : Tables → ℕ → History
history_for t user = record {
  completions = count_by (is_completion user) t.assignments;
  prior_assignments = count_by (is_of user) t.assignments;
  abandons = count_by (is_abandon user) t.assignments;
}

pub record DrawOptions : Type 0 where
  pub triggered_by : String
  pub simulate : Bool
  pub stale_hours : Option ℕ
  pub stale_at : Option ℕ
  pub require_wallet : Bool

pub data DrawError : Type 0 where
  no_such_bounty already_assigned no_newcomers unique_violation : DrawError

-- What the reads establish.
pub record Plan : Type 0 where
  pub applicants : List DrawApplicant
  pub config : List (String × String)
  pub excluded : Option String
  pub reserved : Bool
  pub reservation_fell_back : Bool

abbrev pub is_kept_out : Env → Option String → String → Bool
is_kept_out e none login = false
is_kept_out e (some excluded) login = text_eq (e.lower login) (e.lower excluded)

abbrev pub is_in_pool : Env → Tables → ℕ → Option String → Bool → ApplicationRow → Bool
is_in_pool e t bounty excluded require_wallet a =
    a.bounty_id == bounty
    && (is_drawable a.status
        && (not (is_kept_out e excluded a.github_login)
            && (not require_wallet || has_wallet t a.github_user_id)))

abbrev applicant_of : Tables → ApplicationRow → DrawApplicant
applicant_of t a = record {
  github_user_id = a.github_user_id;
  github_login = a.github_login;
  fit = a.fit;
  difficulty_match = a.difficulty_match;
  completions = (history_for t a.github_user_id).completions;
  prior_assignments = (history_for t a.github_user_id).prior_assignments;
  abandons = (history_for t a.github_user_id).abandons;
}

abbrev is_newcomer : Tables → ApplicationRow → Bool
is_newcomer t a = (history_for t a.github_user_id).completions == 0

abbrev plan_of :
    Tables → List (String × String) → Option String → Bool → Bool → List ApplicationRow → Plan
plan_of t cfg excluded reserved fell_back rows = record {
  applicants = map (applicant_of t) rows;
  config = cfg;
  excluded = excluded;
  reserved = reserved;
  reservation_fell_back = fell_back;
}

abbrev plan_newcomers :
    Tables
    → List (String × String)
    → Option String
    → List ApplicationRow
    → List ApplicationRow
    → Result DrawError Plan
plan_newcomers t cfg excluded rows (a ∷ newcomers) =
    ok (plan_of t cfg excluded true false (a ∷ newcomers))
plan_newcomers t cfg excluded rows [] =
    if bool_setting cfg "reservation_fallback_to_open_pool" true
    then ok (plan_of t cfg excluded true true rows)
    else err no_newcomers

abbrev plan_pool :
    Tables
    → List (String × String)
    → Option String
    → Bool
    → List ApplicationRow
    → Result DrawError Plan
plan_pool t cfg excluded false rows = ok (plan_of t cfg excluded false false rows)
plan_pool t cfg excluded true rows =
    plan_newcomers t cfg excluded rows (select_where (is_newcomer t) rows)

abbrev plan_bounty : Env → DrawOptions → ℕ → Tables → Option BountyRow → Result DrawError Plan
plan_bounty e o bounty t none = err no_such_bounty
plan_bounty e o bounty t (some b) =
    if not o.simulate && any (holds bounty) t.assignments
    then err already_assigned
    else plan_pool t (config t) b.exclude_login_next_draw b.reserved_for_newcomers (
        select_where (is_in_pool e t bounty b.exclude_login_next_draw o.require_wallet)
          t.applications)

-- Everything that is read.
unfoldable pub draw_plan : Env → DrawOptions → ℕ → Tables → Result DrawError Plan
unfolding config history_for
draw_plan e o bounty t = plan_bounty e o bounty t (bounty_of bounty t)

module _ (x : Floats) where
  pub record DrawRow : Type 0 where
    pub id : ℕ
    pub bounty_id : ℕ
    pub seed : ℕ
    pub pool : List (Candidate x)
    pub winner : Option (Candidate x)
    pub first_come_fallback : Bool
    pub no_winner_reason : Option (NoWinnerReason x)
    pub is_simulation : Bool
    pub config_snapshot : List (String × String)
    pub triggered_by : String

  -- The tables with those of the draws.
  pub record Db : Type 0 where
    pub tables : Tables
    pub draws : List (DrawRow)

  pub record DrawOutcome : Type 0 where
    pub draw_id : ℕ
    pub winner : Option (Candidate x)
    pub reserved_for_newcomers : Bool
    pub reservation_fell_back : Bool
    pub assignment_id : Option ℕ

  abbrev unless_simulated : Bool → Option (Candidate x) → Option (Candidate x)
  unless_simulated true winner = none
  unless_simulated false winner = winner

  abbrev pub draw_row : DrawOptions → ℕ → Plan → ℕ → ℕ → DrawResult x → DrawRow
  draw_row o bounty p seed id r = record {
    id = id;
    bounty_id = bounty;
    seed = seed;
    pool = r.pool;
    winner = unless_simulated o.simulate r.winner;
    first_come_fallback = r.first_come_fallback;
    no_winner_reason = r.no_winner_reason;
    is_simulation = o.simulate;
    config_snapshot = p.config;
    triggered_by = o.triggered_by;
  }

  abbrev deadline : Env → DrawOptions → Plan → Option ℕ → Option ℕ → ℕ
  deadline e o p (some at) hours = at
  deadline e o p none (some hours) = e.now + hours * hour
  deadline e o p none none =
      e.now + int_setting e.parse_int p.config "assignment_stale_hours" 72 * hour

  abbrev pub assignment_row : Env → DrawOptions → ℕ → Plan → ℕ → ℕ → Candidate x → AssignmentRow
  assignment_row e o bounty p draw id c = record {
    id = id;
    bounty_id = bounty;
    draw_id = some draw;
    github_user_id = c.github_user_id;
    github_login = c.github_login;
    status = active;
    assigned_at = e.now;
    stale_at = deadline e o p o.stale_at o.stale_hours;
    qualifying_pr_number = none;
    released_at = none;
    release_reason = none;
    released_by = none;
    counts_as_abandon = false;
    unassigned_on_chain_directly = false;
  }

  abbrev clear_exclusion : Option String → ℕ → Tables → Tables
  clear_exclusion none bounty t = t
  clear_exclusion (some login) bounty t =
      set_bounty bounty (λ b. record b { exclude_login_next_draw = none }) t

  abbrev win_or_lose : ℕ → ApplicationRow → ApplicationRow
  win_or_lose winner a = record a { status = if a.github_user_id == winner then won else lost }

  abbrev announce_lost : ℕ → ℕ → ℕ → List (Candidate x) → Tables → Tables
  announce_lost bounty draw winner [] t = t
  announce_lost bounty draw winner (c ∷ pool) t = announce_lost bounty draw winner pool (
      if c.github_user_id == winner
      then t
      else (enqueue_event c.github_user_id (draw_lost bounty draw c.github_user_id) false t).0)

  -- What follows the INSERT of the assignment.
  abbrev pub after_assignment : ℕ → Plan → ℕ → List (Candidate x) → Candidate x → Tables → Tables
  after_assignment bounty p draw pool c t =
      let t1 = clear_exclusion (truthy p.excluded) bounty t in
      let t2 = set_bounty bounty (λ b. record b { awaiting_redraw = false }) t1 in
      let t3 = record t2 {
        applications =
            update_where (λ (a : ApplicationRow). a.bounty_id == bounty && is_drawable a.status)
              (win_or_lose c.github_user_id) t2.applications;
      } in
      announce_lost bounty draw c.github_user_id pool
        (enqueue_event c.github_user_id (draw_won bounty draw) false t3).0

  -- The partial unique index: one live assignment of a bounty. The draw's row stays where it throws.
  abbrev assign_winner :
      Env
      → DrawOptions
      → ℕ
      → Plan
      → ℕ
      → List (Candidate x)
      → Option (Candidate x)
      → Tables
      → Tables × Result DrawError (Option ℕ)
  assign_winner e o bounty p draw pool none t = (t, ok none)
  assign_winner e o bounty p draw pool (some c) t =
      if any (holds bounty) t.assignments then (t, err unique_violation) else (
        after_assignment bounty p draw pool c (record t {
          assignments = t.assignments ++ assignment_row e o bounty p draw (suc t.seq) c ∷ [];
          seq = suc t.seq;
        }),
        ok (some (suc t.seq)),
      )

  abbrev outcome_of :
      Plan → ℕ → Option (Candidate x) → Result DrawError (Option ℕ) → Result DrawError DrawOutcome
  outcome_of p draw winner (err thrown) = err thrown
  outcome_of p draw winner (ok assignment) = ok (record {
    draw_id = draw;
    winner = winner;
    reserved_for_newcomers = p.reserved;
    reservation_fell_back = p.reservation_fell_back;
    assignment_id = assignment;
  })

  -- Everything that is written, with the seed from the operating system.
  unfoldable pub write_draw :
      Env → DrawOptions → ℕ → ℕ → Plan → Db → Db × Result DrawError DrawOutcome
  unfolding enqueue_event
  write_draw e o seed bounty p db =
      let r = run_draw x p.applicants (setting_of p.config) seed in
      let id = suc db.tables.seq in
      let (t, assigned) =
        assign_winner e o bounty p id r.pool (unless_simulated o.simulate r.winner)
          (record db.tables { seq = id }) in
      (
        record { tables = t; draws = db.draws ++ draw_row o bounty p seed id r ∷ [] },
        outcome_of p id (unless_simulated o.simulate r.winner) assigned,
      )

  abbrev pub write_planned :
      Env → DrawOptions → ℕ → ℕ → Db → Result DrawError Plan → Db × Result DrawError DrawOutcome
  write_planned e o seed bounty db (err refusal) = (db, err refusal)
  write_planned e o seed bounty db (ok p) = write_draw e o seed bounty p db

  -- The whole method, with no other request in between.
  unfoldable pub run_draw_for : Env → DrawOptions → ℕ → ℕ → Db → Db × Result DrawError DrawOutcome
  unfolding write_draw draw_plan
  run_draw_for e o seed bounty db =
      write_planned e o seed bounty db (draw_plan e o bounty db.tables)
