-- ===== src/DrawService/Sweep.antt =====
-- `releaseStaleAssignments` and `closeDueWindows` of apps/agent/src/draw-service.ts: the sweep that runs
-- every minute.
pub mod Sound
pub mod Spares
pub mod Keeps
use grainlify_bounty_agent.Base.{
  ℕ, suc, ◌+◌, ◌*◌, ◌==◌, Bool, true, false, not, ◌||◌, ◌&&◌, Option, none, some, List, [], ◌∷◌,
  ◌++◌, ltb, leb, if◌then◌else◌, Result, ok, err, String, text_eq, any, first, count_by,
  update_where,
}
use grainlify_bounty_agent.Draw.Run.{Floats}
use grainlify_bounty_agent.DrawService.Tables.{
  Tables, BountyRow, AssignmentRow, released_stale, ApplicationRow, SubmissionRow, PrState,
  assignment_expiring, enqueue_event, is_posted, is_active, is_drawable, holds, set_bounty,
  back_to_pool,
}
use grainlify_bounty_agent.DrawService.Settings.{config, int_setting, bool_setting}
use grainlify_bounty_agent.DrawService.Apply.{Env, hour}
use grainlify_bounty_agent.DrawService.Reopen.{
  own_pr, has_open_pr, select_where, record_submitted_pull_requests,
}
use grainlify_bounty_agent.DrawService.Draw.{
  DrawOptions, DrawError, DrawOutcome, DrawRow, Db, run_draw_for,
}

abbrev is_funded : BountyRow → Bool
is_funded b = elim b.funded_by [ none ↦ false | some login ↦ true ]

abbrev is_unfunded_bounty : ℕ → BountyRow → Bool
is_unfunded_bounty id b = b.id == id && not (is_funded b)

abbrev pub is_funded_bounty : ℕ → BountyRow → Bool
is_funded_bounty id b = b.id == id && is_funded b

abbrev pub any_state : PrState → Bool
any_state s = true

-- The warning: the deadline is ahead, and not further than the hours of the setting.
abbrev is_expiring : Tables → ℕ → ℕ → AssignmentRow → Bool
is_expiring t now hours a =
    is_active a.status
    && (any (is_unfunded_bounty a.bounty_id) t.bounties
        && (ltb now a.stale_at && (leb a.stale_at (now + hours * hour) && not (has_open_pr t a))))

abbrev warn : List AssignmentRow → Tables → Tables × List ℕ
warn [] t = (t, [])
warn (a ∷ rows) t =
    let (t1, fresh) = enqueue_event a.github_user_id (assignment_expiring a.id) false t in
    let (t2, warned) = warn rows t1 in (t2, if fresh then a.bounty_id ∷ warned else warned)

-- Past the deadline, not funded, and with no open pull request of the holder.
abbrev pub is_stale : Tables → ℕ → AssignmentRow → Bool
is_stale t now a =
    is_active a.status
    && (leb a.stale_at now
        && (not (any (is_funded_bounty a.bounty_id) t.bounties) && not (has_open_pr t a)))

abbrev stale_reason : Bool → String
stale_reason true = "deadline passed after their pull request was closed unmerged"
stale_reason false = "no pull request before the deadline"

abbrev pub release_stale : Tables → ℕ → AssignmentRow → AssignmentRow
release_stale t now a = record a {
  status = released_stale;
  released_at = some now;
  release_reason = some (stale_reason (any (own_pr a any_state) t.submissions));
  counts_as_abandon = not (any (own_pr a any_state) t.submissions);
}

abbrev return_all : List AssignmentRow → Tables → Tables
return_all [] t = t
return_all (a ∷ rows) t = return_all rows (back_to_pool a.bounty_id a.github_login t)

pub record Released : Type 0 where
  pub released : List AssignmentRow
  pub warned : List ℕ

abbrev release_due : ℕ → Tables × List ℕ → Tables × Released
release_due now (t, warned) = (
  return_all (select_where (is_stale t now) t.assignments) (record t {
    assignments = update_where (is_stale t now) (release_stale t now) t.assignments;
  }),
  record { released = select_where (is_stale t now) t.assignments; warned = warned },
)

abbrev expiring_rows : Env → Tables → List AssignmentRow
expiring_rows e t =
    select_where
      (is_expiring t e.now
        (int_setting e.parse_int (config t) "assignment_expiry_warning_hours" 24))
      t.assignments

abbrev warn_due : Env → Tables → Tables × List ℕ
warn_due e t = warn (expiring_rows e t) t

-- The rows that are returned are those of before the update.
unfoldable pub release_stale_assignments : Env → Tables → Tables × Released
unfolding record_submitted_pull_requests enqueue_event config
release_stale_assignments e t = release_due e.now (warn_due e (record_submitted_pull_requests t))

pub record SweepOutcome : Type 0 where
  pub drawn : List ℕ
  pub extended : List ℕ
  pub skipped : List ℕ
  pub released : List ℕ

-- A window that has closed: posted, drawn by the sweep, and held by nobody.
abbrev pub is_due : Tables → ℕ → BountyRow → Bool
is_due t now b =
    is_posted b.status
    && (not b.awaiting_redraw
        && (not (is_funded b)
            && (elim b.applications_close_at [ none ↦ false | some close ↦ leb close now ]
                && not (any (holds b.id) t.assignments))))

abbrev in_pool : ℕ → ApplicationRow → Bool
in_pool bounty a = a.bounty_id == bounty && is_drawable a.status

abbrev extend : ℕ → ℕ → BountyRow → BountyRow
extend now hours b = record b {
  applications_close_at = some (now + hours * hour);
  window_extensions = b.window_extensions + 1;
}

abbrev automatic : DrawOptions
automatic = record {
  triggered_by = "automatic";
  simulate = false;
  stale_hours = none;
  stale_at = none;
  require_wallet = false;
}

abbrev drew : ℕ → SweepOutcome → SweepOutcome
drew id s = record s { drawn = s.drawn ++ id ∷ [] }

abbrev did_extend : ℕ → SweepOutcome → SweepOutcome
did_extend id s = record s { extended = s.extended ++ id ∷ [] }

abbrev skip : ℕ → SweepOutcome → SweepOutcome
skip id s = record s { skipped = s.skipped ++ id ∷ [] }

abbrev is_refusal : DrawError → Bool
is_refusal DrawError.unique_violation = false
is_refusal DrawError.no_such_bounty = true
is_refusal DrawError.already_assigned = true
is_refusal DrawError.no_newcomers = true

module _ (x : Floats) where
  -- What a sweep has done so far; `stopped` is true where a query has thrown.
  pub record SweepState : Type 0 where
    pub db : Db x
    pub outcome : SweepOutcome
    pub stopped : Bool

  abbrev note_draw : Env → ℕ → SweepOutcome → Db x × Result DrawError (DrawOutcome x) → SweepState
  note_draw e id s (db, ok drawn) = record {
    db = record db {
      tables = set_bounty id (λ b. record b { auto_draw_ran_at = some e.now }) db.tables;
    };
    outcome = drew id s;
    stopped = false;
  }
  note_draw e id s (db, err refusal) = record {
    db = db;
    outcome = if is_refusal refusal then skip id s else s;
    stopped = not (is_refusal refusal);
  }

  -- One row of the query, as it was read: its extensions are those of before the loop.
  abbrev pub close_window :
      Env → (ℕ → ℕ) → List (String × String) → BountyRow → SweepState → SweepState
  close_window e seed cfg b s =
      if count_by (in_pool b.id) s.db.tables.applications == 0
      then (if leb (int_setting e.parse_int cfg "max_window_extensions" 3) b.window_extensions
            || leb (int_setting e.parse_int cfg "empty_window_extension_hours" 6) 0
          then record s { outcome = skip b.id s.outcome }
          else record s {
            db = record s.db {
              tables =
                  set_bounty b.id
                    (extend e.now (int_setting e.parse_int cfg "empty_window_extension_hours" 6))
                    s.db.tables;
            };
            outcome = did_extend b.id s.outcome;
          })
      else note_draw e b.id s.outcome (run_draw_for x e automatic (seed b.id) b.id s.db)

  close_windows : Env → (ℕ → ℕ) → List (String × String) → List BountyRow → SweepState → SweepState
  close_windows e seed cfg [] s = s
  close_windows e seed cfg (b ∷ due) s =
      let rest = close_windows e seed cfg due (close_window e seed cfg b s) in
      if s.stopped then s else rest

  abbrev released_ids : List AssignmentRow → List ℕ
  released_ids [] = []
  released_ids (a ∷ rows) = a.bounty_id ∷ released_ids rows

  abbrev start : List AssignmentRow → List (DrawRow x) → Tables → SweepState
  start released draws t = record {
    db = record { tables = t; draws = draws };
    outcome = record { drawn = []; extended = []; skipped = []; released = released_ids released };
    stopped = false;
  }

  abbrev sweep :
      Env → (ℕ → ℕ) → List (String × String) → List (DrawRow x) → Tables × Released → SweepState
  sweep e seed cfg draws (t, r) =
      if not (bool_setting cfg "auto_draw_enabled" true)
      then start r.released draws t
      else close_windows e seed cfg (select_where (is_due t e.now) t.bounties)
          (start r.released draws t)

  -- `seed` gives the seed of each bounty's draw.
  unfoldable pub close_due_windows : Env → (ℕ → ℕ) → Db x → SweepState
  unfolding close_windows release_stale_assignments run_draw_for config
  close_due_windows e seed db =
      sweep e seed (config db.tables) db.draws (release_stale_assignments e db.tables)
