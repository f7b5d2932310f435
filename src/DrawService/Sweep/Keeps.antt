-- ===== src/DrawService/Sweep/Keeps.antt =====
-- The stale release of apps/agent/src/draw-service.ts and the assignments.
use grainlify_bounty_agent.Base.{ℕ, refl, false, List, [], ◌∷◌}
use grainlify_bounty_agent.DrawService.Tables.{
  Tables, AssignmentRow, enqueue_event, assignment_expiring, back_to_pool,
}
use grainlify_bounty_agent.DrawService.Apply.{Env}
use grainlify_bounty_agent.DrawService.Reopen.{select_where, record_submitted_pull_requests}
use grainlify_bounty_agent.DrawService.Reopen.Keeps.{record_submitted_pull_requests-Kept}
use grainlify_bounty_agent.DrawService.Sweep.{
  warn, warn_due, expiring_rows, return_all, is_stale, release_stale, release_due,
  release_stale_assignments,
}
use grainlify_bounty_agent.DrawService.Kept.{Kept, updated, enqueue_event-Kept}

module _ (t : Tables) where
  warn-Kept : (rows : List AssignmentRow) (u : Tables) → Kept t u → Kept t (warn rows u).0
  warn-Kept [] u k = k
  warn-Kept (a ∷ rows) u k =
      warn-Kept rows (enqueue_event a.github_user_id (assignment_expiring a.id) false u).0
        (enqueue_event-Kept t a.github_user_id (assignment_expiring a.id) false u k)

  return_all-Kept : (rows : List AssignmentRow) (u : Tables) → Kept t u → Kept t (return_all rows u)
  return_all-Kept [] u k = k
  return_all-Kept (a ∷ rows) u k =
      return_all-Kept rows (back_to_pool a.bounty_id a.github_login u)
        (record { later = k.later; rows = k.rows })

  release_due-Kept : (now : ℕ) (u : Tables × List ℕ) → Kept t u.0 → Kept t (release_due now u).0
  release_due-Kept now (u, warned) k =
      return_all-Kept (select_where (is_stale u now) u.assignments) _ (record {
        later = k.later;
        rows =
            updated (is_stale u now) (release_stale u now)
              (record {
                bounty = λ a. refl;
                user = λ a. refl;
                draw = λ a. refl;
                live = λ a hit l. absurd (cc);
              })
              k.rows;
      })

  pub release_stale_assignments-Kept : (e : Env) → Kept t (release_stale_assignments e t).0
  unfolding release_stale_assignments
  release_stale_assignments-Kept e =
      release_due-Kept e.now (warn_due e (record_submitted_pull_requests t)) (
        warn-Kept (expiring_rows e (record_submitted_pull_requests t))
          (record_submitted_pull_requests t) (record_submitted_pull_requests-Kept t))
