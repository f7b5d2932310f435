-- ===== src/DrawService/Reopen/Keeps.antt =====
-- The reopening of bounties in apps/agent/src/draw-service.ts and the assignments.
use grainlify_bounty_agent.Base.{
  ℕ, refl, Bool, not, Option, none, some, List, [], ◌∷◌, arith, if_elim, any, update_where, String,
}
use grainlify_bounty_agent.DrawService.Tables.{
  Tables, BountyRow, AssignmentRow, SubmissionRow, log, is_in_review, bounty_of,
  assignment_pr_recorded,
}
use grainlify_bounty_agent.DrawService.Reopen.{
  ReopenOutcome, Pull, reopen_after_unmerged_close, reopen_after_closed_pull_request,
  record_submitted_pull_requests, is_submitted_on, make_active, select_where, reopen_bounty,
  reopen_closed, refresh, repair, close_submission, log_recorded, is_unrecorded, set_submitted,
  latest, submitted_to, is_open_pr, is_merged_pr, is_closed_pr, open_numbers,
}
use grainlify_bounty_agent.DrawService.Kept.{Kept, Kept-refl, same, updated}

module _ (t : Tables) where
  reopen_closed-Kept :
      (actor : String) (hold : Bool) (bounty : ℕ) (s : Option SubmissionRow) (u : Tables)
      → Kept t u
      → Kept t (reopen_closed actor hold bounty s u).0
  reopen_closed-Kept actor hold bounty none u k = k
  reopen_closed-Kept actor hold bounty (some s) u k = record {
    later = k.later;
    rows =
        updated (is_submitted_on bounty) make_active
          (record {
            bounty = λ a. refl;
            user = λ a. refl;
            draw = λ a. refl;
            live = λ a hit l. ground arith;
          })
          k.rows;
  }

  reopen_bounty-Kept :
      (actor : String) (hold : Bool) (bounty : ℕ) (b : Option BountyRow) (u : Tables)
      → Kept t u
      → Kept t (reopen_bounty actor hold bounty b u).0
  reopen_bounty-Kept actor hold bounty none u k = k
  reopen_bounty-Kept actor hold bounty (some b) u k =
      if_elim P (not (is_in_review b.status)) _ _ (λ h. k)
        (λ h.
          if_elim P (any (submitted_to bounty is_open_pr) u.submissions) _ _ (λ h. k)
            (λ h.
              if_elim P (any (submitted_to bounty is_merged_pr) u.submissions) _ _ (λ h. k)
                (λ h.
                  reopen_closed-Kept actor hold bounty
                    (latest (submitted_to bounty is_closed_pr) u.submissions) u k)))
    where
      P : Tables × ReopenOutcome → Type 0
      P y = Kept t y.0

  pub reopen_after_unmerged_close-Kept :
      (actor : String) (hold : Bool) (bounty : ℕ) (u : Tables)
      → Kept t u
      → Kept t (reopen_after_unmerged_close actor hold bounty u).0
  unfolding reopen_after_unmerged_close
  reopen_after_unmerged_close-Kept actor hold bounty u =
      reopen_bounty-Kept actor hold bounty (bounty_of bounty u) u

  refresh-Kept :
      (get_pull : ℕ → Pull) (now : ℕ) (actor : String) (hold : Bool) (bounty : ℕ) (numbers : List ℕ)
      (u : Tables)
      → Kept t u
      → Kept t (refresh get_pull now actor hold bounty numbers u).0
  unfolding refresh
  refresh-Kept get_pull now actor hold bounty [] u k =
      reopen_after_unmerged_close-Kept actor hold bounty u k
  refresh-Kept get_pull now actor hold bounty (n ∷ numbers) u k =
      if_elim (λ (y : Tables × ReopenOutcome). Kept t y.0) (get_pull n).merged _ _ (λ h. k)
        (λ h.
          if_elim (λ (y : Tables × ReopenOutcome). Kept t y.0) (get_pull n).is_open _ _ (λ h. k)
            (λ h.
              refresh-Kept get_pull now actor hold bounty numbers
                (close_submission now bounty n (get_pull n).head_sha u)
                (record { later = k.later; rows = k.rows })))

  repair-Kept :
      (get_pull : ℕ → Pull) (now : ℕ) (actor : String) (hold : Bool) (bounty : ℕ)
      (b : Option BountyRow)
      → Kept t (repair get_pull now actor hold bounty b t).0
  repair-Kept get_pull now actor hold bounty none = Kept-refl t
  repair-Kept get_pull now actor hold bounty (some b) =
      if_elim (λ (y : Tables × ReopenOutcome). Kept t y.0) (not (is_in_review b.status)) _ _
        (λ h. Kept-refl t)
        (λ h.
          refresh-Kept get_pull now actor hold bounty (open_numbers bounty t.submissions) t
            (Kept-refl t))

  pub reopen_after_closed_pull_request-Kept :
      (get_pull : ℕ → Pull) (now : ℕ) (actor : String) (hold : Bool) (bounty : ℕ)
      → Kept t (reopen_after_closed_pull_request get_pull now actor hold bounty t).0
  unfolding reopen_after_closed_pull_request
  reopen_after_closed_pull_request-Kept get_pull now actor hold bounty =
      repair-Kept get_pull now actor hold bounty (bounty_of bounty t)

  log_recorded-Kept :
      (rows : List AssignmentRow) (u : Tables) → Kept t u → Kept t (log_recorded rows u)
  log_recorded-Kept [] u k = k
  log_recorded-Kept (a ∷ rows) u k =
      log_recorded-Kept rows (log "agent" assignment_pr_recorded a.bounty_id none u)
        (record { later = k.later; rows = k.rows })

  pub record_submitted_pull_requests-Kept : Kept t (record_submitted_pull_requests t)
  unfolding record_submitted_pull_requests
  record_submitted_pull_requests-Kept =
      log_recorded-Kept (select_where (is_unrecorded t) t.assignments)
        (record t { assignments = update_where (is_unrecorded t) (set_submitted t) t.assignments })
        (record {
          later = omega arith;
          rows =
              updated (is_unrecorded t) (set_submitted t)
                (record {
                  bounty = λ a. refl;
                  user = λ a. refl;
                  draw = λ a. refl;
                  live = λ a hit l. ground arith;
                })
                same;
        })
