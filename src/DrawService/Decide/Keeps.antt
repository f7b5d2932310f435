-- ===== src/DrawService/Decide/Keeps.antt =====
-- The decisions of apps/agent/src/draw-service.ts and the assignments.
use grainlify_bounty_agent.Base.{
  ℕ, refl, true, false, Option, none, some, arith, leb, if_elim, String, text_eq,
}
use grainlify_bounty_agent.DrawService.Tables
use grainlify_bounty_agent.DrawService.Tables.{
  Tables, BountyRow, AssignmentRow, SubmissionRow, DedupeKey, enqueue_event, log, is_live,
  is_active, is_posted, is_in_review, holder_of, bounty_of, set_bounty, set_assignment,
  back_to_pool, assignment_pr_recorded,
}
use grainlify_bounty_agent.DrawService.Decide.{
  Decided, release, release_holder, unassign_by_decision, close_by_decision, tell_round_closed,
  set_assignment_deadline, unassign_holder, close_bounty, tell, release_if, tell_found,
  move_deadline, check_deadline, cancel, has_pr,
}
use grainlify_bounty_agent.DrawService.Kept.{
  Kept, Kept-refl, same, set_assignment-Kept, enqueue_event-Kept,
}

module _ (t : Tables) where
  pub release_holder-Kept :
      (now : ℕ) (reason actor : String) (bounty : ℕ) (a : AssignmentRow) (u : Tables)
      → Kept t u
      → Kept t (release_holder now reason actor bounty a u)
  release_holder-Kept now reason actor bounty a u k =
      let released =
        set_assignment-Kept t a.id (release now reason actor) u
          (record {
            bounty = λ b. refl;
            user = λ b. refl;
            draw = λ b. refl;
            live = λ b hit l. absurd (cc);
          })
          k in
      record { later = released.later; rows = released.rows }

  unassign_holder-Kept :
      (now : ℕ) (reason actor : String) (bounty : ℕ) (held : Option AssignmentRow)
      → Kept t (unassign_holder now reason actor bounty held t).0
  unassign_holder-Kept now reason actor bounty none = Kept-refl t
  unassign_holder-Kept now reason actor bounty (some a) =
      if_elim (λ (y : Tables × Decided). Kept t y.0) (Tables.is_pr_submitted a.status) _ _
        (λ pr. Kept-refl t)
        (λ no_pr.
          let k = release_holder-Kept now reason actor bounty a t (Kept-refl t) in
          enqueue_event-Kept t a.github_user_id (Tables.unassigned a.id) false _
            (record { later = k.later; rows = k.rows }))

  pub unassign_by_decision-Kept :
      (now bounty : ℕ) (actor reason : String)
      → Kept t (unassign_by_decision now bounty actor reason t).0
  unfolding unassign_by_decision
  unassign_by_decision-Kept now bounty actor reason =
      if_elim (λ (y : Tables × Decided). Kept t y.0) (text_eq reason "") _ _ (λ empty. Kept-refl t)
        (λ given. unassign_holder-Kept now reason actor bounty (holder_of bounty t))

  tell-Kept :
      (bounty : ℕ) (held : Option AssignmentRow) (u : Tables)
      → Kept t u
      → Kept t (tell bounty held u).0
  tell-Kept bounty none u k = k
  tell-Kept bounty (some a) u k =
      enqueue_event-Kept t a.github_user_id (Tables.unassigned a.id) true u k

  release_if-Kept :
      (now : ℕ) (reason actor : String) (bounty : ℕ) (held : Option AssignmentRow) (u : Tables)
      → Kept t u
      → Kept t (release_if now reason actor bounty held u)
  release_if-Kept now reason actor bounty none u k = k
  release_if-Kept now reason actor bounty (some a) u k =
      release_holder-Kept now reason actor bounty a u k

  close_bounty-Kept :
      (now : ℕ) (reason actor : String) (bounty : ℕ) (b : Option BountyRow)
      → Kept t (close_bounty now reason actor bounty b t).0
  close_bounty-Kept now reason actor bounty none = Kept-refl t
  close_bounty-Kept now reason actor bounty (some b) =
      if_elim (λ (y : Tables × Decided). Kept t y.0) (is_posted b.status) _ _
        (λ open_now.
          if_elim (λ (y : Tables × Decided). Kept t y.0) (has_pr (holder_of bounty t)) _ _
            (λ pr. Kept-refl t)
            (λ no_pr.
              let k =
                release_if-Kept now reason actor bounty (holder_of bounty t)
                  (set_bounty bounty cancel t) (record { later = omega arith; rows = same }) in
              tell-Kept bounty (holder_of bounty t) _ (record { later = k.later; rows = k.rows })))
        (λ other. Kept-refl t)

  pub close_by_decision-Kept :
      (now bounty : ℕ) (actor reason : String)
      → Kept t (close_by_decision now bounty actor reason t).0
  unfolding close_by_decision
  close_by_decision-Kept now bounty actor reason =
      if_elim (λ (y : Tables × Decided). Kept t y.0) (text_eq reason "") _ _ (λ empty. Kept-refl t)
        (λ given. close_bounty-Kept now reason actor bounty (bounty_of bounty t))

  tell_found-Kept :
      (actor reason : String) (a : Option AssignmentRow) → Kept t (tell_found actor reason a t).0
  tell_found-Kept actor reason none = Kept-refl t
  tell_found-Kept actor reason (some a) =
      if_elim (λ (y : Tables × Decided). Kept t y.0) (is_live a.status) _ _ (λ held. Kept-refl t)
        (λ ended.
          let k =
            enqueue_event-Kept t a.github_user_id (Tables.round_closed a.id) true t (Kept-refl t) in
          record { later = k.later; rows = k.rows })

  pub tell_round_closed-Kept :
      (assignment : ℕ) (actor reason : String)
      → Kept t (tell_round_closed assignment actor reason t).0
  unfolding tell_round_closed
  tell_round_closed-Kept assignment actor reason =
      if_elim (λ (y : Tables × Decided). Kept t y.0) (text_eq reason "") _ _ (λ empty. Kept-refl t)
        (λ given. tell_found-Kept actor reason _)

  move_deadline-Kept :
      (new_at : ℕ) (actor reason : String) (bounty : ℕ) (held : Option AssignmentRow)
      → Kept t (move_deadline new_at actor reason bounty held t).0
  move_deadline-Kept new_at actor reason bounty none = Kept-refl t
  move_deadline-Kept new_at actor reason bounty (some a) =
      let k =
        set_assignment-Kept t a.id (λ b. record b { stale_at = new_at }) t
          (record { bounty = λ b. refl; user = λ b. refl; draw = λ b. refl; live = λ b hit l. l })
          (Kept-refl t) in
      enqueue_event-Kept t a.github_user_id (Tables.deadline_changed a.id new_at) false _
        (record { later = k.later; rows = k.rows })

  check_deadline-Kept :
      (now bounty : ℕ) (new_at : Option ℕ) (actor reason : String)
      → Kept t (check_deadline now bounty actor reason new_at t).0
  check_deadline-Kept now bounty none actor reason = Kept-refl t
  check_deadline-Kept now bounty (some at) actor reason =
      if_elim (λ (y : Tables × Decided). Kept t y.0) (leb at now) _ _ (λ past. Kept-refl t)
        (λ ahead. move_deadline-Kept at actor reason bounty (holder_of bounty t))

  pub set_assignment_deadline-Kept :
      (now bounty : ℕ) (new_at : Option ℕ) (actor reason : String)
      → Kept t (set_assignment_deadline now bounty new_at actor reason t).0
  unfolding set_assignment_deadline
  set_assignment_deadline-Kept now bounty new_at actor reason =
      if_elim (λ (y : Tables × Decided). Kept t y.0) (text_eq reason "") _ _ (λ empty. Kept-refl t)
        (λ given. check_deadline-Kept now bounty new_at actor reason)
