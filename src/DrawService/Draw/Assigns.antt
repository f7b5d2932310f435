-- ===== src/DrawService/Draw/Assigns.antt =====
-- A draw of apps/agent/src/draw-service.ts with somebody in its pool.
use grainlify_bounty_agent.Base.{
  ℕ, zero, suc, ◌≡◌, ◌∙◌, ap, refl, ◌==◌, ◌⊎◌, inl, inr, Bool, true, false, Option, none, some,
  List, [], ◌∷◌, ◌++◌, arith, if_elim, Result, ok, String, truthy, any, first, first-concat_none,
  first-none, All,
}
use grainlify_bounty_agent.Draw.Run.{
  Floats, DrawApplicant, Candidate, DrawResult, candidate_of, run_draw,
}
use grainlify_bounty_agent.Draw.Run.Winner.{run_draw_winner, get_elem?}
use grainlify_bounty_agent.DrawService.Tables.{
  Tables, BountyRow, AssignmentRow, DedupeKey, same_key, enqueue_event, holds, holder_of, bounty_of,
}
use grainlify_bounty_agent.DrawService.Settings.{config, setting_of, bool_setting}
use grainlify_bounty_agent.DrawService.Apply.{Env}
use grainlify_bounty_agent.DrawService.Draw.{
  DrawOptions, Plan, Db, DrawRow, DrawError, DrawOutcome, is_in_pool, draw_row, assignment_row,
  after_assignment, announce_lost, clear_exclusion, assign_winner, outcome_of, unless_simulated,
  write_draw, run_draw_for,
}
use grainlify_bounty_agent.DrawService.Draw.Planned.{is_pooled, IsPeopled, draw_plan-IsPlanned}

enqueue_event-assignments :
    (to : ℕ) (key : DedupeKey) (closed : Bool) (t : Tables)
    → (enqueue_event to key closed t).0.assignments ≡ t.assignments
unfolding enqueue_event
enqueue_event-assignments to key closed t =
    if_elim (λ (y : Tables × Bool). y.0.assignments ≡ t.assignments)
      (any (λ e. same_key e.dedupe_key key) t.events) _ _ (λ old. refl) (λ new. refl)

All-at :
    (pool : ℕ → Bool) (rows : List DrawApplicant) (i : ℕ) (a : DrawApplicant)
    → All (λ (d : DrawApplicant). pool d.github_user_id ≡ true) rows
    → get_elem? rows i ≡ some a
    → pool a.github_user_id ≡ true
All-at pool [] i a h e = absurd (cc)
All-at pool (d ∷ rows) zero a h e = ground (arith, h.0)
All-at pool (d ∷ rows) (suc i) a h e = All-at pool rows i a h.1 e

module _ (x : Floats) where
  announce_lost-assignments :
      (bounty draw winner : ℕ) (pool : List (Candidate x)) (t : Tables)
      → (announce_lost x bounty draw winner pool t).assignments ≡ t.assignments
  announce_lost-assignments bounty draw winner [] t = refl
  announce_lost-assignments bounty draw winner (c ∷ pool) t =
      announce_lost-assignments bounty draw winner pool _
      ∙ if_elim (λ (u : Tables). u.assignments ≡ t.assignments) (c.github_user_id == winner) t _
          (λ won. refl) (λ lost. enqueue_event-assignments _ _ _ t)

  clear_exclusion-assignments :
      (excluded : Option String) (bounty : ℕ) (t : Tables)
      → (clear_exclusion x excluded bounty t).assignments ≡ t.assignments
  clear_exclusion-assignments none bounty t = refl
  clear_exclusion-assignments (some login) bounty t = refl

  after_assignment-assignments :
      (bounty : ℕ) (p : Plan) (draw : ℕ) (pool : List (Candidate x)) (c : Candidate x) (t : Tables)
      → (after_assignment x bounty p draw pool c t).assignments ≡ t.assignments
  after_assignment-assignments bounty p draw pool c t =
      announce_lost-assignments bounty draw c.github_user_id pool _
      ∙ enqueue_event-assignments _ _ _ _
      ∙ clear_exclusion-assignments (truthy p.excluded) bounty t

  -- The bounty is held by somebody of whom the test is true, and the draw says so.
  abbrev pub IsAssigned : (ℕ → Bool) → ℕ → Db x × Result DrawError (DrawOutcome x) → Type 0
  IsAssigned pool bounty y =
      (a : AssignmentRow) × (d : DrawOutcome x) × (holder_of bounty y.0.tables ≡ some a)
      × (pool a.github_user_id ≡ true)
      × (y.1 ≡ ok d)
      × (d.assignment_id ≡ some a.id)

  assign_winner-IsAssigned :
      (e : Env) (o : DrawOptions) (bounty : ℕ) (p : Plan) (draw : ℕ) (rows : List (Candidate x))
      (c : Candidate x) (t : Tables) (draws : List (DrawRow x)) (pool : ℕ → Bool)
      → pool c.github_user_id ≡ true
      → any (holds bounty) t.assignments ≡ false
      → IsAssigned pool bounty (
        record { tables = (assign_winner x e o bounty p draw rows (some c) t).0; draws = draws },
        outcome_of x p draw (some c) (assign_winner x e o bounty p draw rows (some c) t).1,
      )
  assign_winner-IsAssigned e o bounty p draw rows c t draws pool h free =
      let a : AssignmentRow = assignment_row x e o bounty p draw (suc t.seq) c in
      if_elim
        (λ (y : Tables × Result DrawError (Option ℕ)).
          IsAssigned pool bounty
            (record { tables = y.0; draws = draws }, outcome_of x p draw (some c) y.1))
        (any (holds bounty) t.assignments) _ _ (λ taken. absurd (cc))
        (λ empty. (
          a,
          record {
            draw_id = draw;
            winner = some c;
            reserved_for_newcomers = p.reserved;
            reservation_fell_back = p.reservation_fell_back;
            assignment_id = some (suc t.seq);
          },
          ap (first (holds bounty)) (after_assignment-assignments bounty p draw rows c _)
              ∙ first-concat_none (holds bounty) t.assignments a
                  (first-none (holds bounty) t.assignments free) (ground arith),
          h,
          refl,
          refl,
        ))

  write_draw-IsAssigned :
      (e : Env) (o : DrawOptions) (seed bounty : ℕ) (p : Plan) (db : Db x) (pool : ℕ → Bool)
      → IsPeopled pool p
      → o.simulate ≡ false
      → any (holds bounty) db.tables.assignments ≡ false
      → IsAssigned pool bounty (write_draw x e o seed bounty p db)
  unfolding write_draw candidate_of
  write_draw-IsAssigned e o seed bounty p db pool v real free =
      elim ((run_draw_winner x p.applicants (setting_of p.config) seed).1) [
        | inl (empty, lost) ↦ absurd (cc)
        | inr (i, a, below, found, won) ↦
            let id = suc db.tables.seq in
            let r : DrawResult x = run_draw x p.applicants (setting_of p.config) seed in
            let c : Candidate x = candidate_of x (setting_of p.config) a in
            let named : unless_simulated x o.simulate r.winner ≡ some c = rw real won in
            rw named (
              assign_winner-IsAssigned e o bounty p id r.pool c (record db.tables { seq = id })
                (db.draws ++ draw_row x o bounty p seed id r ∷ []) pool
                (All-at pool p.applicants i a v.pooled found) free)
      ]

  -- A draw that is no simulation, of a bounty that nobody holds, with somebody in its pool, and not reserved
  -- for newcomers unless the reservation falls back to the whole pool: it returns, with an assignment, and
  -- the bounty is then held by somebody of the pool, whatever the seed and however the arithmetic rounds.
  pub run_draw_for-assigns :
      (e : Env) (o : DrawOptions) (seed bounty : ℕ) (db : Db x) (b : BountyRow)
      → bounty_of bounty db.tables ≡ some b
      → any (holds bounty) db.tables.assignments ≡ false
      → o.simulate ≡ false
      → (b.reserved_for_newcomers ≡ false)
        ⊎ (bool_setting (config db.tables) "reservation_fallback_to_open_pool" true ≡ true)
      → any
          (is_in_pool e db.tables bounty b.exclude_login_next_draw o.require_wallet)
          db.tables.applications
        ≡ true
      → IsAssigned
          (is_pooled
            (is_in_pool e db.tables bounty b.exclude_login_next_draw o.require_wallet)
            db.tables.applications)
          bounty
          (run_draw_for x e o seed bounty db)
  unfolding run_draw_for
  run_draw_for-assigns e o seed bounty db b found free real fallback some_one =
      let (p, planned, peopled) =
        draw_plan-IsPlanned e o bounty db.tables b found free fallback some_one in
      rw planned (write_draw-IsAssigned e o seed bounty p db _ peopled real free)
