-- ===== src/DrawService/Draw/Unchecked.antt =====
-- What `runDrawFor` of apps/agent/src/draw-service.ts does not ask of a bounty.
use grainlify_bounty_agent.Base.{
  ℕ, ◌≡◌, ◌∙◌, ap, refl, ◌==◌, Option, none, some, List, [], ◌∷◌, arith, first, update_where,
}
use grainlify_bounty_agent.DrawService.Tables.{
  Tables, BountyRow, BountyStatus, bounty_of, set_bounty,
}
use grainlify_bounty_agent.DrawService.Settings.{overrides, config}
use grainlify_bounty_agent.DrawService.Apply.{Env}
use grainlify_bounty_agent.DrawService.Draw.{DrawOptions, history_for, plan_bounty, draw_plan}

abbrev pub moved : BountyStatus → Option ℕ → BountyRow → BountyRow
moved status close b = record b { status = status; applications_close_at = close }

module _ (status : BountyStatus) (close : Option ℕ) where
  moved_row : Option BountyRow → Option BountyRow
  moved_row none = none
  moved_row (some b) = some (moved status close b)

  first-moved :
      (id : ℕ) (rows : List BountyRow)
      → first
          (λ (b : BountyRow). b.id == id)
          (update_where (λ (b : BountyRow). b.id == id) (moved status close) rows)
        ≡ moved_row (first (λ (b : BountyRow). b.id == id) rows)
  unfolding moved_row
  first-moved id [] = refl
  first-moved id (b ∷ rows) = ground (arith, first-moved id rows)

  plan_bounty-moved :
      (e : Env) (o : DrawOptions) (bounty : ℕ) (t : Tables) (b : Option BountyRow)
      → plan_bounty e o bounty (set_bounty bounty (moved status close) t) (moved_row b)
        ≡ plan_bounty e o bounty t b
  unfolding moved_row config overrides history_for
  plan_bounty-moved e o bounty t none = refl
  plan_bounty-moved e o bounty t (some b) = refl

  -- Neither the status of a bounty nor its application window is asked: a draw of a cancelled, paid or
  -- proposed bounty, or of one that still takes applications, is planned as that of a posted one.
  pub draw_plan-moved :
      (e : Env) (o : DrawOptions) (bounty : ℕ) (t : Tables)
      → draw_plan e o bounty (set_bounty bounty (moved status close) t) ≡ draw_plan e o bounty t
  unfolding draw_plan
  draw_plan-moved e o bounty t =
      ap (plan_bounty e o bounty (set_bounty bounty (moved status close) t))
        (first-moved bounty t.bounties)
      ∙ plan_bounty-moved e o bounty t (bounty_of bounty t)
