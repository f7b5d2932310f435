-- ===== src/DrawService/Views/Private.antt =====
-- What a maintainer learns from apps/agent/src/draw-service.ts while a window is open.
use grainlify_bounty_agent.Base.{ℕ, ◌≡◌, ap, refl, true, Option, some, List, String}
use grainlify_bounty_agent.Draw.Run.{Floats}
use grainlify_bounty_agent.Draw.Config.{ApplicantBucket, applicant_bucket}
use grainlify_bounty_agent.DrawService.Tables.{BountyRow, ApplicationRow, bounty_of}
use grainlify_bounty_agent.DrawService.Settings.{overrides, config, setting_of}
use grainlify_bounty_agent.DrawService.Apply.{Env, is_after, pool_visibility_for_maintainer}
use grainlify_bounty_agent.DrawService.Draw.{DrawRow, Db}
use grainlify_bounty_agent.DrawService.Views.{
  eligible_count, open_view, or_bucketed, maintainer_view,
}

module _ (x : Floats) where
  -- The tables with these applications and draws.
  abbrev pub with_pool : Db x → List ApplicationRow → List (DrawRow x) → Db x
  with_pool db rows draws = record {
    tables = record db.tables { applications = rows };
    draws = draws;
  }

  visibility_bucket :
      (m n : ℕ) (visibility : String)
      → applicant_bucket m ≡ applicant_bucket n
      → pool_visibility_for_maintainer m visibility ≡ pool_visibility_for_maintainer n visibility
  unfolding pool_visibility_for_maintainer
  visibility_bucket m n visibility h = rw h refl

  -- While the window of a bounty is open, the view of its maintainer depends on the applications only
  -- through the band of their number, and on no draw: who applied, how many exactly, and every draw and
  -- simulation so far are not in it.
  pub maintainer_view-private :
      (e : Env) (bounty : ℕ) (db : Db x) (b : BountyRow) (rows others : List ApplicationRow)
      (draws other_draws : List (DrawRow x))
      → bounty_of bounty db.tables ≡ some b
      → is_after e.now b.applications_close_at ≡ true
      → applicant_bucket (eligible_count bounty rows)
        ≡ applicant_bucket (eligible_count bounty others)
      → maintainer_view x e bounty (with_pool db rows draws)
        ≡ maintainer_view x e bounty (with_pool db others other_draws)
  unfolding maintainer_view config overrides
  maintainer_view-private e bounty db b rows others draws other_draws found open_now band =
      rw found (
        rw open_now (
          ap
            (λ (bucket : Option ApplicantBucket).
              some (record (open_view x bounty b db.tables) { applicant_bucket = bucket }))
            (visibility_bucket (eligible_count bounty rows) (eligible_count bounty others)
              (or_bucketed (setting_of (config db.tables) "applicant_count_visibility")) band)))
