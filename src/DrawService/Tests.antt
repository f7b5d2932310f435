-- ===== src/DrawService/Tests.antt =====
-- The theorems about the draw service at concrete tables.
use grainlify_bounty_agent.Base.{
  ◌∷◌, ◌+◌, ◌≡◌, refl, ◌⊎◌, inl, false, none, some, [], arith, ok, All, IsApart, any, count_by,
  text_eq,
}
use grainlify_bounty_agent.Draw.Config.{int_of, bool_of}
use grainlify_bounty_agent.Draw.Sample.{dyadic}
use grainlify_bounty_agent.DrawService.Tables
use grainlify_bounty_agent.DrawService.Tables.{
  Tables, enqueue_event, BountyRow, BountyStatus, AssignmentRow, ApplicationRow, SubmissionRow,
  bounty_of,
}
use grainlify_bounty_agent.DrawService.Settings.{config}
use grainlify_bounty_agent.DrawService.Apply.{
  Env, ApplyInput, accepted, refused, apply, no_such_bounty,
}
use grainlify_bounty_agent.DrawService.Apply.Gates.{IsAnswer}
use grainlify_bounty_agent.DrawService.Apply.Answers.{apply_answers}
use grainlify_bounty_agent.DrawService.Decide.{unassign_by_decision, close_by_decision}
use grainlify_bounty_agent.DrawService.Decide.Neutral.{decisions-history_for}
use grainlify_bounty_agent.DrawService.Reopen.{
  reopen_after_unmerged_close, not_in_review, is_submitted_on,
}
use grainlify_bounty_agent.DrawService.Reopen.Twice.{reopen_after_unmerged_close-twice}
use grainlify_bounty_agent.DrawService.Kept.{same}
use grainlify_bounty_agent.DrawService.Draw.{
  Plan, Db, history_for, is_in_pool, draw_plan, write_draw, run_draw_for,
}
use grainlify_bounty_agent.DrawService.Draw.Planned.{is_pooled, draw_plan-IsPlanned}
use grainlify_bounty_agent.DrawService.Draw.Assigns.{IsAssigned, run_draw_for-assigns}
use grainlify_bounty_agent.DrawService.Draw.Replay.{both_live, Drawn, Replays}
use grainlify_bounty_agent.DrawService.Draw.Unchecked.{moved, draw_plan-moved}
use grainlify_bounty_agent.DrawService.Sweep.{release_stale_assignments}
use grainlify_bounty_agent.DrawService.Sweep.Spares.{
  is_abandoned, release_stale_assignments-abandons,
}
use grainlify_bounty_agent.DrawService.Histories.{Step, Reach, empty, Reach-assignments}
use grainlify_bounty_agent.Draw.Config.{applicant_bucket}
use grainlify_bounty_agent.DrawService.Tables.{ApplicationRow}
use grainlify_bounty_agent.DrawService.Views.{maintainer_view}
use grainlify_bounty_agent.DrawService.Views.Private.{with_pool, maintainer_view-private}
use grainlify_bounty_agent.DrawService.Sample.{
  application, env, bounty, on_offer, by_hand, assigned, in_review,
}

abbrev before : Db dyadic
before = record { tables = on_offer; draws = [] }

run_draw_for-assigns_example :
    IsAssigned dyadic
      (is_pooled (is_in_pool env on_offer 1 none false) on_offer.applications)
      1
      (run_draw_for dyadic env by_hand 7 1 before)
run_draw_for-assigns_example =
    run_draw_for-assigns dyadic env by_hand 7 1 before bounty refl refl refl (inl refl) refl

plan : Plan
plan = (draw_plan-IsPlanned env by_hand 1 on_offer bounty refl refl (inl refl) refl).0

planned : draw_plan env by_hand 1 on_offer ≡ ok plan
unfolding plan
planned = (draw_plan-IsPlanned env by_hand 1 on_offer bounty refl refl (inl refl) refl).1

after : Db dyadic
after = (write_draw dyadic env by_hand 7 1 plan before).0

reached : Reach dyadic (empty dyadic) after
unfolding after
reached =
    Reach.next
      (Reach.next Reach.here
        (Step.elsewhere (empty dyadic) on_offer (record { later = omega arith; rows = same })))
      (Step.writes before env by_hand 7 1 on_offer plan planned)

Reach-assignments_example :
    IsApart both_live after.tables.assignments
    × (All (Drawn dyadic after.draws) after.tables.assignments × All (Replays dyadic) after.draws)
Reach-assignments_example = Reach-assignments dyadic after reached

draw_plan-moved_example :
    draw_plan env by_hand 1 (Tables.set_bounty 1 (moved Tables.cancelled none) on_offer)
    ≡ draw_plan env by_hand 1 on_offer
draw_plan-moved_example = draw_plan-moved Tables.cancelled none env by_hand 1 on_offer

abbrev input : ApplyInput
input = record { bounty_id = 1; github_user_id = 9; github_login = "bob"; application_text = "hi" }

-- A window that is still open, an account of a month and more, and a linked wallet.
abbrev on_sale : Tables
on_sale = record on_offer {
  bounties = record bounty { applications_close_at = some 4000000000 } ∷ [];
  wallets = record { github_user_id = 9; address = "wallet"; revoked = false } ∷ [];
}

abbrev late : Env
late = record env { now = 3000000000 }

apply-accepts : (apply late input on_sale).1 ≡ accepted 3
unfolding apply config text_eq enqueue_event int_of bool_of
apply-accepts = refl

apply-no_wallet :
    (apply late input (record on_sale { wallets = [] })).1 ≡ refused Tables.no_linked_wallet
unfolding apply config text_eq enqueue_event int_of bool_of
apply-no_wallet = refl

apply_answers_example :
    ((bounty_of 1 on_sale ≡ none) × (apply late input on_sale ≡ (on_sale, no_such_bounty)))
    ⊎ ((b : BountyRow) × (bounty_of 1 on_sale ≡ some b)
        × IsAnswer late input (config on_sale) b on_sale (apply late input on_sale))
apply_answers_example = apply_answers late input on_sale

decisions-history_for_example :
    (history_for (unassign_by_decision 5 1 "bob" "quiet" assigned).0 7 ≡ history_for assigned 7)
    × (history_for (close_by_decision 5 1 "bob" "quiet" assigned).0 7 ≡ history_for assigned 7)
decisions-history_for_example = decisions-history_for assigned 7 (refl, tt) 5 1 "bob" "quiet"

release_stale_assignments-abandons_example :
    (history_for (release_stale_assignments env assigned).0 7).abandons
    ≡ (history_for assigned 7).abandons
      + count_by (is_abandoned assigned 100000000 7) assigned.assignments
release_stale_assignments-abandons_example = release_stale_assignments-abandons env assigned 7

reopen_after_unmerged_close-twice_example :
    (reopen_after_unmerged_close "cli" false 1
        (reopen_after_unmerged_close "webhook" false 1 in_review).0
      ≡ ((reopen_after_unmerged_close "webhook" false 1 in_review).0, not_in_review))
    × (any
          (is_submitted_on 1)
          (reopen_after_unmerged_close "webhook" false 1 in_review).0.assignments
        ≡ false)
unfolding reopen_after_unmerged_close
reopen_after_unmerged_close-twice_example =
    reopen_after_unmerged_close-twice "cli" false 1 "webhook" false in_review refl

abbrev taking : Db dyadic
taking = record {
  tables = record on_offer {
    bounties = record bounty { applications_close_at = some 200000000 } ∷ [];
  };
  draws = [];
}

abbrev another : ApplicationRow
another = record application { github_user_id = 8; github_login = "eve" }

maintainer_view-private_example :
    maintainer_view dyadic env 1 (with_pool dyadic taking (application ∷ []) [])
    ≡ maintainer_view dyadic env 1
        (with_pool dyadic taking (another ∷ application ∷ []) after.draws)
unfolding applicant_bucket
maintainer_view-private_example =
    maintainer_view-private dyadic env 1 taking
      (record bounty { applications_close_at = some 200000000 }) (application ∷ [])
      (another ∷ application ∷ []) [] after.draws refl refl refl
