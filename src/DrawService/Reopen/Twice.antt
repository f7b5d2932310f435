-- ===== src/DrawService/Reopen/Twice.antt =====
-- A repeated `reopenAfterUnmergedClose` of apps/agent/src/draw-service.ts: a redelivered webhook, or the
-- repair command after it.
use grainlify_bounty_agent.Base.{
  ℕ, ◌≡◌, refl, ◌==◌, Bool, true, false, not, Option, none, some, List, [], ◌∷◌, arith, if_elim,
  String, any, first, first-holds, first-update_where, update_where,
}
use grainlify_bounty_agent.DrawService.Tables.{
  Tables, BountyRow, AssignmentRow, SubmissionRow, is_in_review, is_open_pr, bounty_of,
}
use grainlify_bounty_agent.DrawService.Reopen.{
  ReopenOutcome, reopened, no_such_bounty, not_in_review, pr_merged, no_closed_pr, still_open,
  was_merged, is_submitted_on, make_active, post_again, latest, submitted_to, is_merged_pr,
  is_closed_pr, reopen_closed, reopen_bounty, reopen_after_unmerged_close,
}

abbrev pub is_reopened : ReopenOutcome → Bool
is_reopened (reopened pr contributor holder reset hold) = true
is_reopened no_such_bounty = false
is_reopened not_in_review = false
is_reopened ReopenOutcome.pr_open = false
is_reopened pr_merged = false
is_reopened no_closed_pr = false
is_reopened (still_open pr) = false
is_reopened (was_merged pr) = false

none_submitted :
    (bounty : ℕ) (rows : List AssignmentRow)
    → any (is_submitted_on bounty) (update_where (is_submitted_on bounty) make_active rows) ≡ false
none_submitted bounty [] = refl
none_submitted bounty (a ∷ rows) = ground (arith, none_submitted bounty rows)

found :
    (bounty : ℕ) (rows : List BountyRow) (b : BountyRow) (hold : Bool)
    → first (λ (r : BountyRow). r.id == bounty) rows ≡ some b
    → first
        (λ (r : BountyRow). r.id == bounty)
        (update_where (λ (r : BountyRow). r.id == bounty) (post_again hold) rows)
      ≡ some (post_again hold b)
found bounty rows b hold f = ground (
  arith,
  first-holds (λ (r : BountyRow). r.id == bounty) rows b f,
  first-update_where (λ (r : BountyRow). r.id == bounty) (λ (r : BountyRow). r.id == bounty)
      (post_again hold) rows b (λ r. refl) f,
)

module _ (actor' : String) (hold' : Bool) (bounty : ℕ) where
  abbrev IsRepeated : Tables × ReopenOutcome → Type 0
  IsRepeated y =
      is_reopened y.1 ≡ true
      → (reopen_after_unmerged_close actor' hold' bounty y.0 ≡ (y.0, not_in_review))
        × (any (is_submitted_on bounty) y.0.assignments ≡ false)

  not_again :
      (u : Tables) (b : BountyRow)
      → bounty_of bounty u ≡ some b
      → is_in_review b.status ≡ false
      → reopen_after_unmerged_close actor' hold' bounty u ≡ (u, not_in_review)
  unfolding reopen_after_unmerged_close
  not_again u b f s = rw f (rw s refl)

  reopen_closed-IsRepeated :
      (actor : String) (hold : Bool) (t : Tables) (b : BountyRow) (s : Option SubmissionRow)
      → bounty_of bounty t ≡ some b
      → IsRepeated (reopen_closed actor hold bounty s t)
  reopen_closed-IsRepeated actor hold t b none f h = absurd (cc)
  reopen_closed-IsRepeated actor hold t b (some s) f h = (
    not_again _ (post_again hold b) (found bounty t.bounties b hold f) refl,
    none_submitted bounty t.assignments,
  )

  reopen_bounty-IsRepeated :
      (actor : String) (hold : Bool) (t : Tables) (b : Option BountyRow)
      → bounty_of bounty t ≡ b
      → IsRepeated (reopen_bounty actor hold bounty b t)
  reopen_bounty-IsRepeated actor hold t none f = λ h. absurd (cc)
  reopen_bounty-IsRepeated actor hold t (some b) f =
      if_elim IsRepeated (not (is_in_review b.status)) _ _ (λ other h. absurd (cc))
        (λ review.
          if_elim IsRepeated (any (submitted_to bounty is_open_pr) t.submissions) _ _
            (λ hit h. absurd (cc))
            (λ none_open.
              if_elim IsRepeated (any (submitted_to bounty is_merged_pr) t.submissions) _ _
                (λ hit h. absurd (cc))
                (λ none_merged.
                  reopen_closed-IsRepeated actor hold t b
                    (latest (submitted_to bounty is_closed_pr) t.submissions) f)))

  -- After a reopening, no assignment of the bounty is left as submitted, and the next one, by anybody, finds
  -- the bounty not in review and changes nothing.
  pub reopen_after_unmerged_close-twice :
      (actor : String) (hold : Bool) (t : Tables)
      → is_reopened (reopen_after_unmerged_close actor hold bounty t).1 ≡ true
      → (reopen_after_unmerged_close actor' hold' bounty
            (reopen_after_unmerged_close actor hold bounty t).0
          ≡ ((reopen_after_unmerged_close actor hold bounty t).0, not_in_review))
        × (any
              (is_submitted_on bounty)
              (reopen_after_unmerged_close actor hold bounty t).0.assignments
            ≡ false)
  unfolding reopen_after_unmerged_close
  reopen_after_unmerged_close-twice actor hold t =
      reopen_bounty-IsRepeated actor hold t (bounty_of bounty t) refl
