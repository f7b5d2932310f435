-- ===== src/DrawService/Sweep/Spares.antt =====
-- Who is counted as abandoning by the stale release of apps/agent/src/draw-service.ts.
use grainlify_bounty_agent.Base.{
  ℕ, ◌+◌, ◌≡◌, ◌∙◌, ap, refl, ◌==◌, Bool, true, false, not, ◌||◌, ◌&&◌, List, [], ◌∷◌, arith, leb,
  if_elim, Bool-cases, inl, inr, any, count_by, update_if, update_where,
}
use grainlify_bounty_agent.DrawService.Tables.{
  Tables, AssignmentRow, DedupeKey, same_key, is_active, is_open_pr, enqueue_event,
  assignment_expiring,
}
use grainlify_bounty_agent.DrawService.Apply.{Env}
use grainlify_bounty_agent.DrawService.Reopen.{
  own_pr, has_open_pr, is_unrecorded, set_submitted, log_recorded, select_where,
  record_submitted_pull_requests,
}
use grainlify_bounty_agent.DrawService.Draw.{history_for, is_abandon}
use grainlify_bounty_agent.DrawService.Sweep.{
  any_state, is_funded_bounty, warn, warn_due, expiring_rows, is_stale, release_stale, return_all,
  release_due, release_stale_assignments,
}

-- The tables that the release asks are those that it began with.
record IsUntouched (t u : Tables) : Type 0 where
  bounties : u.bounties ≡ t.bounties
  submissions : u.submissions ≡ t.submissions
  assignments : u.assignments ≡ t.assignments

IsUntouched-refl : (t : Tables) → IsUntouched t t
IsUntouched-refl t = record { bounties = refl; submissions = refl; assignments = refl }

enqueue_event-IsUntouched :
    (t : Tables) (to : ℕ) (key : DedupeKey) (closed : Bool) (u : Tables)
    → IsUntouched t u
    → IsUntouched t (enqueue_event to key closed u).0
unfolding enqueue_event
enqueue_event-IsUntouched t to key closed u v =
    if_elim (λ (y : Tables × Bool). IsUntouched t y.0)
      (any (λ e. same_key e.dedupe_key key) u.events) _ _ (λ old. v)
      (λ new. record {
        bounties = v.bounties;
        submissions = v.submissions;
        assignments = v.assignments;
      })

warn-IsUntouched :
    (t : Tables) (rows : List AssignmentRow) (u : Tables)
    → IsUntouched t u
    → IsUntouched t (warn rows u).0
warn-IsUntouched t [] u v = v
warn-IsUntouched t (a ∷ rows) u v =
    warn-IsUntouched t rows _
      (enqueue_event-IsUntouched t a.github_user_id (assignment_expiring a.id) false u v)

log_recorded-IsUntouched :
    (t : Tables) (rows : List AssignmentRow) (u : Tables)
    → IsUntouched t u
    → IsUntouched t (log_recorded rows u)
log_recorded-IsUntouched t [] u v = v
log_recorded-IsUntouched t (a ∷ rows) u v =
    log_recorded-IsUntouched t rows _
      (record { bounties = v.bounties; submissions = v.submissions; assignments = v.assignments })

return_all-assignments :
    (rows : List AssignmentRow) (u : Tables) → (return_all rows u).assignments ≡ u.assignments
return_all-assignments [] u = refl
return_all-assignments (a ∷ rows) u = return_all-assignments rows _

any_mono {ℓ} :
    {A : Type ℓ} (p q : A → Bool) (xs : List A)
    → ((x : A) → p x ≡ true → q x ≡ true)
    → any p xs ≡ true
    → any q xs ≡ true
any_mono p q [] f h = cc
any_mono p q (x ∷ xs) f h = ground (arith, f x, any_mono p q xs f)

-- An assignment that becomes an abandon: active, past its deadline, of a bounty that nobody funds, and with
-- no pull request of the holder on the bounty, whatever became of it.
abbrev pub is_abandoned : Tables → ℕ → ℕ → AssignmentRow → Bool
is_abandoned t now user a =
    a.github_user_id == user
    && (is_active a.status
        && (leb a.stale_at now
            && (not (any (is_funded_bounty a.bounty_id) t.bounties)
                && not (any (own_pr a any_state) t.submissions))))

module _ (t : Tables) (now user : ℕ) where
  one_row :
      (a : AssignmentRow)
      → is_abandon user (
          update_if
            (is_stale t now)
            (release_stale t now)
            (update_if (is_unrecorded t) (set_submitted t) a))
        ≡ is_abandon user a || is_abandoned t now user a
  one_row a =
      let own =
        any_mono (own_pr a is_open_pr) (own_pr a any_state) t.submissions (λ s h. ground arith) in
      elim (Bool-cases (has_open_pr t a)) [
        | inl hit ↦ ground (arith, own hit)
        | inr miss ↦ ground (arith, miss)
      ]

  count_by-released :
      (rows : List AssignmentRow)
      → count_by (is_abandon user) (
          update_where
            (is_stale t now)
            (release_stale t now)
            (update_where (is_unrecorded t) (set_submitted t) rows))
        ≡ count_by (is_abandon user) rows + count_by (is_abandoned t now user) rows
  count_by-released [] = refl
  count_by-released (a ∷ rows) = ground (arith, one_row a, count_by-released rows)

release_due-abandons :
    (now user : ℕ) (u : Tables × List ℕ)
    → (history_for (release_due now u).0 user).abandons
      ≡ count_by
          (is_abandon user)
          (update_where (is_stale u.0 now) (release_stale u.0 now) u.0.assignments)
unfolding history_for
release_due-abandons now user (u, warned) =
    ap (count_by (is_abandon user))
      (return_all-assignments (select_where (is_stale u now) u.assignments) _)

released-untouched :
    (now : ℕ) (v u : Tables)
    → IsUntouched v u
    → update_where (is_stale u now) (release_stale u now) u.assignments
      ≡ update_where (is_stale v now) (release_stale v now) v.assignments
released-untouched now v u w = rw w.assignments (rw w.bounties (rw w.submissions refl))

module _ (e : Env) (t : Tables) (user : ℕ) where
  recorded : Tables
  recorded = record t {
    assignments = update_where (is_unrecorded t) (set_submitted t) t.assignments;
  }

  warned-IsUntouched : IsUntouched recorded (warn_due e (record_submitted_pull_requests t)).0
  unfolding record_submitted_pull_requests recorded
  warned-IsUntouched =
      warn-IsUntouched recorded (expiring_rows e (record_submitted_pull_requests t)) _ (
        log_recorded-IsUntouched recorded (select_where (is_unrecorded t) t.assignments) recorded
          (IsUntouched-refl recorded))

  -- The abandons of a user go up by exactly the active assignments of theirs, past the deadline, of bounties
  -- that nobody funds, on which the user has opened no pull request: one that was opened, and closed again
  -- or merged, never counts.
  pub release_stale_assignments-abandons :
      (history_for (release_stale_assignments e t).0 user).abandons
      ≡ (history_for t user).abandons + count_by (is_abandoned t e.now user) t.assignments
  unfolding release_stale_assignments history_for recorded
  release_stale_assignments-abandons =
      release_due-abandons e.now user (warn_due e (record_submitted_pull_requests t))
      ∙ ap (count_by (is_abandon user)) (released-untouched e.now recorded _ warned-IsUntouched)
      ∙ count_by-released t e.now user t.assignments
