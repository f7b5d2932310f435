-- ===== src/DrawService/Decide/Neutral.antt =====
-- The decisions of apps/agent/src/draw-service.ts and the histories that the draw weighs.
use grainlify_bounty_agent.Base.{
  ℕ, ◌≡◌, refl, Bool, true, false, Option, none, some, arith, if_elim, String, text_eq, any,
  first-holds, count_by, IsApart, same_id, count_by-update_id,
}
use grainlify_bounty_agent.DrawService.Tables.{
  Tables, AssignmentRow, BountyRow, DedupeKey, same_key, enqueue_event, unassigned, is_posted,
  is_pr_submitted, holds, holder_of, bounty_of, log, bounty_closed, set_bounty,
}
use grainlify_bounty_agent.DrawService.Draw.{history_for, is_completion, is_of, is_abandon}
use grainlify_bounty_agent.DrawService.Decide.{
  Decided, cancel, release, release_holder, release_if, unassign_holder, unassign_by_decision, tell,
  has_pr, close_bounty, close_by_decision,
}

module _ (t : Tables) (user : ℕ)
    (keyed : IsApart (same_id (λ (a : AssignmentRow). a.id)) t.assignments) where
  abbrev IsSame : Tables → Type 0
  IsSame u = history_for u user ≡ history_for t user

  enqueue_event-IsSame :
      (to : ℕ) (key : DedupeKey) (closed : Bool) (u : Tables)
      → IsSame u
      → IsSame (enqueue_event to key closed u).0
  unfolding enqueue_event history_for
  enqueue_event-IsSame to key closed u s =
      if_elim (λ (y : Tables × Bool). IsSame y.0) (any (λ e. same_key e.dedupe_key key) u.events) _
        _ (λ old. s) (λ new. s)

  -- The holder was live, and the release is neither a completion nor a stale one.
  release_holder-IsSame :
      (now : ℕ) (reason actor : String) (bounty : ℕ) (a : AssignmentRow)
      → holder_of bounty t ≡ some a
      → IsSame (release_holder now reason actor bounty a t)
  unfolding history_for
  release_holder-IsSame now reason actor bounty a f =
      let live = first-holds (holds bounty) t.assignments a f in
      let kept : (c : AssignmentRow → Bool)
          → c (release now reason actor a) ≡ c a
          → count_by c (release_holder now reason actor bounty a t).assignments
            ≡ count_by c t.assignments =
        (λ c k.
          count_by-update_id (λ (r : AssignmentRow). r.id) c (holds bounty)
            (release now reason actor) t.assignments a keyed f k) in
      rw (kept (is_completion user) (ground arith))
        (rw (kept (is_of user) refl) (rw (kept (is_abandon user) (ground arith)) refl))

  unassign_holder-IsSame :
      (now : ℕ) (reason actor : String) (bounty : ℕ) (held : Option AssignmentRow)
      → holder_of bounty t ≡ held
      → IsSame (unassign_holder now reason actor bounty held t).0
  unfolding history_for
  unassign_holder-IsSame now reason actor bounty none f = refl
  unassign_holder-IsSame now reason actor bounty (some a) f =
      if_elim (λ (y : Tables × Decided). IsSame y.0) (is_pr_submitted a.status) _ _
        (λ submitted. refl)
        (λ free.
          enqueue_event-IsSame a.github_user_id (unassigned a.id) false _
            (release_holder-IsSame now reason actor bounty a f))

  tell-IsSame :
      (bounty : ℕ) (held : Option AssignmentRow) (u : Tables)
      → IsSame u
      → IsSame (tell bounty held u).0
  tell-IsSame bounty none u s = s
  tell-IsSame bounty (some a) u s = enqueue_event-IsSame a.github_user_id (unassigned a.id) true u s

  release_if-IsSame :
      (now : ℕ) (reason actor : String) (bounty : ℕ) (held : Option AssignmentRow)
      → holder_of bounty t ≡ held
      → IsSame (release_if now reason actor bounty held (set_bounty bounty cancel t))
  unfolding history_for
  release_if-IsSame now reason actor bounty none f = refl
  release_if-IsSame now reason actor bounty (some a) f =
      release_holder-IsSame now reason actor bounty a f

  logged-IsSame :
      (actor : String) (bounty : ℕ) (reason : String) (u : Tables)
      → IsSame u
      → IsSame (log actor bounty_closed bounty (some reason) u)
  unfolding history_for
  logged-IsSame actor bounty reason u s = s

  close_bounty-IsSame :
      (now : ℕ) (reason actor : String) (bounty : ℕ) (b : Option BountyRow)
      → IsSame (close_bounty now reason actor bounty b t).0
  close_bounty-IsSame now reason actor bounty none = refl
  close_bounty-IsSame now reason actor bounty (some b) =
      if_elim P (is_posted b.status) _ _
        (λ on_offer.
          if_elim P (has_pr (holder_of bounty t)) _ _ (λ submitted. refl)
            (λ free. tell-IsSame bounty (holder_of bounty t) _ (
              logged-IsSame actor bounty reason _
                (release_if-IsSame now reason actor bounty (holder_of bounty t) refl))))
        (λ other. refl)
    where
      P : Tables × Decided → Type 0
      P y = IsSame y.0

  -- In tables whose assignments have distinct ids: a decision to unassign the holder of a bounty, or to close
  -- it, whatever comes out, leaves the completions, the assignments and the abandons that the draws count
  -- for any user as they were.
  pub decisions-history_for :
      (now bounty : ℕ) (actor reason : String)
      → (history_for (unassign_by_decision now bounty actor reason t).0 user ≡ history_for t user)
        × (history_for (close_by_decision now bounty actor reason t).0 user ≡ history_for t user)
  unfolding unassign_by_decision close_by_decision
  decisions-history_for now bounty actor reason = (
    if_elim P (text_eq reason "") _ _ (λ empty. refl)
        (λ given. unassign_holder-IsSame now reason actor bounty (holder_of bounty t) refl),
    if_elim P (text_eq reason "") _ _ (λ empty. refl)
        (λ given. close_bounty-IsSame now reason actor bounty (bounty_of bounty t)),
  )
    where
      P : Tables × Decided → Type 0
      P y = IsSame y.0
