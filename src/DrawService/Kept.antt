-- ===== src/DrawService/Kept.antt =====
-- What the operations of apps/agent/src/draw-service.ts, the draw aside, do to the assignments: they update
-- rows in place, never move one to another bounty, holder or draw, and never make one live again.
use grainlify_bounty_agent.Base.{
  ℕ, ◌≤◌, ◌≡◌, ◌==◌, Bool, true, List, arith, if_elim, any, update_where,
}
use grainlify_bounty_agent.DrawService.Tables
use grainlify_bounty_agent.DrawService.Tables.{
  Tables, BountyRow, AssignmentRow, SubmissionRow, DedupeKey, enqueue_event, log, is_live,
  is_active, is_posted, is_in_review, holder_of, bounty_of, set_bounty, set_assignment,
  back_to_pool, assignment_pr_recorded,
}

-- An update that keeps the columns of a draw and revives nothing.
pub record IsKeeping (p : AssignmentRow → Bool) (f : AssignmentRow → AssignmentRow) : Type 0 where
  pub bounty : (a : AssignmentRow) → (f a).bounty_id ≡ a.bounty_id
  pub user : (a : AssignmentRow) → (f a).github_user_id ≡ a.github_user_id
  pub draw : (a : AssignmentRow) → (f a).draw_id ≡ a.draw_id
  pub live :
      (a : AssignmentRow) → p a ≡ true → is_live (f a).status ≡ true → is_live a.status ≡ true

pub data KeptRows (xs : List AssignmentRow) : List AssignmentRow → Type 0 where
  same : KeptRows xs xs
  updated :
      {ys : List AssignmentRow} (p : AssignmentRow → Bool) (f : AssignmentRow → AssignmentRow)
      → IsKeeping p f
      → KeptRows xs ys
      → KeptRows xs (update_where p f ys)

pub record Kept (t t' : Tables) : Type 0 where
  pub later : t.seq ≤ t'.seq
  pub rows : KeptRows t.assignments t'.assignments

pub Kept-refl : (t : Tables) → Kept t t
Kept-refl t = record { later = omega arith; rows = same }

module _ (t : Tables) where
  -- The tables other than the assignments do not matter.
  pub enqueue_event-Kept :
      (user : ℕ) (key : DedupeKey) (closed : Bool) (u : Tables)
      → Kept t u
      → Kept t (enqueue_event user key closed u).0
  unfolding enqueue_event
  enqueue_event-Kept user key closed u k =
      if_elim (λ (y : Tables × Bool). Kept t y.0)
        (any (λ e. Tables.same_key e.dedupe_key key) u.events) _ _ (λ old. k)
        (λ new. record { later = k.later; rows = k.rows })

  pub set_assignment-Kept :
      (id : ℕ) (f : AssignmentRow → AssignmentRow) (u : Tables)
      → IsKeeping (λ (a : AssignmentRow). a.id == id) f
      → Kept t u
      → Kept t (set_assignment id f u)
  set_assignment-Kept id f u s k = record {
    later = k.later;
    rows = updated (λ (a : AssignmentRow). a.id == id) f s k.rows;
  }
