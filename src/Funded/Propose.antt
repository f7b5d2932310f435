-- ===== src/Funded/Propose.antt =====
-- The proposal to unassign in apps/agent/src/funded-service.ts: propose, and what an administrator records
-- about a refusal.
use grainlify_bounty_agent.Base.{
  ℕ, suc, ◌+◌, ◌*◌, ◌==◌, Bool, true, false, not, ◌&&◌, Option, none, some, [], ◌∷◌, ◌++◌,
  if◌then◌else◌, String, text_eq, any,
}
use grainlify_bounty_agent.DrawService.Tables.{
  AssignmentRow, AuditAction, unassign_proposal, DedupeKey, unassign_proposed, enqueue_event, log,
  is_pr_submitted,
}
use grainlify_bounty_agent.DrawService.Apply.{hour}
use grainlify_bounty_agent.Funded.Tables.{
  FundedTables, FundedEnv, FundedError, FundedRow, Side, funder, contributor, Proposal, pending,
  not_a_funded_bounty, funded_bounties_disabled, no_active_assignment, not_a_party, no_pr_open,
  reason_required, proposal_pending, with_core, row, enabled_for, is_funder, live, is_pending,
}

pub data Agreement : Type 0 where
  refuse : FundedError → Agreement
  proposed : ℕ → ℕ → Agreement
  answered : Agreement
  agreed : Bool → Bool → Agreement
  recorded : Agreement

-- RESPOND_DAYS
abbrev pub respond_days : ℕ
respond_days = 7

abbrev pub respond_by : ℕ → ℕ
respond_by now = now + respond_days * (24 * hour)

abbrev pub side : FundedEnv → FundedRow → AssignmentRow → String → ℕ → Option Side
side e b a login user =
    if is_funder e b login
    then some funder
    else if a.github_user_id == user
    then some contributor
    else none

abbrev pub audit : String → AuditAction → ℕ → FundedTables → FundedTables
audit actor action bounty t = with_core (log actor action bounty none t.core) t

abbrev pub tell : Option ℕ → DedupeKey → FundedTables → FundedTables
tell none key t = t
tell (some user) key t =
    if user == 0 then t else with_core (enqueue_event user key false t.core).0 t

abbrev pub user_of : FundedRow → AssignmentRow → Side → Option ℕ
user_of b a funder = b.bounty.funded_by_github_user_id
user_of b a contributor = some a.github_user_id

abbrev pub other : Side → Side
other funder = contributor
other contributor = funder

abbrev pub same_side : Side → Side → Bool
same_side funder funder = true
same_side contributor contributor = true
same_side _ _ = false

abbrev pub new_proposal :
    FundedEnv → FundedRow → AssignmentRow → Side → String → String → ℕ → Proposal
new_proposal e b a s login reason id = record {
  id = id;
  bounty_id = b.bounty.id;
  assignment_id = a.id;
  proposed_by = s;
  proposer_login = login;
  reason = e.base.cut_text reason;
  created_at = e.base.now;
  respond_by = respond_by e.base.now;
  status = pending;
  responder_login = none;
  response = none;
  responded_at = none;
  carried_out_at = none;
  left_to_deadline_by = none;
}

-- One pending proposal of an assignment: a unique index.
abbrev pub insert_proposal :
    FundedEnv
    → FundedRow
    → AssignmentRow
    → String
    → String
    → FundedTables
    → Side
    → FundedTables × Agreement
insert_proposal e b a login reason t s =
    let id = suc t.core.seq in
    if any (λ (p : Proposal). p.assignment_id == a.id && is_pending p.status) t.proposals
    then (t, refuse proposal_pending)
    else (
      tell (user_of b a (other s)) (unassign_proposed id) (
          audit login unassign_proposal b.bounty.id (record t {
            core = record t.core { seq = id };
            proposals = t.proposals ++ new_proposal e b a s login reason id ∷ [];
          })),
      proposed id (respond_by e.base.now),
    )

abbrev pub propose_as :
    FundedEnv
    → FundedRow
    → AssignmentRow
    → String
    → String
    → FundedTables
    → Option Side
    → FundedTables × Agreement
propose_as e b a login reason t none = (t, refuse not_a_party)
propose_as e b a login reason t (some s) =
    if not (is_pr_submitted a.status)
    then (t, refuse no_pr_open)
    else if text_eq (e.base.trim reason) ""
    then (t, refuse reason_required)
    else insert_proposal e b a login reason t s

abbrev pub propose_holder :
    FundedEnv
    → FundedRow
    → String
    → ℕ
    → String
    → FundedTables
    → Option AssignmentRow
    → FundedTables × Agreement
propose_holder e b login user reason t none = (t, refuse no_active_assignment)
propose_holder e b login user reason t (some a) =
    propose_as e b a login reason t (side e b a login user)

abbrev pub propose_row :
    FundedEnv → ℕ → String → ℕ → String → FundedTables → Option FundedRow → FundedTables × Agreement
propose_row e bounty login user reason t none = (t, refuse not_a_funded_bounty)
propose_row e bounty login user reason t (some b) =
    if not (enabled_for e t b.funded_by)
    then (t, refuse funded_bounties_disabled)
    else propose_holder e b login user reason t (live bounty t)

unfoldable pub propose :
    FundedEnv → ℕ → String → ℕ → String → FundedTables → FundedTables × Agreement
unfolding enqueue_event enabled_for
propose e bounty login user reason t = propose_row e bounty login user reason t (row bounty t)
