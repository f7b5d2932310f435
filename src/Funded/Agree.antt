-- ===== src/Funded/Agree.antt =====
-- The answer to a proposal to unassign in apps/agent/src/funded-service.ts: respond.
pub mod Sides
use grainlify_bounty_agent.Base.{
  ℕ, ◌==◌, Bool, true, false, not, Option, none, some, if◌then◌else◌, String, text_eq, truthy,
}
use grainlify_bounty_agent.DrawService.Tables.{
  AssignmentRow, unassign_refusal, unassign_acceptance, unassign_refused, enqueue_event,
}
use grainlify_bounty_agent.Funded.Tables.{
  FundedTables, FundedEnv, FundedRow, Side, Proposal, accepted, refused, not_a_funded_bounty,
  no_such_proposal, not_pending, assignment_changed, not_the_other_side, response_required, row,
  live, is_pending, set_proposal,
}
use grainlify_bounty_agent.Funded.Propose.{
  Agreement, side, audit, tell, user_of, same_side, refuse, answered, agreed,
}
use grainlify_bounty_agent.Funded.Carry.{proposal_of, carry_out}

abbrev pub accept_by : ℕ → String → Option String → Proposal → Proposal
accept_by now login response p = record p {
  status = accepted;
  responder_login = some login;
  response = response;
  responded_at = some now;
}

abbrev pub refuse_by : ℕ → String → String → Proposal → Proposal
refuse_by now login response p = record p {
  status = refused;
  responder_login = some login;
  response = some response;
  responded_at = some now;
}

abbrev pub did_agree : FundedTables × (Bool × Bool) → FundedTables × Agreement
did_agree (t, (out, waits)) = (t, agreed out waits)

abbrev pub answer :
    FundedEnv
    → FundedRow
    → AssignmentRow
    → Proposal
    → String
    → Bool
    → String
    → FundedTables
    → FundedTables × Agreement
answer e b a p login true response t = did_agree (
    carry_out e p.id (
      audit login unassign_acceptance p.bounty_id (
        set_proposal p.id (accept_by e.base.now login (truthy (some (e.base.cut_text response))))
          t)))
answer e b a p login false response t =
    if text_eq (e.base.trim response) "" then (t, refuse response_required) else (
      tell (user_of b a p.proposed_by) (unassign_refused p.id) (
          audit login unassign_refusal p.bounty_id
            (set_proposal p.id (refuse_by e.base.now login (e.base.cut_text response)) t)),
      answered,
    )

abbrev pub respond_side :
    FundedEnv
    → FundedRow
    → AssignmentRow
    → Proposal
    → String
    → Bool
    → String
    → FundedTables
    → Option Side
    → FundedTables × Agreement
respond_side e b a p login accept response t none = (t, refuse not_the_other_side)
respond_side e b a p login accept response t (some s) =
    if same_side s p.proposed_by
    then (t, refuse not_the_other_side)
    else answer e b a p login accept response t

abbrev pub respond_holder :
    FundedEnv
    → FundedRow
    → Proposal
    → String
    → ℕ
    → Bool
    → String
    → FundedTables
    → Option AssignmentRow
    → FundedTables × Agreement
respond_holder e b p login user accept response t none = (t, refuse assignment_changed)
respond_holder e b p login user accept response t (some a) =
    if not (a.id == p.assignment_id)
    then (t, refuse assignment_changed)
    else respond_side e b a p login accept response t (side e b a login user)

abbrev pub respond_row :
    FundedEnv
    → Proposal
    → String
    → ℕ
    → Bool
    → String
    → FundedTables
    → Option FundedRow
    → FundedTables × Agreement
respond_row e p login user accept response t none = (t, refuse not_a_funded_bounty)
respond_row e p login user accept response t (some b) =
    respond_holder e b p login user accept response t (live p.bounty_id t)

abbrev pub respond_to :
    FundedEnv
    → String
    → ℕ
    → Bool
    → String
    → FundedTables
    → Option Proposal
    → FundedTables × Agreement
respond_to e login user accept response t none = (t, refuse no_such_proposal)
respond_to e login user accept response t (some p) =
    if not (is_pending p.status)
    then (t, refuse not_pending)
    else respond_row e p login user accept response t (row p.bounty_id t)

unfoldable pub respond :
    FundedEnv → ℕ → String → ℕ → Bool → String → FundedTables → FundedTables × Agreement
unfolding enqueue_event carry_out
respond e proposal login user accept response t =
    respond_to e login user accept response t (proposal_of proposal t)
