-- ===== src/Funded/Carry.antt =====
-- carryOut of apps/agent/src/funded-service.ts: an agreed proposal is carried out.
use grainlify_bounty_agent.Base.{
  ℕ, ◌==◌, Bool, true, false, not, Option, none, some, if◌then◌else◌, Result, ok, err, String,
  first,
}
use grainlify_bounty_agent.DrawService.Tables.{AssignmentRow, enqueue_event, is_pr_submitted}
use grainlify_bounty_agent.Funded.Tables.{
  FundedTables, FundedEnv, FundedRow, Attestor, Proposal, unassign_from, row, live, is_draw,
  is_assigned_escrow, set_escrow, ask,
}
use grainlify_bounty_agent.Funded.Escrow.{record_unassigned}
use grainlify_bounty_agent.Funded.Unassign.{release}

abbrev pub proposal_of : ℕ → FundedTables → Option Proposal
proposal_of id t = first (λ (p : Proposal). p.id == id) t.proposals

-- The reason has a fixed text before it.
abbrev pub carried :
    FundedEnv → FundedRow → AssignmentRow → Proposal → FundedTables → FundedTables × (Bool × Bool)
carried e b a p t = (release e.base.now b a "agreed" p.reason (some p.id) false t, (true, false))

abbrev pub carry_signed :
    FundedEnv
    → FundedRow
    → AssignmentRow
    → Proposal
    → FundedTables
    → Result String String
    → FundedTables × (Bool × Bool)
carry_signed e b a p t (err failure) =
    (set_escrow b.bounty.id (λ x. record x { last_error = some failure }) t, (false, false))
carry_signed e b a p t (ok signature) =
    carried e b a p (record_unassigned e.base.now b.bounty.id (some signature) t)

abbrev pub carry_by_attestor :
    FundedEnv
    → FundedRow
    → AssignmentRow
    → Proposal
    → FundedTables
    → Option Attestor
    → FundedTables × (Bool × Bool)
carry_by_attestor e b a p t none = (t, (false, false))
carry_by_attestor e b a p t (some attestor) =
    carry_signed e b a p
      (ask (unassign_from b.escrow.escrow_pubkey a.id (is_pr_submitted a.status)) t)
      (attestor.unassign b.escrow.escrow_pubkey)

abbrev pub carry_holder :
    FundedEnv
    → FundedRow
    → Proposal
    → FundedTables
    → Option AssignmentRow
    → FundedTables × (Bool × Bool)
carry_holder e b p t none = (t, (false, false))
carry_holder e b p t (some a) =
    if not (a.id == p.assignment_id)
    then (t, (false, false))
    else if not (is_assigned_escrow b.escrow.state)
    then carried e b a p t
    else if not (is_draw b.escrow.assignment_mode)
    then (t, (false, true))
    else carry_by_attestor e b a p t e.attestor

abbrev pub carry_row :
    FundedEnv → Proposal → FundedTables → Option FundedRow → FundedTables × (Bool × Bool)
carry_row e p t none = (t, (false, false))
carry_row e p t (some b) = carry_holder e b p t (live p.bounty_id t)

abbrev pub carry_proposal :
    FundedEnv → FundedTables → Option Proposal → FundedTables × (Bool × Bool)
carry_proposal e t none = (t, (false, false))
carry_proposal e t (some p) = carry_row e p t (row p.bounty_id t)

-- Whether it is carried out, and whether it waits for the funder's signature. A proposal has a bounty with
-- an escrow; it throws where there is none.
unfoldable pub carry_out : FundedEnv → ℕ → FundedTables → FundedTables × (Bool × Bool)
unfolding enqueue_event
carry_out e id t = carry_proposal e t (proposal_of id t)
