-- ===== src/Funded/Open.antt =====
-- The opening of a funded bounty in apps/agent/src/funded-service.ts: confirm and reclaim.
use grainlify_bounty_agent.Base.{
  ℕ, ◌==◌, Bool, true, false, not, ◌&&◌, Option, none, some, leb, if◌then◌else◌, Result, ok, err,
  String, any, update_where,
}
use grainlify_bounty_agent.DrawService.Tables.{BountyRow, BountyStatus, bounty_funded, log}
use grainlify_bounty_agent.Funded.Tables.{
  FundedTables, FundedEnv, FundedError, FundedRow, EscrowRow, ChainEscrow, ChainState, is_funded,
  is_assigned, escrow_closed, not_yet, with_core, as_funder,
}
use grainlify_bounty_agent.Funded.Escrow.{confirm_funding}

pub data Answer : Type 0 where
  refuse : FundedError → Answer
  already opened to_cancel to_refund : Answer
  to_sign : String → Answer
  assigned_to : String → Bool → Answer

abbrev pub is_funding : BountyStatus → Bool
is_funding BountyStatus.funding = true
is_funding _ = false

abbrev pub open_bounty : ℕ → ℕ → BountyRow → BountyRow
open_bounty now deadline b = record b {
  status = BountyStatus.posted;
  applications_open_at = some now;
  applications_close_at = some deadline;
}

abbrev pub open_if_funding :
    FundedEnv → String → FundedRow → Option String → FundedTables → FundedTables
open_if_funding e login b signature t =
    if any (λ (r : BountyRow). r.id == b.bounty.id && is_funding r.status) t.core.bounties
    then with_core
        (log login bounty_funded b.bounty.id signature (record t.core {
          bounties =
              update_where (λ (r : BountyRow). r.id == b.bounty.id && is_funding r.status)
                (open_bounty e.base.now b.escrow.deadline_at) t.core.bounties;
        }))
        t
    else t

abbrev pub confirmed :
    FundedEnv
    → String
    → FundedRow
    → Option String
    → FundedTables × Result FundedError String
    → FundedTables × Answer
confirmed e login b signature (t, err why) = (t, refuse why)
confirmed e login b signature (t, ok escrow) = (open_if_funding e login b signature t, opened)

abbrev pub confirm_row :
    FundedEnv
    → ℕ
    → String
    → Option String
    → FundedTables
    → Result FundedError FundedRow
    → FundedTables × Answer
confirm_row e bounty login signature t (err why) = (t, refuse why)
confirm_row e bounty login signature t (ok b) =
    if not (is_funding b.bounty.status)
    then (t, already)
    else confirmed e login b signature (confirm_funding e bounty signature t)

-- The comment on the issue is left out.
unfoldable pub confirm :
    FundedEnv → ℕ → String → Option String → FundedTables → FundedTables × Answer
unfolding confirm_funding
confirm e bounty login signature t =
    confirm_row e bounty login signature t (as_funder e bounty login t)

abbrev pub is_funded_chain : ChainState → Bool
is_funded_chain is_funded = true
is_funded_chain _ = false

abbrev pub is_assigned_chain : ChainState → Bool
is_assigned_chain is_assigned = true
is_assigned_chain _ = false

abbrev pub reclaim_chain : ℕ → EscrowRow → Option ChainEscrow → Answer
reclaim_chain now x none = refuse escrow_closed
reclaim_chain now x (some chain) =
    if not chain.ever_assigned && is_funded_chain chain.state
    then to_cancel
    else if leb x.deadline_at now
    then to_refund
    else refuse not_yet

abbrev pub reclaim_row : FundedEnv → Result FundedError FundedRow → Answer
reclaim_row e (err why) = refuse why
reclaim_row e (ok b) = reclaim_chain e.base.now b.escrow (e.read_chain b.escrow.escrow_pubkey)

-- Which transaction the funder may sign to take the escrow back.
unfoldable pub reclaim : FundedEnv → ℕ → String → FundedTables → Answer
reclaim e bounty login t = reclaim_row e (as_funder e bounty login t)
