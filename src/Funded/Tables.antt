-- ===== src/Funded/Tables.antt =====
-- The tables that apps/agent/src/funded-service.ts adds to those of the draw service, what it asks of the
-- chain and of the attestor, and its helpers. Transactions for a wallet, payloads and texts are left out.
use grainlify_bounty_agent.Base.{
  ℕ, ◌==◌, Bool, true, false, not, ◌||◌, ◌&&◌, Option, none, some, List, [], ◌∷◌, ◌++◌,
  if◌then◌else◌, Result, ok, err, String, text_eq, any, first, update_where,
}
use grainlify_bounty_agent.Draw.Config.{bool_of}
use grainlify_bounty_agent.DrawService.Tables.{
  Tables, BountyRow, AssignmentRow, WalletLink, holder_of, bounty_of,
}
use grainlify_bounty_agent.DrawService.Settings.{overrides}
use grainlify_bounty_agent.DrawService.Apply.{Env}

pub data AssignmentMode : Type 0 where
  draw self_assign : AssignmentMode

pub data EscrowState : Type 0 where
  funding funded assigned refunded failed : EscrowState

pub record EscrowRow : Type 0 where
  pub id : ℕ
  pub bounty_id : ℕ
  pub escrow_pubkey : String
  pub funder_wallet : String
  pub contributor_wallet : Option String
  pub assignment_mode : AssignmentMode
  pub state : EscrowState
  pub deadline_at : ℕ
  pub amount_minor : ℕ
  pub fee_amount_minor : ℕ
  pub fund_tx : Option String
  pub assign_tx : Option String
  pub last_error : Option String

pub data EscrowEventKind : Type 0 where
  was_funded was_assigned was_unassigned was_refunded assign_prepared unassign_prepared :
      EscrowEventKind

-- Of the detail, only the reason is read again.
pub record EscrowEvent : Type 0 where
  pub escrow_id : ℕ
  pub kind : EscrowEventKind
  pub tx : Option String
  pub reason : String
  pub created_at : ℕ

pub data Side : Type 0 where
  funder contributor : Side

pub data ProposalStatus : Type 0 where
  pending accepted accepted_by_silence refused withdrawn : ProposalStatus

pub record Proposal : Type 0 where
  pub id : ℕ
  pub bounty_id : ℕ
  pub assignment_id : ℕ
  pub proposed_by : Side
  pub proposer_login : String
  pub reason : String
  pub created_at : ℕ
  pub respond_by : ℕ
  pub status : ProposalStatus
  pub responder_login : Option String
  pub response : Option String
  pub responded_at : Option ℕ
  pub carried_out_at : Option ℕ
  pub left_to_deadline_by : Option String

pub record ConductNote : Type 0 where
  pub funder_login : String
  pub bounty_id : ℕ
  pub note : String
  pub recorded_by : String

-- What the attestor was asked to sign: with whom it was about, and whether their pull request was open.
pub data Request : Type 0 where
  assign_to : String → String → Request
  unassign_from : String → ℕ → Bool → Request

-- `requests` is the outgoing traffic to the attestor, in order.
pub record FundedTables : Type 0 where
  pub core : Tables
  pub escrows : List EscrowRow
  pub escrow_events : List EscrowEvent
  pub proposals : List Proposal
  pub conduct_notes : List ConductNote
  pub requests : List Request
  pub payouts_under_way : List ℕ

pub data ChainState : Type 0 where
  is_funded is_assigned is_other : ChainState

-- An escrow as the chain holds it.
pub record ChainEscrow : Type 0 where
  pub state : ChainState
  pub contributor : Option String
  pub ever_assigned : Bool
  pub amount : ℕ
  pub fee_amount : ℕ

-- The attestor answers with a signature or an error.
pub record Attestor : Type 0 where
  pub assign : String → String → Result String String
  pub unassign : String → Result String String

pub record FundedEnv : Type 0 where
  pub base : Env
  pub testers : List String
  pub attestor : Option Attestor
  pub read_chain : String → Option ChainEscrow

pub data FundedError : Type 0 where
  not_a_funded_bounty funded_bounties_disabled not_the_funder no_escrow not_awaiting_funding :
      FundedError
  escrow_not_on_chain terms_mismatch escrow_closed not_yet escrow_still_open draw_mode
        self_assign_mode :
      FundedError
  not_open already_assigned escrow_not_ready not_an_applicant no_linked_wallet
        not_assigned_on_chain :
      FundedError
  attestor_not_configured no_applicants no_active_assignment pr_open attestor_failed : FundedError
  not_unassigned_on_chain not_a_party no_pr_open reason_required proposal_pending no_such_proposal :
      FundedError
  not_pending assignment_changed not_the_other_side response_required not_withdrawable : FundedError
  no_such_dispute note_required not_waivable : FundedError

-- The bounty with its escrow.
pub record FundedRow : Type 0 where
  pub bounty : BountyRow
  pub funded_by : String
  pub escrow : EscrowRow

abbrev pub with_core : Tables → FundedTables → FundedTables
with_core c t = record t { core = c }

abbrev pub escrow_of : ℕ → FundedTables → Option EscrowRow
escrow_of bounty t = first (λ (x : EscrowRow). x.bounty_id == bounty) t.escrows

abbrev pub join : Option EscrowRow → BountyRow → Option String → Option FundedRow
join (some x) b (some by) = some (record { bounty = b; funded_by = by; escrow = x })
join (some x) b none = none
join none b by = none

abbrev pub joined : Option BountyRow → Option EscrowRow → Option FundedRow
joined none x = none
joined (some b) x = join x b b.funded_by

abbrev pub row : ℕ → FundedTables → Option FundedRow
row bounty t = joined (bounty_of bounty t.core) (escrow_of bounty t)

-- The stored switch, or a tester's login.
unfoldable pub enabled_for : FundedEnv → FundedTables → String → Bool
unfolding overrides
enabled_for e t login =
    bool_of (overrides t.core "funded_bounties_enabled") false
    || any (λ tester. text_eq (e.base.lower tester) (e.base.lower login)) e.testers

abbrev pub is_funder : FundedEnv → FundedRow → String → Bool
is_funder e b login = text_eq (e.base.lower b.funded_by) (e.base.lower login)

abbrev pub funder_row :
    FundedEnv → FundedTables → String → Option FundedRow → Result FundedError FundedRow
funder_row e t login none = err not_a_funded_bounty
funder_row e t login (some b) =
    if not (enabled_for e t login)
    then err funded_bounties_disabled
    else if not (is_funder e b login)
    then err not_the_funder
    else ok b

abbrev pub as_funder : FundedEnv → ℕ → String → FundedTables → Result FundedError FundedRow
as_funder e bounty login t = funder_row e t login (row bounty t)

abbrev pub live : ℕ → FundedTables → Option AssignmentRow
live bounty t = holder_of bounty t.core

abbrev pub address_of : Option WalletLink → Option String
address_of none = none
address_of (some w) = some w.address

abbrev pub wallet_of : ℕ → FundedTables → Option String
wallet_of user t =
    address_of
      (first (λ (w : WalletLink). w.github_user_id == user && not w.revoked) t.core.wallets)

abbrev pub is_pending : ProposalStatus → Bool
is_pending pending = true
is_pending _ = false

abbrev pub is_refused : ProposalStatus → Bool
is_refused refused = true
is_refused _ = false

-- status IN ('accepted','accepted_by_silence')
abbrev pub is_agreed : ProposalStatus → Bool
is_agreed accepted = true
is_agreed accepted_by_silence = true
is_agreed _ = false

abbrev pub is_draw : AssignmentMode → Bool
is_draw draw = true
is_draw self_assign = false

abbrev pub is_assigned_escrow : EscrowState → Bool
is_assigned_escrow assigned = true
is_assigned_escrow _ = false

abbrev pub is_funded_escrow : EscrowState → Bool
is_funded_escrow funded = true
is_funded_escrow _ = false

abbrev pub set_escrow : ℕ → (EscrowRow → EscrowRow) → FundedTables → FundedTables
set_escrow bounty f t = record t {
  escrows = update_where (λ (x : EscrowRow). x.bounty_id == bounty) f t.escrows;
}

abbrev pub set_proposal : ℕ → (Proposal → Proposal) → FundedTables → FundedTables
set_proposal id f t = record t {
  proposals = update_where (λ (p : Proposal). p.id == id) f t.proposals;
}

abbrev pub ask : Request → FundedTables → FundedTables
ask r t = record t { requests = t.requests ++ r ∷ [] }
