-- ===== src/Funded/Reconcile.antt =====
-- `reconcile` of apps/agent/src/funded-service.ts: the tables are brought into line with the chain.
use grainlify_bounty_agent.Base.{
  ℕ, ◌+◌, ◌*◌, ◌==◌, Bool, true, false, not, ◌||◌, ◌&&◌, Option, none, some, List, [], ◌∷◌, leb,
  if◌then◌else◌, String, text_eq, any, first, Result, ok, err,
}
use grainlify_bounty_agent.DrawService.Tables.{
  BountyRow, BountyStatus, AssignmentRow, ApplicationRow, WalletLink,
  bounty_escrow_closed_by_funder, escrow_assigned_to_unknown, enqueue_event, is_pr_submitted,
  set_bounty,
}
use grainlify_bounty_agent.Funded.Tables.{
  FundedTables, FundedEnv, FundedError, escrow_still_open, as_funder, FundedRow, EscrowState,
  funded, assigned, EscrowEvent, EscrowEventKind, unassign_prepared, ChainEscrow, with_core, row,
  live, wallet_of, is_draw, is_assigned_escrow, is_funded_escrow, set_escrow,
}
use grainlify_bounty_agent.Funded.Escrow.{record_assigned, record_unassigned, record_closed}
use grainlify_bounty_agent.Funded.Assign.{record_assignment}
use grainlify_bounty_agent.Funded.Attest.{attest_assign}
use grainlify_bounty_agent.Funded.Unassign.{agreed_proposal, release}
use grainlify_bounty_agent.Funded.Propose.{audit}

pub data What : Type 0 where
  was_refunded was_cancelled assign_recorded assigned_to_unknown assigned_outside : What
  assign_retried unassign_recorded unassigned_outside : What

-- PREPARED_WINDOW_MS
abbrev pub prepared_window : ℕ
prepared_window = 30 * 60000

abbrev pub is_unassign_prepared : EscrowEventKind → Bool
is_unassign_prepared unassign_prepared = true
is_unassign_prepared _ = false

abbrev pub is_recent : ℕ → ℕ → EscrowEvent → Bool
is_recent now escrow v =
    v.escrow_id == escrow
    && (is_unassign_prepared v.kind && leb now (v.created_at + prepared_window))

-- A later row is newer.
abbrev pub newest : (EscrowEvent → Bool) → List EscrowEvent → Option EscrowEvent
newest q [] = none
newest q (v ∷ vs) =
    let rest = newest q vs in
    elim rest [ some later ↦ some later | none ↦ if q v then some v else none ]

abbrev pub prepared_recently : ℕ → ℕ → FundedTables → Option EscrowEvent
prepared_recently now escrow t = newest (is_recent now escrow) t.escrow_events

abbrev pub ever_assigned : ℕ → FundedTables → Bool
ever_assigned bounty t = any (λ (a : AssignmentRow). a.bounty_id == bounty) t.core.assignments

abbrev pub release_any : ℕ → FundedRow → Option AssignmentRow → FundedTables → FundedTables
release_any now b none t = t
release_any now b (some a) t =
    release now b a b.funded_by "The funder took the escrow back after its deadline." none false t

abbrev pub set_status : ℕ → BountyStatus → FundedTables → FundedTables
set_status bounty status t =
    with_core (set_bounty bounty (λ r. record r { status = status }) t.core) t

-- Closed, and not by a release that is under way.
abbrev pub closed : ℕ → FundedRow → Option AssignmentRow → FundedTables → FundedTables × Option What
closed now b held t = if any (λ n. n == b.bounty.id) t.payouts_under_way then (t, none) else (
  audit "agent" bounty_escrow_closed_by_funder b.bounty.id (
      release_any now b held (
        set_status b.bounty.id
          (if ever_assigned b.bounty.id t then BountyStatus.expired else BountyStatus.cancelled)
          (record_closed now b.bounty.id t))),
  some (if ever_assigned b.bounty.id t then was_refunded else was_cancelled),
)

abbrev pub or_wallet : Option String → Option String → Option String
or_wallet none wallet = wallet
or_wallet (some w) wallet = some w

abbrev pub is_wallet : String → Option String → Bool
is_wallet named none = false
is_wallet named (some w) = text_eq w named

-- The chain names the holder's wallet, and the escrow's row does not say so yet.
abbrev pub named_holder :
    ℕ → FundedRow → AssignmentRow → String → FundedTables → FundedTables × Option What
named_holder now b a named t =
    if not (is_assigned_escrow b.escrow.state)
      && is_wallet named (or_wallet b.escrow.contributor_wallet (wallet_of a.github_user_id t))
    then (record_assigned now b.bounty.id named none t, some assign_recorded)
    else (t, none)

abbrev pub applied_with : ℕ → String → FundedTables → ApplicationRow → Bool
applied_with bounty named t a =
    a.bounty_id == bounty
    && any
        (λ (w : WalletLink).
          w.github_user_id == a.github_user_id && (not w.revoked && text_eq w.address named))
        t.core.wallets

abbrev pub named_applicant :
    ℕ → FundedRow → String → FundedTables → Option ApplicationRow → FundedTables × Option What
named_applicant now b named t none = (
  audit "agent" escrow_assigned_to_unknown b.bounty.id (
      set_escrow b.bounty.id
        (λ x. record x { last_error = some "assigned on-chain to somebody who has not applied" })
        t),
  some assigned_to_unknown,
)
named_applicant now b named t (some a) =
    (record_assignment now b a named none b.funded_by t, some assigned_outside)

abbrev pub named_on_chain :
    ℕ → FundedRow → String → FundedTables → Option AssignmentRow → FundedTables × Option What
named_on_chain now b named t (some a) = named_holder now b a named t
named_on_chain now b named t none =
    named_applicant now b named t (first (applied_with b.bounty.id named t) t.core.applications)

abbrev pub nobody_held : ℕ → FundedRow → FundedTables → FundedTables × Option What
nobody_held now b t =
    if is_assigned_escrow b.escrow.state
    then (record_unassigned now b.bounty.id none t, none)
    else (t, none)

abbrev pub retry_assign :
    FundedEnv → FundedRow → FundedTables → Option String → FundedTables × Option What
retry_assign e b t none = (t, some assign_retried)
retry_assign e b t (some wallet) = ((attest_assign e b wallet e.attestor t).0, some assign_retried)

abbrev pub reason_of : Option EscrowEvent → String
reason_of none = ""
reason_of (some v) = v.reason

abbrev pub was_prepared : Option EscrowEvent → Bool
was_prepared none = false
was_prepared (some v) = true

abbrev pub agreed_id : ℕ → FundedTables → Option ℕ
agreed_id assignment t = elim (agreed_proposal assignment t) [ none ↦ none | some p ↦ some p.id ]

abbrev pub has_agreed : ℕ → FundedTables → Bool
has_agreed assignment t = elim (agreed_proposal assignment t) [ none ↦ false | some p ↦ true ]

abbrev pub unassigned_on_chain :
    ℕ → FundedRow → AssignmentRow → FundedTables → FundedTables × Option What
unassigned_on_chain now b a t =
    if was_prepared (prepared_recently now b.escrow.id t)
      && (not (is_pr_submitted a.status) || has_agreed a.id t)
    then (
      release now b a b.funded_by (reason_of (prepared_recently now b.escrow.id t))
          (agreed_id a.id t) false (record_unassigned now b.bounty.id none t),
      some unassign_recorded,
    )
    else (
      release now b a b.funded_by "" none true (record_unassigned now b.bounty.id none t),
      some unassigned_outside,
    )

-- The chain names nobody.
abbrev pub nobody_named :
    FundedEnv → FundedRow → FundedTables → Option AssignmentRow → FundedTables × Option What
nobody_named e b t none = nobody_held e.base.now b t
nobody_named e b t (some a) =
    if is_funded_escrow b.escrow.state && is_draw b.escrow.assignment_mode
    then retry_assign e b t (wallet_of a.github_user_id t)
    else if is_assigned_escrow b.escrow.state
    then unassigned_on_chain e.base.now b a t
    else (t, none)

abbrev pub by_contributor :
    FundedEnv → FundedRow → FundedTables → Option String → FundedTables × Option What
by_contributor e b t (some named) = named_on_chain e.base.now b named t (live b.bounty.id t)
by_contributor e b t none = nobody_named e b t (live b.bounty.id t)

abbrev pub by_chain :
    FundedEnv → FundedRow → FundedTables → Option ChainEscrow → FundedTables × Option What
by_chain e b t none = closed e.base.now b (live b.bounty.id t) t
by_chain e b t (some chain) = by_contributor e b t chain.contributor

abbrev pub reconcile_row : FundedEnv → FundedTables → Option FundedRow → FundedTables × Option What
reconcile_row e t none = (t, none)
reconcile_row e t (some b) = by_chain e b t (e.read_chain b.escrow.escrow_pubkey)

-- It throws where the bounty is not funded; it is called for funded ones.
unfoldable pub reconcile_one : FundedEnv → ℕ → FundedTables → FundedTables × Option What
unfolding enqueue_event
reconcile_one e bounty t = reconcile_row e t (row bounty t)

abbrev pub is_under_way : BountyStatus → Bool
is_under_way BountyStatus.posted = true
is_under_way BountyStatus.in_review = true
is_under_way BountyStatus.payable = true
is_under_way _ = false

abbrev pub is_open_escrow : EscrowState → Bool
is_open_escrow funded = true
is_open_escrow assigned = true
is_open_escrow _ = false

abbrev pub is_reconciled : FundedTables → BountyRow → Bool
is_reconciled t b =
    is_under_way b.status
    && elim (row b.id t) [ none ↦ false | some r ↦ is_open_escrow r.escrow.state ]

abbrev pub reconcile_all : FundedEnv → FundedTables → List BountyRow → FundedTables → FundedTables
reconcile_all e start [] t = t
reconcile_all e start (b ∷ bs) t =
    reconcile_all e start bs (if is_reconciled start b then (reconcile_one e b.id t).0 else t)

-- One bounty after the other; where one throws, the next goes on.
unfoldable pub reconcile : FundedEnv → FundedTables → FundedTables
unfolding reconcile_one
reconcile e t = reconcile_all e t t.core.bounties t

pub data Reclaimed : Type 0 where
  refused_reclaim : FundedError → Reclaimed
  reclaimed : What → Reclaimed

abbrev pub reclaimed_as : FundedTables × Option What → FundedTables × Reclaimed
reclaimed_as (t, some was_refunded) = (t, reclaimed was_refunded)
reclaimed_as (t, some was_cancelled) = (t, reclaimed was_cancelled)
reclaimed_as (t, _) = (t, refused_reclaim escrow_still_open)

abbrev pub reclaim_confirm_row :
    FundedEnv → ℕ → FundedTables → Result FundedError FundedRow → FundedTables × Reclaimed
reclaim_confirm_row e bounty t (err why) = (t, refused_reclaim why)
reclaim_confirm_row e bounty t (ok b) = reclaimed_as (reconcile_one e bounty t)

unfoldable pub reclaim_confirm : FundedEnv → ℕ → String → FundedTables → FundedTables × Reclaimed
unfolding reconcile_one
reclaim_confirm e bounty login t = reclaim_confirm_row e bounty t (as_funder e bounty login t)
