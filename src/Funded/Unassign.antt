-- ===== src/Funded/Unassign.antt =====
-- How an assignment of a funded bounty ends in apps/agent/src/funded-service.ts: unassign, unassignConfirm,
-- agreedProposal and release.
use grainlify_bounty_agent.Base.{
  ℕ, ◌==◌, Bool, true, false, not, ◌&&◌, Option, none, some, List, [], ◌∷◌, if◌then◌else◌, Result,
  ok, err, String, text_eq, update_where,
}
use grainlify_bounty_agent.DrawService.Tables.{
  Tables, AssignmentRow, ApplicationRow, released_voluntary, lost, unassigned,
  assignment_unassigned, enqueue_event, log, is_won, is_pr_submitted, set_bounty, set_assignment,
}
use grainlify_bounty_agent.Funded.Tables.{
  FundedTables, FundedEnv, FundedError, FundedRow, Attestor, ChainEscrow, ChainState, is_funded,
  Proposal, unassign_prepared, unassign_from, attestor_not_configured, no_active_assignment,
  pr_open, attestor_failed, not_unassigned_on_chain, with_core, as_funder, live, is_draw, is_agreed,
  is_assigned_escrow, set_proposal, ask,
}
use grainlify_bounty_agent.Funded.Escrow.{escrow_event, record_unassigned}

pub data Ended : Type 0 where
  refuse : FundedError → Ended
  ended : String → Ended
  ended_without_agreement already : Ended
  to_sign : String → Ended

-- The newest proposal about this assignment that was agreed on and not carried out; a later row is newer.
abbrev pub is_owed : ℕ → Proposal → Bool
is_owed assignment p =
    p.assignment_id == assignment
    && (is_agreed p.status && elim p.carried_out_at [ none ↦ true | some at ↦ false ])

abbrev pub last : (Proposal → Bool) → List Proposal → Option Proposal
last q [] = none
last q (p ∷ ps) =
    let rest = last q ps in
    elim rest [ some newer ↦ some newer | none ↦ if q p then some p else none ]

abbrev pub agreed_proposal : ℕ → FundedTables → Option Proposal
agreed_proposal assignment t = last (is_owed assignment) t.proposals

abbrev pub said : Bool → String → String
said directly reason =
    if not (text_eq reason "")
    then reason
    else if directly
    then "The funder unassigned this on-chain, without going through Grainlify."
    else "No reason was given."

abbrev pub end_assignment : ℕ → String → String → Bool → AssignmentRow → AssignmentRow
end_assignment now reason actor directly a = record a {
  status = released_voluntary;
  released_at = some now;
  release_reason = some (said directly reason);
  released_by = some actor;
  counts_as_abandon = false;
  unassigned_on_chain_directly = directly;
}

abbrev pub put_back : ℕ → ℕ → Tables → Tables
put_back bounty user c = record c {
  applications =
      update_where
        (λ (a : ApplicationRow).
          a.bounty_id == bounty && (a.github_user_id == user && is_won a.status))
        (λ a. record a { status = lost }) c.applications;
}

abbrev pub exclude : FundedRow → String → Tables → Tables
exclude b login c =
    if is_draw b.escrow.assignment_mode
    then set_bounty b.bounty.id (λ r. record r { exclude_login_next_draw = some login }) c
    else c

abbrev pub carry_out_now : ℕ → Proposal → Proposal
carry_out_now now p = record p { carried_out_at = some now }

abbrev pub mark_carried_out : ℕ → Option ℕ → FundedTables → FundedTables
mark_carried_out now none t = t
mark_carried_out now (some proposal) t = set_proposal proposal (carry_out_now now) t

-- The assignment ends here; the chain has been dealt with by the caller.
abbrev pub release :
    ℕ → FundedRow → AssignmentRow → String → String → Option ℕ → Bool → FundedTables → FundedTables
release now b a actor reason proposal directly t =
    let c1 = set_assignment a.id (end_assignment now reason actor directly) t.core in
    let c2 = exclude b a.github_login (put_back b.bounty.id a.github_user_id c1) in
    let t1 = mark_carried_out now proposal (with_core c2 t) in
    with_core
      (enqueue_event a.github_user_id (unassigned a.id) false
        (log actor assignment_unassigned b.bounty.id (some (said directly reason)) t1.core)).0
      t1

abbrev pub id_of : Option Proposal → Option ℕ
id_of none = none
id_of (some p) = some p.id

-- reason.trim() || (agreed ? agreed.reason : '')
abbrev pub why : FundedEnv → String → Option Proposal → String
why e reason none = e.base.trim reason
why e reason (some p) = if text_eq (e.base.trim reason) "" then p.reason else e.base.trim reason

abbrev pub signed_off :
    FundedEnv
    → FundedRow
    → AssignmentRow
    → String
    → String
    → Option Proposal
    → FundedTables
    → Result String String
    → FundedTables × Ended
signed_off e b a login reason agreed t (err failure) = (t, refuse attestor_failed)
signed_off e b a login reason agreed t (ok signature) = (
  release e.base.now b a login (why e reason agreed) (id_of agreed) false
      (record_unassigned e.base.now b.bounty.id (some signature) t),
  ended a.github_login,
)

abbrev pub by_attestor :
    FundedEnv
    → FundedRow
    → AssignmentRow
    → String
    → String
    → Option Proposal
    → FundedTables
    → Option Attestor
    → FundedTables × Ended
by_attestor e b a login reason agreed t none = (t, refuse attestor_not_configured)
by_attestor e b a login reason agreed t (some attestor) =
    signed_off e b a login reason agreed
      (ask (unassign_from b.escrow.escrow_pubkey a.id (is_pr_submitted a.status)) t)
      (attestor.unassign b.escrow.escrow_pubkey)

abbrev pub end_by_funder :
    FundedEnv
    → FundedRow
    → AssignmentRow
    → String
    → String
    → Option Proposal
    → FundedTables
    → FundedTables × Ended
end_by_funder e b a login reason agreed t =
    if not (is_assigned_escrow b.escrow.state)
    then (
      release e.base.now b a login (why e reason agreed) (id_of agreed) false t,
      ended a.github_login,
    )
    else if is_draw b.escrow.assignment_mode
    then by_attestor e b a login reason agreed t e.attestor
    else (
      escrow_event e.base.now b.escrow.id unassign_prepared none (why e reason agreed) t,
      to_sign a.github_login,
    )

abbrev pub has : Option Proposal → Bool
has none = false
has (some p) = true

abbrev pub unassign_holder :
    FundedEnv
    → FundedRow
    → String
    → String
    → FundedTables
    → Option AssignmentRow
    → FundedTables × Ended
unassign_holder e b login reason t none = (t, refuse no_active_assignment)
unassign_holder e b login reason t (some a) =
    if is_pr_submitted a.status && not (has (agreed_proposal a.id t))
    then (t, refuse pr_open)
    else end_by_funder e b a login reason (agreed_proposal a.id t) t

abbrev pub unassign_row :
    FundedEnv
    → ℕ
    → String
    → String
    → FundedTables
    → Result FundedError FundedRow
    → FundedTables × Ended
unassign_row e bounty login reason t (err refusal) = (t, refuse refusal)
unassign_row e bounty login reason t (ok b) = unassign_holder e b login reason t (live bounty t)

unfoldable pub unassign : FundedEnv → ℕ → String → String → FundedTables → FundedTables × Ended
unfolding enqueue_event
unassign e bounty login reason t = unassign_row e bounty login reason t (as_funder e bounty login t)

abbrev pub is_funded_chain : ChainState → Bool
is_funded_chain is_funded = true
is_funded_chain _ = false

-- The chain names nobody: the escrow is there, in state Funded.
abbrev pub names_nobody : Option ChainEscrow → Bool
names_nobody none = false
names_nobody (some chain) =
    is_funded_chain chain.state && elim chain.contributor [ none ↦ true | some c ↦ false ]

abbrev pub end_signed :
    FundedEnv
    → FundedRow
    → AssignmentRow
    → String
    → String
    → String
    → FundedTables
    → Option Proposal
    → FundedTables × Ended
end_signed e b a login reason signature t agreed =
    if is_pr_submitted a.status && not (has agreed)
    then (
      release e.base.now b a login (e.base.trim reason) none true
          (record_unassigned e.base.now b.bounty.id (some signature) t),
      ended_without_agreement,
    )
    else (
      release e.base.now b a login (why e reason agreed) (id_of agreed) false
          (record_unassigned e.base.now b.bounty.id (some signature) t),
      ended a.github_login,
    )

abbrev pub confirm_holder :
    FundedEnv
    → FundedRow
    → String
    → String
    → String
    → FundedTables
    → Option AssignmentRow
    → FundedTables × Ended
confirm_holder e b login reason signature t none = (t, already)
confirm_holder e b login reason signature t (some a) =
    if not (names_nobody (e.read_chain b.escrow.escrow_pubkey))
    then (t, refuse not_unassigned_on_chain)
    else end_signed e b a login reason signature t (agreed_proposal a.id t)

abbrev pub unassign_confirm_row :
    FundedEnv
    → ℕ
    → String
    → String
    → String
    → FundedTables
    → Result FundedError FundedRow
    → FundedTables × Ended
unassign_confirm_row e bounty login reason signature t (err refusal) = (t, refuse refusal)
unassign_confirm_row e bounty login reason signature t (ok b) =
    confirm_holder e b login reason signature t (live bounty t)

unfoldable pub unassign_confirm :
    FundedEnv → ℕ → String → String → String → FundedTables → FundedTables × Ended
unfolding enqueue_event
unassign_confirm e bounty login reason signature t =
    unassign_confirm_row e bounty login reason signature t (as_funder e bounty login t)
