-- ===== src/Funded/Assign.antt =====
-- The assignment of a funded bounty in apps/agent/src/funded-service.ts: assignPrepare, assignConfirm and
-- recordAssignment.
use grainlify_bounty_agent.Base.{
  ℕ, suc, ◌==◌, Bool, true, false, not, ◌&&◌, Option, none, some, [], ◌∷◌, ◌++◌, if◌then◌else◌,
  Result, ok, err, String, text_eq, first, update_where,
}
use grainlify_bounty_agent.DrawService.Tables.{
  Tables, AssignmentRow, ApplicationRow, active, won, funded_assigned, assignment_funder_assigned,
  enqueue_event, log, is_posted, is_drawable,
}
use grainlify_bounty_agent.Funded.Tables.{
  FundedTables, FundedEnv, FundedError, FundedRow, ChainEscrow, assign_prepared, escrow_not_ready,
  not_open, already_assigned, draw_mode, not_an_applicant, no_linked_wallet, not_assigned_on_chain,
  with_core, as_funder, live, wallet_of, is_draw, is_funded_escrow,
}
use grainlify_bounty_agent.Funded.Escrow.{escrow_event, record_assigned}
use grainlify_bounty_agent.Funded.Open.{Answer, is_assigned_chain, refuse, to_sign, assigned_to}

abbrev pub applied_as : FundedEnv → ℕ → String → ApplicationRow → Bool
applied_as e bounty login a =
    a.bounty_id == bounty && text_eq (e.base.lower a.github_login) (e.base.lower login)

abbrev pub prepare_for :
    FundedEnv → FundedRow → FundedTables → Option ApplicationRow → FundedTables × Answer
prepare_for e b t none = (t, refuse not_an_applicant)
prepare_for e b t (some a) = elim (wallet_of a.github_user_id t) [
  | none ↦ (t, refuse no_linked_wallet)
  | some wallet ↦ (escrow_event e.base.now b.escrow.id assign_prepared none "" t, to_sign wallet)
]

abbrev pub is_held : ℕ → FundedTables → Bool
is_held bounty t = elim (live bounty t) [ none ↦ false | some a ↦ true ]

abbrev pub prepare_row :
    FundedEnv → ℕ → String → FundedTables → Result FundedError FundedRow → FundedTables × Answer
prepare_row e bounty applicant t (err why) = (t, refuse why)
prepare_row e bounty applicant t (ok b) =
    if is_draw b.escrow.assignment_mode
    then (t, refuse draw_mode)
    else if not (is_posted b.bounty.status)
    then (t, refuse not_open)
    else if is_held bounty t
    then (t, refuse already_assigned)
    else if not (is_funded_escrow b.escrow.state)
    then (t, refuse escrow_not_ready)
    else prepare_for e b t
        (first (λ a. applied_as e bounty applicant a && is_drawable a.status) t.core.applications)

unfoldable pub assign_prepare :
    FundedEnv → ℕ → String → String → FundedTables → FundedTables × Answer
assign_prepare e bounty login applicant t =
    prepare_row e bounty applicant t (as_funder e bounty login t)

abbrev pub new_assignment : ℕ → FundedRow → ℕ → ApplicationRow → AssignmentRow
new_assignment now b id a = record {
  id = id;
  bounty_id = b.bounty.id;
  draw_id = none;
  github_user_id = a.github_user_id;
  github_login = a.github_login;
  status = active;
  assigned_at = now;
  stale_at = b.escrow.deadline_at;
  qualifying_pr_number = none;
  released_at = none;
  release_reason = none;
  released_by = none;
  counts_as_abandon = false;
  unassigned_on_chain_directly = false;
}

abbrev pub mark_won : ℕ → ℕ → Tables → Tables
mark_won bounty user c = record c {
  applications =
      update_where (λ (a : ApplicationRow). a.bounty_id == bounty && a.github_user_id == user)
        (λ a. record a { status = won }) c.applications;
}

-- Called where nobody holds the bounty.
abbrev pub record_assignment :
    ℕ → FundedRow → ApplicationRow → String → Option String → String → FundedTables → FundedTables
record_assignment now b a wallet tx actor t =
    let id = suc t.core.seq in
    let c = record t.core {
      assignments = t.core.assignments ++ new_assignment now b id a ∷ [];
      seq = id;
    } in
    let t1 =
      record_assigned now b.bounty.id wallet tx
        (with_core (mark_won b.bounty.id a.github_user_id c) t) in
    with_core
      (enqueue_event a.github_user_id (funded_assigned id) false
        (log actor assignment_funder_assigned b.bounty.id none t1.core)).0
      t1

abbrev pub names : Option String → Option String → Bool
names (some contributor) (some wallet) = text_eq contributor wallet
names none wallet = false
names (some contributor) none = false

-- What the chain says of the escrow: it names this wallet.
abbrev pub chain_names : Option ChainEscrow → Option String → Bool
chain_names none wallet = false
chain_names (some chain) wallet = is_assigned_chain chain.state && names chain.contributor wallet

abbrev pub record_if_named :
    FundedEnv
    → FundedRow
    → ApplicationRow
    → String
    → String
    → FundedTables
    → Option String
    → FundedTables × Answer
record_if_named e b a login signature t none = (t, refuse not_assigned_on_chain)
record_if_named e b a login signature t (some wallet) =
    if not (chain_names (e.read_chain b.escrow.escrow_pubkey) (some wallet))
    then (t, refuse not_assigned_on_chain)
    else (
      record_assignment e.base.now b a wallet (some signature) login t,
      assigned_to a.github_login false,
    )

abbrev pub confirm_applicant :
    FundedEnv
    → FundedRow
    → String
    → String
    → FundedTables
    → ApplicationRow
    → Option AssignmentRow
    → FundedTables × Answer
confirm_applicant e b login signature t a (some held) =
    if held.github_user_id == a.github_user_id
    then (t, assigned_to held.github_login true)
    else (t, refuse already_assigned)
confirm_applicant e b login signature t a none =
    record_if_named e b a login signature t (wallet_of a.github_user_id t)

abbrev pub confirm_assignment :
    FundedEnv
    → ℕ
    → String
    → String
    → FundedTables
    → FundedRow
    → Option ApplicationRow
    → FundedTables × Answer
confirm_assignment e bounty login signature t b none = (t, refuse not_an_applicant)
confirm_assignment e bounty login signature t b (some a) =
    confirm_applicant e b login signature t a (live bounty t)

abbrev pub assign_confirm_row :
    FundedEnv
    → ℕ
    → String
    → String
    → String
    → FundedTables
    → Result FundedError FundedRow
    → FundedTables × Answer
assign_confirm_row e bounty login applicant signature t (err why) = (t, refuse why)
assign_confirm_row e bounty login applicant signature t (ok b) =
    confirm_assignment e bounty login signature t b
      (first (applied_as e bounty applicant) t.core.applications)

unfoldable pub assign_confirm :
    FundedEnv → ℕ → String → String → String → FundedTables → FundedTables × Answer
unfolding enqueue_event
assign_confirm e bounty login applicant signature t =
    assign_confirm_row e bounty login applicant signature t (as_funder e bounty login t)
