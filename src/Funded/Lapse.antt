-- ===== src/Funded/Lapse.antt =====
-- The rest of a proposal's life in apps/agent/src/funded-service.ts: withdraw, expireProposals,
-- leaveToDeadline and conductNote; and markTest.
pub mod Silence
use grainlify_bounty_agent.Base.{
  ℕ, ◌==◌, Bool, true, false, not, ◌&&◌, Option, none, some, List, [], ◌∷◌, ◌++◌, leb,
  if◌then◌else◌, every, String, text_eq, any, first, update_where,
}
use grainlify_bounty_agent.DrawService.Tables.{
  unassign_silence, unassign_withdrawal, dispute_left_to_deadline, dispute_conduct_note,
  bounty_marked_test, set_bounty,
}
use grainlify_bounty_agent.DrawService.Reopen.{select_where}
use grainlify_bounty_agent.Funded.Tables.{
  FundedTables, FundedEnv, FundedRow, EscrowRow, Proposal, accepted_by_silence, withdrawn,
  not_withdrawable, no_such_dispute, note_required, not_waivable, not_a_funded_bounty, is_pending,
  is_refused, is_agreed, is_draw, row, with_core,
}
use grainlify_bounty_agent.Funded.Propose.{Agreement, refuse, recorded, audit}
use grainlify_bounty_agent.Funded.Carry.{carry_out}

abbrev pub is_withdrawable : FundedEnv → ℕ → String → Proposal → Bool
is_withdrawable e id login p =
    p.id == id
    && (is_pending p.status && text_eq (e.base.lower p.proposer_login) (e.base.lower login))

abbrev pub withdraw_at : ℕ → Proposal → Proposal
withdraw_at now p = record p { status = withdrawn; responded_at = some now }

abbrev pub withdraw_found :
    FundedEnv → ℕ → String → FundedTables → Option Proposal → FundedTables × Agreement
withdraw_found e id login t none = (t, refuse not_withdrawable)
withdraw_found e id login t (some p) = (
  audit login unassign_withdrawal p.bounty_id (record t {
    proposals = update_where (is_withdrawable e id login) (withdraw_at e.base.now) t.proposals;
  }),
  recorded,
)

unfoldable pub withdraw : FundedEnv → ℕ → String → FundedTables → FundedTables × Agreement
withdraw e id login t = withdraw_found e id login t (first (is_withdrawable e id login) t.proposals)

abbrev pub is_lapsed : ℕ → Proposal → Bool
is_lapsed now p = is_pending p.status && leb p.respond_by now

abbrev pub lapse_at : ℕ → Proposal → Proposal
lapse_at now p = record p { status = accepted_by_silence; responded_at = some now }

abbrev pub carry_all : FundedEnv → List Proposal → FundedTables → FundedTables
carry_all e [] t = t
carry_all e (p ∷ ps) t = carry_all e ps (carry_out e p.id t).0

abbrev pub carry_lapsed : FundedEnv → List Proposal → FundedTables → FundedTables
carry_lapsed e [] t = t
carry_lapsed e (p ∷ ps) t =
    carry_lapsed e ps (carry_out e p.id (audit "agent" unassign_silence p.bounty_id t)).0

abbrev pub draws : ℕ → FundedTables → Bool
draws bounty t =
    any (λ (x : EscrowRow). x.bounty_id == bounty && is_draw x.assignment_mode) t.escrows

-- Agreed in draw mode, and not carried out.
abbrev pub is_stuck : FundedTables → Proposal → Bool
is_stuck t p =
    is_agreed p.status
    && (elim p.carried_out_at [ none ↦ true | some at ↦ false ] && draws p.bounty_id t)

abbrev pub retry_stuck : FundedEnv → FundedTables → FundedTables
retry_stuck e t = carry_all e (select_where (is_stuck t) t.proposals) t

abbrev pub lapse : ℕ → FundedTables → FundedTables
lapse now t = record t { proposals = update_where (is_lapsed now) (lapse_at now) t.proposals }

-- Seven days of silence count as accepting.
unfoldable pub expire_proposals : FundedEnv → FundedTables → FundedTables
unfolding carry_out
expire_proposals e t =
    retry_stuck e
      (carry_lapsed e (select_where (is_lapsed e.base.now) t.proposals) (lapse e.base.now t))

abbrev pub leave_by : String → Proposal → Proposal
leave_by admin p = record p { left_to_deadline_by = some admin }

abbrev pub is_dispute : ℕ → Proposal → Bool
is_dispute id p = p.id == id && is_refused p.status

abbrev pub leave_found : ℕ → String → FundedTables → Option Proposal → FundedTables × Agreement
leave_found id admin t none = (t, refuse no_such_dispute)
leave_found id admin t (some p) = (
  audit admin dispute_left_to_deadline p.bounty_id
      (record t { proposals = update_where (is_dispute id) (leave_by admin) t.proposals }),
  recorded,
)

unfoldable pub leave_to_deadline : ℕ → String → FundedTables → FundedTables × Agreement
leave_to_deadline id admin t = leave_found id admin t (first (is_dispute id) t.proposals)

-- A proposal has a bounty that somebody funds.
abbrev pub note_row :
    FundedEnv
    → String
    → String
    → FundedTables
    → Proposal
    → Option FundedRow
    → FundedTables × Agreement
note_row e admin note t p none = (t, refuse no_such_dispute)
note_row e admin note t p (some b) = (
  audit admin dispute_conduct_note p.bounty_id (record t {
    conduct_notes =
        t.conduct_notes
        ++ record {
          funder_login = b.funded_by;
          bounty_id = p.bounty_id;
          note = e.base.cut_text note;
          recorded_by = admin;
        }
          ∷ [];
  }),
  recorded,
)

abbrev pub note_found :
    FundedEnv → String → String → FundedTables → Option Proposal → FundedTables × Agreement
note_found e admin note t none = (t, refuse no_such_dispute)
note_found e admin note t (some p) = note_row e admin note t p (row p.bounty_id t)

unfoldable pub conduct_note :
    FundedEnv → ℕ → String → String → FundedTables → FundedTables × Agreement
conduct_note e id admin note t =
    if text_eq (e.base.trim note) ""
    then (t, refuse note_required)
    else note_found e admin note t (first (is_dispute id) t.proposals)

abbrev pub is_block_rule : String → Bool
is_block_rule w = text_eq w "block_org_members"

abbrev pub mark_row :
    ℕ → String → List String → FundedTables → Option FundedRow → FundedTables × Agreement
mark_row bounty actor waive t none = (t, refuse not_a_funded_bounty)
mark_row bounty actor waive t (some b) =
    if not (every is_block_rule waive) then (t, refuse not_waivable) else (
      audit actor bounty_marked_test bounty (
          with_core (set_bounty bounty (λ r. record r { is_test = true; waived = waive }) t.core)
            t),
      recorded,
    )

unfoldable pub mark_test : ℕ → String → List String → FundedTables → FundedTables × Agreement
mark_test bounty actor waive t = mark_row bounty actor waive t (row bounty t)
