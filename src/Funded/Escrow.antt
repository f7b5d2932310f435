-- ===== src/Funded/Escrow.antt =====
-- apps/agent/src/escrow-service.ts: the quote, the confirmation of a funding and the records of what the
-- chain says. The instructions and transactions that it builds are left out.
pub mod Fee
use grainlify_bounty_agent.Base.{
  ℕ, suc, ◌+◌, ◌*◌, ◌/◌, ◌==◌, Bool, true, false, not, ◌||◌, ◌&&◌, Option, none, some, List, [],
  ◌∷◌, ◌++◌, ltb, if◌then◌else◌, Result, ok, err, String, first,
}
use grainlify_bounty_agent.Draw.Config.{int_of}
use grainlify_bounty_agent.DrawService.Settings.{overrides}
use grainlify_bounty_agent.DrawService.Apply.{Env}
use grainlify_bounty_agent.Funded.Tables.{
  FundedTables, FundedEnv, FundedError, EscrowRow, EscrowState, EscrowEvent, EscrowEventKind,
  was_funded, was_assigned, was_unassigned, was_refunded, ChainEscrow, assigned, funded, refunded,
  failed, funding, no_escrow, not_awaiting_funding, escrow_not_on_chain, terms_mismatch, escrow_of,
  set_escrow,
}

pub record Quote : Type 0 where
  pub amount_minor : ℕ
  pub fee_bps : ℕ
  pub fee_minimum_minor : ℕ
  pub fee_amount_minor : ℕ
  pub total_minor : ℕ
  pub floored_by_minimum : Bool

abbrev pub quoted : ℕ → ℕ → ℕ → ℕ → ℕ → Quote
quoted amount bps minimum pct fee = record {
  amount_minor = amount;
  fee_bps = bps;
  fee_minimum_minor = minimum;
  fee_amount_minor = fee;
  total_minor = amount + fee;
  floored_by_minimum = ltb pct fee;
}

abbrev pub percentage : ℕ → ℕ → ℕ
percentage amount bps = (amount * bps + 9999) / 10000

-- It throws where the amount is not positive; the effective rate is the quotient of the fee and the amount.
unfoldable pub quote : ℕ → ℕ → ℕ → Option Quote
quote amount bps minimum =
    if not (ltb 0 amount)
    then none
    else some (
        quoted amount bps minimum (percentage amount bps)
          (if ltb minimum (percentage amount bps) then percentage amount bps else minimum))

abbrev pub quote_for : Env → FundedTables → ℕ → Option Quote
quote_for e t amount =
    quote amount (int_of e.parse_int (overrides t.core "funded_bounty_fee_bps") 250)
      (int_of e.parse_int (overrides t.core "funded_bounty_fee_minimum_minor") 250000)

abbrev pub escrow_event :
    ℕ → ℕ → EscrowEventKind → Option String → String → FundedTables → FundedTables
escrow_event now escrow kind tx reason t = record t {
  escrow_events =
      t.escrow_events
      ++ record { escrow_id = escrow; kind = kind; tx = tx; reason = reason; created_at = now }
        ∷ [];
}

abbrev pub event_of_row :
    ℕ → EscrowEventKind → Option String → Option EscrowRow → FundedTables → FundedTables
event_of_row now kind tx none t = t
event_of_row now kind tx (some x) t = escrow_event now x.id kind tx "" t

abbrev pub record_assigned : ℕ → ℕ → String → Option String → FundedTables → FundedTables
record_assigned now bounty wallet tx t = event_of_row now was_assigned tx (escrow_of bounty t) (
    set_escrow bounty
      (λ x. record x { state = assigned; contributor_wallet = some wallet; assign_tx = tx }) t)

abbrev pub record_unassigned : ℕ → ℕ → Option String → FundedTables → FundedTables
record_unassigned now bounty tx t =
    event_of_row now was_unassigned tx (escrow_of bounty t)
      (set_escrow bounty (λ x. record x { state = funded; contributor_wallet = none }) t)

abbrev pub record_closed : ℕ → ℕ → FundedTables → FundedTables
record_closed now bounty t =
    event_of_row now was_refunded none (escrow_of bounty t)
      (set_escrow bounty (λ x. record x { state = refunded }) t)

abbrev pub is_funding : EscrowState → Bool
is_funding funding = true
is_funding _ = false

-- The terms of the chain are those of the quote.
abbrev pub check_terms :
    ℕ
    → ℕ
    → Option String
    → EscrowRow
    → ChainEscrow
    → FundedTables
    → FundedTables × Result FundedError String
check_terms now bounty signature x chain t =
    if not (chain.amount == x.amount_minor) || not (chain.fee_amount == x.fee_amount_minor)
    then (
      set_escrow bounty
          (λ r. record r {
            state = failed;
            last_error = some "on-chain terms differ from the quote";
          })
          t,
      err terms_mismatch,
    )
    else (
      escrow_event now x.id was_funded signature ""
          (set_escrow bounty (λ r. record r { state = funded; fund_tx = signature }) t),
      ok x.escrow_pubkey,
    )

abbrev pub check_chain :
    ℕ
    → ℕ
    → Option String
    → EscrowRow
    → Option ChainEscrow
    → FundedTables
    → FundedTables × Result FundedError String
check_chain now bounty signature x none t = (t, err escrow_not_on_chain)
check_chain now bounty signature x (some chain) t = check_terms now bounty signature x chain t

abbrev pub confirm_escrow :
    FundedEnv
    → ℕ
    → Option String
    → Option EscrowRow
    → FundedTables
    → FundedTables × Result FundedError String
confirm_escrow e bounty signature none t = (t, err no_escrow)
confirm_escrow e bounty signature (some x) t =
    if not (is_funding x.state)
    then (t, err not_awaiting_funding)
    else check_chain e.base.now bounty signature x (e.read_chain x.escrow_pubkey) t

unfoldable pub confirm_funding :
    FundedEnv → ℕ → Option String → FundedTables → FundedTables × Result FundedError String
confirm_funding e bounty signature t = confirm_escrow e bounty signature (escrow_of bounty t) t
