-- ===== src/Budget/Tests.antt =====
-- Runs of the governor and the ledger, and the theorems at concrete inputs.
use grainlify_bounty_agent.Base.{
  ℕ, ◌+◌, ◌≤◌, ◌≡◌, refl, ◌↔◌, none, some, [], ◌∷◌, arith, err, nat, IsKeyed, List, String, Option,
  text_eq,
}
use grainlify_bounty_agent.Budget.Governor.{
  p1, p2p3, p4, live, x402_payment, BudgetConfig, SpendRequest, allowed, refused, over_phase,
  hard_lifetime_ceiling_micro, phase_allocation_micro, decide, Phase,
}
use grainlify_bounty_agent.Budget.Governor.Exact.{IsAffordable, decide-allowed_iff}
use grainlify_bounty_agent.Budget.Ledger.{
  SpendLedger, SpendEntry, reserved, settled, Settlement, not_reserved, init, reserve, settle,
  release, totals, sum_totals, must_get,
}
use grainlify_bounty_agent.Budget.Metrics.{
  CallRow, compute_metrics, cost_per_merged_pr, cost_per_merged_pr-total,
}
use grainlify_bounty_agent.Budget.Ledger.Totals.{sum_totals-phases}
use grainlify_bounty_agent.Budget.Ledger.Reserve.{Replaces, settle_totals, settle_once}
use grainlify_bounty_agent.Budget.Ledger.Within.{
  Reach, here, next, reserves, settles, Reach-lifetime,
}

abbrev cfg : BudgetConfig
cfg = record { lifetime_ceiling_micro = 3000000; allocations = phase_allocation_micro }

abbrev req : SpendRequest
req = record { phase = p1; kind = x402_payment; amount_micro = nat 400000 }

abbrev entry : SpendEntry
entry = record {
  id = 1;
  call_id = none;
  phase = p1;
  kind = x402_payment;
  status = reserved;
  reserved_micro = 400000;
  amount_micro = none;
  fee_micro = none;
  tx_signature = none;
  created_at = 7;
  settled_at = none;
}

-- $0.40 of the first phase's $0.50.
abbrev one : SpendLedger
one = record { cfg = cfg; rows = entry ∷ []; seq = 1 }

abbrev paid : Settlement
paid = record { amount_micro = 300000; fee_micro = 4000; tx_signature = some "sig" }

abbrev one_paid : SpendLedger
one_paid = record one {
  rows =
      record entry {
        status = settled;
        amount_micro = some 300000;
        fee_micro = some 4000;
        tx_signature = some "sig";
        settled_at = some 9;
      }
      ∷ [];
}

reserve-first : (reserve (init cfg) req none 7).0 ≡ one
unfolding reserve decide phase_allocation_micro sum_totals
reserve-first = refl

-- A second $0.40 does not fit the phase, and leaves the ledger as it was.
reserve-second : reserve one req none 8 ≡ (one, refused over_phase, none)
unfolding reserve decide phase_allocation_micro sum_totals
reserve-second = refl

one-IsKeyed : IsKeyed (λ (e : SpendEntry). e.id) one.seq one.rows
one-IsKeyed = record { below = (omega arith, tt); apart = (refl, tt) }

decide-allowed_iff_example :
    (decide cfg (record { lifetime_micro = 100000; by_phase = λ p. 50000 }) req
      ≡ allowed 500000 450000)
    ↔ ((amount : ℕ) × (allocation : ℕ) × IsAffordable cfg
          (record { lifetime_micro = 100000; by_phase = λ p. 50000 })
          req
          500000
          450000
          amount
          allocation)
decide-allowed_iff_example =
    decide-allowed_iff cfg (record { lifetime_micro = 100000; by_phase = λ p. 50000 }) req 500000
      450000

sum_totals-phases_example :
    let t = sum_totals one_paid.rows in
    t.by_phase p1 + t.by_phase p2p3 + t.by_phase p4 + t.by_phase live ≡ t.lifetime_micro
sum_totals-phases_example = sum_totals-phases one_paid.rows

settle_totals_example : Replaces one 1 304000 one_paid
unfolding settle must_get
settle_totals_example = settle_totals one one_paid 1 paid 9 one-IsKeyed refl

settle_once_example :
    (settle one_paid 1 paid 10 ≡ err not_reserved) × (release one_paid 1 ≡ err not_reserved)
unfolding settle must_get
settle_once_example = settle_once one one_paid 1 paid paid 9 10 refl

one_paid-Reach : Reach (init cfg) one_paid
unfolding settle must_get reserve decide phase_allocation_micro sum_totals
one_paid-Reach =
    next (next here (reserves (init cfg) req none 7))
      (settles one one_paid 1 paid 9 refl (λ r e. ground arith))

Reach-lifetime_example :
    ((totals one_paid).lifetime_micro ≤ 3000000)
    × ((totals one_paid).lifetime_micro ≤ hard_lifetime_ceiling_micro)
    × ((p : Phase) (a : ℕ) → phase_allocation_micro p ≡ some a → (totals one_paid).by_phase p ≤ a)
Reach-lifetime_example = Reach-lifetime cfg one_paid one_paid-Reach

abbrev on_chain : CallRow
on_chain = record {
  scheme = some "onchain";
  status = "served";
  model = "small";
  paid_micro = some 9000;
  fee_micro = some 2004;
  charged_micro = none;
  usage_in = some 100;
  usage_out = some 20;
  links = some (record { repo = some "grainlify/site"; issue_number = some 7 });
}

abbrev from_credit : CallRow
from_credit = record on_chain {
  scheme = some "balance";
  charged_micro = some 4000;
  fee_micro = none;
  links = none;
}

abbrev calls : List CallRow
calls = on_chain ∷ from_credit ∷ record on_chain { status = "failed" } ∷ []

abbrev no_price : String → ℕ → ℕ → Option ℕ
no_price model tokens_in tokens_out = none

abbrev issue_key : String → ℕ → String
issue_key repo issue = repo

calls-attributed :
    (cost_per_merged_pr issue_key ("grainlify/site" ∷ []) 1 calls).attributed_micro ≡ 11004
unfolding cost_per_merged_pr text_eq
calls-attributed = refl

cost_per_merged_pr-total_example :
    (cost_per_merged_pr issue_key ("grainlify/site" ∷ []) 1 calls).attributed_micro
      + (cost_per_merged_pr issue_key ("grainlify/site" ∷ []) 1 calls).unattributed_micro
    ≡ (compute_metrics no_price calls).total_micro
cost_per_merged_pr-total_example =
    cost_per_merged_pr-total no_price issue_key ("grainlify/site" ∷ []) 1 calls
