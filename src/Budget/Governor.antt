-- ===== src/Budget/Governor.antt =====
-- packages/budget/src/governor.ts. Amounts are micro-USD, and a refusal is its code.
pub mod Exact
use grainlify_bounty_agent.Base.{
  ℕ, ◌+◌, ◌*◌, ◌/◌, min, Bool, true, false, Option, none, some, ltb, leb, if◌then◌else◌, JsNumber,
  nat, negative, not_integer, positive_safe, max_safe_integer,
}

abbrev pub hard_lifetime_ceiling_micro : ℕ
hard_lifetime_ceiling_micro = 5000000

pub data Phase : Type 0 where
  p1 p2p3 p4 live : Phase

abbrev pub same_phase : Phase → Phase → Bool
same_phase p1 p1 = true
same_phase p2p3 p2p3 = true
same_phase p4 p4 = true
same_phase live live = true
same_phase _ _ = false

unfoldable pub phase_allocation_micro : Phase → Option ℕ
phase_allocation_micro p1 = some 500000
phase_allocation_micro p2p3 = some 1000000
phase_allocation_micro p4 = some 1500000
phase_allocation_micro live = some 2000000

pub data SpendKind : Type 0 where
  x402_payment apikey_deposit : SpendKind

-- A phase with no allocation is a missing key of the record.
pub record BudgetConfig : Type 0 where
  pub lifetime_ceiling_micro : ℕ
  pub allocations : Phase → Option ℕ

pub record SpendTotals : Type 0 where
  pub lifetime_micro : ℕ
  pub by_phase : Phase → ℕ

pub record SpendRequest : Type 0 where
  pub phase : Phase
  pub kind : SpendKind
  pub amount_micro : JsNumber

pub data RefusalCode : Type 0 where
  invalid_amount ceiling_reached over_lifetime over_phase unknown_phase : RefusalCode

pub data Decision : Type 0 where
  allowed : ℕ → ℕ → Decision
  refused : RefusalCode → Decision

-- `none` is the throw on a ceiling that is no non-negative safe integer.
unfoldable pub budget_config : Option JsNumber → Option BudgetConfig
budget_config none = some (record {
  lifetime_ceiling_micro = hard_lifetime_ceiling_micro;
  allocations = phase_allocation_micro;
})
budget_config (some (nat requested)) =
    if leb requested max_safe_integer
    then some (record {
      lifetime_ceiling_micro = min requested hard_lifetime_ceiling_micro;
      allocations = phase_allocation_micro;
    })
    else none
budget_config (some (negative n)) = none
budget_config (some not_integer) = none

-- What `decide` does once the amount and the allocation are known.
abbrev fits : ℕ → ℕ → ℕ → ℕ → ℕ → Decision
fits ceiling allocation lifetime phase_total amount =
    if leb ceiling lifetime
    then refused ceiling_reached
    else if ltb ceiling (lifetime + amount)
    then refused over_lifetime
    else if ltb allocation (phase_total + amount)
    then refused over_phase
    else allowed (lifetime + amount) (phase_total + amount)

abbrev with_allocation : BudgetConfig → SpendTotals → SpendRequest → ℕ → Option ℕ → Decision
with_allocation cfg totals req amount none = refused unknown_phase
with_allocation cfg totals req amount (some allocation) =
    fits (min cfg.lifetime_ceiling_micro hard_lifetime_ceiling_micro) allocation
      totals.lifetime_micro (totals.by_phase req.phase) amount

abbrev with_amount : BudgetConfig → SpendTotals → SpendRequest → Option ℕ → Decision
with_amount cfg totals req none = refused invalid_amount
with_amount cfg totals req (some amount) =
    with_allocation cfg totals req amount (cfg.allocations req.phase)

unfoldable pub decide : BudgetConfig → SpendTotals → SpendRequest → Decision
decide cfg totals req = with_amount cfg totals req (positive_safe req.amount_micro)

-- ceil (lamports * price / 1000), exact below 2^53.
unfoldable pub lamports_to_micro_ceil : ℕ → ℕ → ℕ
lamports_to_micro_ceil lamports sol_usd_ceiling_price =
    (lamports * sol_usd_ceiling_price + 999) / 1000
