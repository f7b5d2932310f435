-- ===== src/Budget/Governor/Exact.antt =====
-- When packages/budget/src/governor.ts allows a spend, and that no configuration raises the ceiling.
use grainlify_bounty_agent.Base.{
  ℕ, ◌+◌, ◌*◌, ◌≤◌, ◌<◌, min, ◌≡◌, ◌↔◌, inl, inr, Option, none, some, arith, JsNumber, nat,
  negative, not_integer, positive_safe, Option-cases,
}
use grainlify_bounty_agent.Budget.Governor.{
  hard_lifetime_ceiling_micro, BudgetConfig, SpendTotals, SpendRequest, allowed, budget_config,
  decide, lamports_to_micro_ceil,
}

abbrev pub ceiling_of : BudgetConfig → ℕ
ceiling_of cfg = min cfg.lifetime_ceiling_micro hard_lifetime_ceiling_micro

pub positive_safe-pos : (x : JsNumber) (n : ℕ) → positive_safe x ≡ some n → 0 < n
positive_safe-pos (nat m) n e = ground arith
positive_safe-pos (negative m) n e = cc
positive_safe-pos not_integer n e = cc

-- What has to hold of a request for the totals `l` and `p` to be allowed.
pub record IsAffordable (cfg : BudgetConfig) (totals : SpendTotals) (req : SpendRequest)
    (l p amount allocation : ℕ) : Type 0 where
  pub is_amount : positive_safe req.amount_micro ≡ some amount
  pub is_allocated : cfg.allocations req.phase ≡ some allocation
  pub lifetime_after : l ≡ totals.lifetime_micro + amount
  pub phase_after : p ≡ totals.by_phase req.phase + amount
  pub under_ceiling : l ≤ ceiling_of cfg
  pub under_allocation : p ≤ allocation

decide_sound :
    (cfg : BudgetConfig) (totals : SpendTotals) (req : SpendRequest) (l p : ℕ)
    → decide cfg totals req ≡ allowed l p
    → (amount : ℕ) × (allocation : ℕ) × IsAffordable cfg totals req l p amount allocation
unfolding decide
decide_sound cfg totals req l p e = elim (Option-cases (positive_safe req.amount_micro)) [
  | inl bad ↦ ground arith
  | inr (amount, good) ↦ elim (Option-cases (cfg.allocations req.phase)) [
    | inl missing ↦ ground arith
    | inr (allocation, known) ↦ (amount, allocation, ground arith)
  ]
]

decide_complete :
    (cfg : BudgetConfig) (totals : SpendTotals) (req : SpendRequest) (l p amount allocation : ℕ)
    → IsAffordable cfg totals req l p amount allocation
    → decide cfg totals req ≡ allowed l p
unfolding decide
decide_complete cfg totals req l p amount allocation v =
    ground (arith, positive_safe-pos req.amount_micro amount v.is_amount)

-- A spend is allowed exactly when its amount is a positive safe integer, its phase has an
-- allocation, and the lifetime and the phase totals that are returned are the old ones with the
-- amount added, within the ceiling and within the allocation.
pub decide-allowed_iff :
    (cfg : BudgetConfig) (totals : SpendTotals) (req : SpendRequest) (l p : ℕ)
    → (decide cfg totals req ≡ allowed l p)
      ↔ ((amount : ℕ) × (allocation : ℕ) × IsAffordable cfg totals req l p amount allocation)
decide-allowed_iff cfg totals req l p = (
  decide_sound cfg totals req l p,
  λ (amount, allocation, v). decide_complete cfg totals req l p amount allocation v,
)

-- Whatever ceiling is asked for, a configuration that is accepted has one of at most $5.00.
pub budget_config-ceiling :
    (requested : Option JsNumber) (cfg : BudgetConfig)
    → budget_config requested ≡ some cfg
    → cfg.lifetime_ceiling_micro ≤ hard_lifetime_ceiling_micro
unfolding budget_config
budget_config-ceiling none cfg e = ground arith
budget_config-ceiling (some (nat n)) cfg e = ground arith
budget_config-ceiling (some (negative n)) cfg e = cc
budget_config-ceiling (some not_integer) cfg e = cc

-- The fee in micro-USD is never understated, and overstated by less than one micro-USD.
pub lamports_to_micro_ceil_bounds :
    (lamports price : ℕ)
    → (lamports * price ≤ 1000 * lamports_to_micro_ceil lamports price)
      × (1000 * lamports_to_micro_ceil lamports price < lamports * price + 1000)
unfolding lamports_to_micro_ceil
lamports_to_micro_ceil_bounds lamports price = omega arith

-- The fee grows with the lamports.
pub lamports_to_micro_ceil_mono :
    (a b price : ℕ) → a ≤ b → lamports_to_micro_ceil a price ≤ lamports_to_micro_ceil b price
unfolding lamports_to_micro_ceil
lamports_to_micro_ceil_mono a b price h = grind arith
