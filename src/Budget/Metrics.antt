-- ===== src/Budget/Metrics.antt =====
-- packages/budget/src/metrics.ts. A quotient, which the source computes in floating point, is its
-- numerator and its denominator.
use grainlify_bounty_agent.Base.{
  ℕ, ◌+◌, ◌*◌, ◌==◌, ◌≤◌, ◌≡◌, refl, Bool, true, false, Option, none, some, List, [], ◌∷◌, arith,
  if◌then◌else◌, String, text_eq, text_eq_iff, column_eq, includes, sum_by, count_by, truthy,
  Bool-cases, inl, inr,
}
use grainlify_bounty_agent.Budget.Ledger.{or_zero}

pub record Links : Type 0 where
  pub repo : Option String
  pub issue_number : Option ℕ

pub record CallRow : Type 0 where
  pub scheme : Option String
  pub status : String
  pub model : String
  pub paid_micro : Option ℕ
  pub fee_micro : Option ℕ
  pub charged_micro : Option ℕ
  pub usage_in : Option ℕ
  pub usage_out : Option ℕ
  pub links : Option Links

pub record Quotient : Type 0 where
  pub over : ℕ
  pub under : ℕ

pub record Metrics : Type 0 where
  pub paid_calls : ℕ
  pub credit_calls : ℕ
  pub served_calls : ℕ
  pub inference_micro : ℕ
  pub fee_micro : ℕ
  pub total_micro : ℕ
  pub fee_share_pct : Option Quotient
  pub fee_to_inference_ratio : Option Quotient
  pub cost_per_served_call_micro : Option Quotient
  pub cost_per_paid_call_micro : Option Quotient
  pub list_price_micro : Option ℕ
  pub list_price_models : ℕ

abbrev pub is_served : CallRow → Bool
is_served r = text_eq r.status "served"

-- `rows.filter`
abbrev keep : (CallRow → Bool) → List CallRow → List CallRow
keep p [] = []
keep p (r ∷ rs) = let rest = keep p rs in if p r then r ∷ rest else rest

abbrev pub served_rows : List CallRow → List CallRow
served_rows rows = keep is_served rows

abbrev or_paid : CallRow → Option ℕ → ℕ
or_paid r (some charged) = charged
or_paid r none = if column_eq r.scheme "balance" then 0 else or_zero r.paid_micro

abbrev pub inference_of : CallRow → ℕ
inference_of r = or_paid r r.charged_micro

abbrev every_row : CallRow → Bool
every_row r = true

-- `d ? n / d : null`
abbrev ratio : ℕ → ℕ → Option Quotient
ratio n d = if d == 0 then none else some (record { over = n; under = d })

-- `price model usage_in usage_out` is `up` of the list price of the tokens, `none` without a price.
abbrev usage_price : (ℕ → ℕ → Option ℕ) → Option ℕ → Option ℕ → Option ℕ
usage_price price none usage_out = none
usage_price price (some tokens_in) none = none
usage_price price (some tokens_in) (some tokens_out) = price tokens_in tokens_out

abbrev priced_at : (String → ℕ → ℕ → Option ℕ) → CallRow → Option ℕ
priced_at price r = usage_price (price r.model) r.usage_in r.usage_out

abbrev is_priced : (String → ℕ → ℕ → Option ℕ) → CallRow → Bool
is_priced price r = elim (priced_at price r) [ none ↦ false | some n ↦ true ]

abbrev list_micro : (String → ℕ → ℕ → Option ℕ) → CallRow → ℕ
list_micro price r = or_zero (priced_at price r)

unfoldable pub compute_metrics : (String → ℕ → ℕ → Option ℕ) → List CallRow → Metrics
compute_metrics price rows =
    let served = served_rows rows in
    let paid = count_by (λ (r : CallRow). column_eq r.scheme "onchain") served in
    let inference = sum_by inference_of served in
    let fee = sum_by (λ (r : CallRow). or_zero r.fee_micro) served in
    let priced = count_by (is_priced price) served in
    record {
      paid_calls = paid;
      credit_calls = count_by (λ (r : CallRow). column_eq r.scheme "balance") served;
      served_calls = count_by every_row served;
      inference_micro = inference;
      fee_micro = fee;
      total_micro = inference + fee;
      fee_share_pct = ratio (fee * 100) (inference + fee);
      fee_to_inference_ratio = ratio fee inference;
      cost_per_served_call_micro = ratio (inference + fee) (count_by every_row served);
      cost_per_paid_call_micro = ratio (inference + fee) paid;
      list_price_micro = if priced == 0 then none else some (sum_by (list_micro price) served);
      list_price_models = priced;
    }

pub record PrCost : Type 0 where
  pub merged : ℕ
  pub attributed_micro : ℕ
  pub per_merged_micro : Option Quotient
  pub unattributed_micro : ℕ

abbrev cost_of : CallRow → ℕ
cost_of r = inference_of r + or_zero r.fee_micro

abbrev key_of : (String → ℕ → String) → Option String → Option ℕ → Option String
key_of key none issue = none
key_of key (some repo) none = none
key_of key (some repo) (some issue) = some (key repo issue)

-- `key` is the template of a repository and an issue number.
abbrev links_key : (String → ℕ → String) → Option Links → Option String
links_key key none = none
links_key key (some l) = key_of key (truthy l.repo) l.issue_number

abbrev is_merged : List String → Option String → Bool
is_merged merged none = false
is_merged merged (some k) = includes merged k

abbrev is_attributed : (String → ℕ → String) → List String → CallRow → Bool
is_attributed key merged r = is_merged merged (links_key key r.links)

-- The loop: attributed and unattributed so far.
attribute : (CallRow → Bool) → ℕ → ℕ → List CallRow → ℕ × ℕ
attribute p a u [] = (a, u)
attribute p a u (r ∷ rs) =
    let with_it = attribute p (a + cost_of r) u rs in
    let without = attribute p a (u + cost_of r) rs in if p r then with_it else without

-- `merged_keys` lists the set, without repetitions; `size` is how many it has.
unfoldable pub cost_per_merged_pr : (String → ℕ → String) → List String → ℕ → List CallRow → PrCost
unfolding attribute
cost_per_merged_pr key merged_keys size rows =
    let sums = attribute (is_attributed key merged_keys) 0 0 (served_rows rows) in
    record {
      merged = size;
      attributed_micro = sums.0;
      per_merged_micro = ratio sums.0 size;
      unattributed_micro = sums.1;
    }

attribute-sum :
    (p : CallRow → Bool) (a u : ℕ) (rows : List CallRow)
    → (attribute p a u rows).0 + (attribute p a u rows).1
      ≡ a + u + (sum_by inference_of rows + sum_by (λ (r : CallRow). or_zero r.fee_micro) rows)
unfolding attribute
attribute-sum p a u [] = omega arith
attribute-sum p a u (r ∷ rs) = elim (Bool-cases (p r)) [
  | inl merged ↦ rw (merged, attribute) (omega (arith, attribute-sum p (a + cost_of r) u rs))
  | inr other ↦ rw (other, attribute) (omega (arith, attribute-sum p a (u + cost_of r) rs))
]

-- What is attributed to merged pull requests and what is not add up to the total of the metrics, for
-- every set of merged keys and every list price.
pub cost_per_merged_pr-total :
    (price : String → ℕ → ℕ → Option ℕ) (key : String → ℕ → String) (merged_keys : List String)
    (size : ℕ) (rows : List CallRow)
    → (cost_per_merged_pr key merged_keys size rows).attributed_micro
        + (cost_per_merged_pr key merged_keys size rows).unattributed_micro
      ≡ (compute_metrics price rows).total_micro
unfolding cost_per_merged_pr compute_metrics
cost_per_merged_pr-total price key merged_keys size rows =
    omega (arith, attribute-sum (is_attributed key merged_keys) 0 0 (served_rows rows))

one_scheme : (o : Option String) → column_eq o "onchain" ≡ true → column_eq o "balance" ≡ false
unfolding text_eq
one_scheme none h = absurd (ground arith)
one_scheme (some s) h = let same : s ≡ "onchain" = (text_eq_iff s "onchain").0 h in rw same refl

calls-le :
    (rows : List CallRow)
    → count_by (λ (r : CallRow). column_eq r.scheme "onchain") rows
        + count_by (λ (r : CallRow). column_eq r.scheme "balance") rows
      ≤ count_by every_row rows
calls-le [] = omega arith
calls-le (r ∷ rs) = ground (arith, calls-le rs, one_scheme r.scheme)

-- No served call counts both as paid on chain and as paid from credit.
pub compute_metrics-calls :
    (price : String → ℕ → ℕ → Option ℕ) (rows : List CallRow)
    → (compute_metrics price rows).paid_calls + (compute_metrics price rows).credit_calls
      ≤ (compute_metrics price rows).served_calls
unfolding compute_metrics
compute_metrics-calls price rows = calls-le (served_rows rows)
