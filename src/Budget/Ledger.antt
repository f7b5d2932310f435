-- ===== src/Budget/Ledger.antt =====
-- packages/budget/src/ledger.ts: `InMemorySpendLedger`. The entry `spend-n` has the id n, times
-- are arguments, and a call that throws leaves the ledger as it was. The ids are distinct, since
-- `seq` counts up, so the update of the first row with an id is that of all such rows.
pub mod Totals
pub mod Reserve
pub mod Within
use grainlify_bounty_agent.Base.{
  ℕ, suc, ◌+◌, ◌==◌, Bool, Option, none, some, List, [], ◌∷◌, ◌++◌, if◌then◌else◌, Result, ok, err,
  JsNumber, String, positive_safe, first, update_where,
}
use grainlify_bounty_agent.Budget.Governor.{
  Phase, SpendKind, SpendTotals, SpendRequest, BudgetConfig, Decision, allowed, refused, same_phase,
  decide,
}

pub data SpendStatus : Type 0 where
  reserved settled released : SpendStatus

pub record SpendEntry : Type 0 where
  pub id : ℕ
  pub call_id : Option String
  pub phase : Phase
  pub kind : SpendKind
  pub status : SpendStatus
  pub reserved_micro : ℕ
  pub amount_micro : Option ℕ
  pub fee_micro : Option ℕ
  pub tx_signature : Option String
  pub created_at : ℕ
  pub settled_at : Option ℕ

pub record Settlement : Type 0 where
  pub amount_micro : ℕ
  pub fee_micro : ℕ
  pub tx_signature : Option String

-- `x ?? 0`
abbrev pub or_zero : Option ℕ → ℕ
or_zero none = 0
or_zero (some n) = n

abbrev committed_at : SpendStatus → SpendEntry → ℕ
committed_at released e = 0
committed_at reserved e = e.reserved_micro
committed_at settled e = or_zero e.amount_micro + or_zero e.fee_micro

abbrev pub committed_micro : SpendEntry → ℕ
committed_micro e = committed_at e.status e

abbrev add_entry : SpendTotals → SpendEntry → SpendTotals
add_entry t e = record {
  lifetime_micro = t.lifetime_micro + committed_micro e;
  by_phase = λ p. if same_phase e.phase p then t.by_phase p + committed_micro e else t.by_phase p;
}

sum_from : SpendTotals → List SpendEntry → SpendTotals
sum_from t [] = t
sum_from t (e ∷ es) = sum_from (add_entry t e) es

abbrev no_spend : SpendTotals
no_spend = record { lifetime_micro = 0; by_phase = λ p. 0 }

unfoldable pub sum_totals : List SpendEntry → SpendTotals
unfolding sum_from
sum_totals es = sum_from no_spend es

pub record SpendLedger : Type 0 where
  pub cfg : BudgetConfig
  pub rows : List SpendEntry
  pub seq : ℕ

abbrev pub init : BudgetConfig → SpendLedger
init cfg = record { cfg = cfg; rows = []; seq = 0 }

pub data LedgerError : Type 0 where
  no_entry not_reserved : LedgerError

abbrev pub amount_of : JsNumber → ℕ
amount_of x = or_zero (positive_safe x)

abbrev new_entry : SpendLedger → SpendRequest → Option String → ℕ → SpendEntry
new_entry l req call_id now = record {
  id = suc l.seq;
  call_id = call_id;
  phase = req.phase;
  kind = req.kind;
  status = reserved;
  reserved_micro = amount_of req.amount_micro;
  amount_micro = none;
  fee_micro = none;
  tx_signature = none;
  created_at = now;
  settled_at = none;
}

abbrev record_decision :
    SpendLedger → SpendRequest → Option String → ℕ → Decision → SpendLedger × Decision × Option ℕ
record_decision l req call_id now (refused code) = (l, refused code, none)
record_decision l req call_id now (allowed a b) = (
  record l { rows = l.rows ++ new_entry l req call_id now ∷ []; seq = suc l.seq },
  allowed a b,
  some (suc l.seq),
)

-- The decision and the insertion are one step: there is no await between them.
unfoldable pub reserve :
    SpendLedger → SpendRequest → Option String → ℕ → SpendLedger × Decision × Option ℕ
reserve l req call_id now = record_decision l req call_id now (decide l.cfg (sum_totals l.rows) req)

unfoldable pub must_get : SpendLedger → ℕ → Result LedgerError SpendEntry
must_get l id = elim (first (λ r. r.id == id) l.rows) [ none ↦ err no_entry | some r ↦ ok r ]

abbrev settle_entry : Settlement → ℕ → SpendEntry → SpendEntry
settle_entry s now e = record e {
  status = settled;
  amount_micro = some s.amount_micro;
  fee_micro = some s.fee_micro;
  tx_signature = s.tx_signature;
  settled_at = some now;
}

abbrev release_entry : SpendEntry → SpendEntry
release_entry e = record e { status = released }

-- The check `row.status !== 'reserved'`, and the update that follows it.
abbrev if_reserved :
    SpendLedger → ℕ → (SpendEntry → SpendEntry) → SpendStatus → Result LedgerError SpendLedger
if_reserved l id f reserved = ok (record l { rows = update_where (λ r. r.id == id) f l.rows })
if_reserved l id f settled = err not_reserved
if_reserved l id f released = err not_reserved

abbrev close_entry :
    SpendLedger
    → ℕ
    → (SpendEntry → SpendEntry)
    → Result LedgerError SpendEntry
    → Result LedgerError SpendLedger
close_entry l id f (ok row) = if_reserved l id f row.status
close_entry l id f (err e) = err e

unfoldable pub settle : SpendLedger → ℕ → Settlement → ℕ → Result LedgerError SpendLedger
settle l id s now = close_entry l id (settle_entry s now) (must_get l id)

unfoldable pub release : SpendLedger → ℕ → Result LedgerError SpendLedger
release l id = close_entry l id release_entry (must_get l id)

unfoldable pub totals : SpendLedger → SpendTotals
totals l = sum_totals l.rows
