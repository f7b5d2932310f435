-- ===== src/Budget/Ledger/Totals.antt =====
-- `sumTotals` of packages/budget/src/ledger.ts against plain sums over the entries.
use grainlify_bounty_agent.Base.{ℕ, ◌+◌, ◌≡◌, List, [], ◌∷◌, arith, if◌then◌else◌, sum_by}
use grainlify_bounty_agent.Budget.Governor.{Phase, p1, p2p3, p4, live, same_phase, SpendTotals}
use grainlify_bounty_agent.Budget.Ledger.{
  SpendEntry, committed_micro, add_entry, sum_from, no_spend, sum_totals,
}

-- What an entry counts against a phase.
abbrev pub committed_in : Phase → SpendEntry → ℕ
committed_in p e = if same_phase e.phase p then committed_micro e else 0

sum_from-lifetime :
    (t : SpendTotals) (es : List SpendEntry)
    → (sum_from t es).lifetime_micro ≡ t.lifetime_micro + sum_by committed_micro es
unfolding sum_from
sum_from-lifetime t [] = omega arith
sum_from-lifetime t (e ∷ es) = omega (arith, sum_from-lifetime (add_entry t e) es)

sum_from-by_phase :
    (t : SpendTotals) (p : Phase) (es : List SpendEntry)
    → (sum_from t es).by_phase p ≡ t.by_phase p + sum_by (committed_in p) es
unfolding sum_from
sum_from-by_phase t p [] = omega arith
sum_from-by_phase t p (e ∷ es) = ground (arith, sum_from-by_phase (add_entry t e) p es)

pub sum_totals-lifetime :
    (es : List SpendEntry) → (sum_totals es).lifetime_micro ≡ sum_by committed_micro es
unfolding sum_totals
sum_totals-lifetime es = omega (arith, sum_from-lifetime no_spend es)

pub sum_totals-by_phase :
    (p : Phase) (es : List SpendEntry) → (sum_totals es).by_phase p ≡ sum_by (committed_in p) es
unfolding sum_totals
sum_totals-by_phase p es = omega (arith, sum_from-by_phase no_spend p es)

split_phases :
    (q : Phase) (n : ℕ)
    → (if same_phase q p1 then n else 0)
        + (if same_phase q p2p3 then n else 0)
        + (if same_phase q p4 then n else 0)
        + (if same_phase q live then n else 0)
      ≡ n
split_phases p1 n = omega arith
split_phases p2p3 n = omega arith
split_phases p4 n = omega arith
split_phases live n = omega arith

sum_by-phases :
    (es : List SpendEntry)
    → sum_by (committed_in p1) es
        + sum_by (committed_in p2p3) es
        + sum_by (committed_in p4) es
        + sum_by (committed_in live) es
      ≡ sum_by committed_micro es
sum_by-phases [] = omega arith
sum_by-phases (e ∷ es) = omega (arith, sum_by-phases es, split_phases e.phase (committed_micro e))

-- The four phase totals add up to the lifetime total.
pub sum_totals-phases :
    (es : List SpendEntry)
    → let t = sum_totals es in
      t.by_phase p1 + t.by_phase p2p3 + t.by_phase p4 + t.by_phase live ≡ t.lifetime_micro
sum_totals-phases es =
    rw
      (
        sum_totals-by_phase p1 es,
        sum_totals-by_phase p2p3 es,
        sum_totals-by_phase p4 es,
        sum_totals-by_phase live es,
        sum_totals-lifetime es,
      )
      (sum_by-phases es)
