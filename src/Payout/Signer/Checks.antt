-- ===== src/Payout/Signer/Checks.antt =====
-- What the checks of services/signer/src/payout/payout-signer.ts establish before any money moves, GitHub's merge included.
use grainlify_bounty_agent.Base.{
  ℕ, ◌≤◌, ◌<◌, ◌≡◌, refl, inl, inr, true, false, Option, none, some, arith, Result, ok, err,
  Message, truthy, String, text_eq, includes, nat, Option-cases,
}
use grainlify_bounty_agent.Gate.Approval.{Approval, PayoutTerms, approved, verify_approval}
use grainlify_bounty_agent.Payout.Signer.{
  Caps, hard_caps, caps_for, PayoutSignerConfig, Host, Checked, PullFacts, check, check_pull,
}

-- The caps in force never exceed the hard caps, and a currency with no hard cap has none.
pub caps_for_le :
    (currency : String) (configured : Option Caps) (k : Caps)
    → caps_for currency configured ≡ some k
    → (hard : Caps) × (hard_caps currency ≡ some hard)
      × (k.per_bounty_max_minor ≤ hard.per_bounty_max_minor)
      × (k.daily_max_minor ≤ hard.daily_max_minor)
unfolding caps_for
caps_for_le currency configured k e = elim (Option-cases (hard_caps currency)) [
  | inl unknown ↦ absurd (ground arith)
  | inr (hard, known) ↦ (hard, known, ground arith, ground arith)
]

-- An approval that may be paid, at the time it was checked.
pub record IsPayable (cfg : PayoutSignerConfig) (h : Host) (a : Approval) (now amount : ℕ)
    (k : Caps) : Type 0 where
  pub not_escrow : a.terms.escrow ≡ none
  pub is_approved : verify_approval h.crypto a cfg.trusted_approvers now ≡ approved
  pub network : text_eq a.terms.network cfg.network ≡ true
  pub repo : includes cfg.allowed_repos a.terms.repo ≡ true
  pub recipient : h.is_solana_address a.terms.recipient ≡ true
  pub not_itself : text_eq a.terms.recipient h.address ≡ false
  pub amount_read : h.big_int a.terms.amount_minor ≡ nat amount
  pub capped : caps_for a.terms.currency (cfg.caps a.terms.currency) ≡ some k
  pub positive : 0 < amount
  pub within : amount ≤ k.per_bounty_max_minor

module _ (cfg : PayoutSignerConfig) (h : Host) (a : Approval) (now : ℕ) where
  -- A check that passes has established all of this, for the amount and the caps it returns.
  pub check-IsPayable :
      (c : Checked) → check cfg h (some a) now ≡ ok c → IsPayable cfg h a now c.amount c.caps
  unfolding check
  check-IsPayable c e = ground arith

-- What GitHub says of a pull request that may be paid for: it is merged, by another than its author, and its
-- author is the one of the approval.
pub record IsMerged (h : Host) (t : PayoutTerms) (answer : Result Message PullFacts) : Type 0 where
  pub pull : PullFacts
  pub answered : answer ≡ ok pull
  pub merged : pull.merged ≡ true
  pub author : text_eq (h.to_lower_case pull.author_login) (h.to_lower_case t.author_login) ≡ true
  pub merger : String
  pub merged_by : truthy pull.merged_by_login ≡ some merger
  pub other : text_eq (h.to_lower_case merger) (h.to_lower_case pull.author_login) ≡ false

pub check_pull-IsMerged :
    (h : Host) (t : PayoutTerms) (answer : Result Message PullFacts)
    → check_pull h t answer ≡ none
    → IsMerged h t answer
unfolding check_pull
check_pull-IsMerged h t (err e) n = absurd (cc)
check_pull-IsMerged h t (ok pr) n = by_merger (truthy pr.merged_by_login) refl
  where
    by_merger : (m : Option String) → truthy pr.merged_by_login ≡ m → IsMerged h t (ok pr)
    by_merger none e = absurd (ground (arith, n, e))
    by_merger (some merger) e = record {
      pull = pr;
      answered = refl;
      merged = ground (arith, n);
      author = ground (arith, n);
      merger = merger;
      merged_by = e;
      other = ground (arith, n, e);
    }
