-- ===== src/Gate/Tests.antt =====
-- The gate and the approvals at concrete inputs.
use grainlify_bounty_agent.Base.{
  ◌+◌, ltb, if◌then◌else◌, ℕ, ◌≡◌, refl, ◌↔◌, true, false, none, some, List, [], ◌∷◌, String,
  text_eq, ends_with,
}
use grainlify_bounty_agent.Gate.Approval.{
  expired, sign_envelope, SignedText, approval_ttl_ms, PayoutTerms, Crypto, approved,
  verify_envelope, verify_approval, prefix, Approval,
}
use grainlify_bounty_agent.Gate.Approval.Laws.{IsInForce, verify_envelope_iff}
use grainlify_bounty_agent.Gate.Approval.RoundTrip.{Agrees, verify_envelope-sign_envelope}
use grainlify_bounty_agent.Gate.Repos.{repo_may_have_bounties}
use grainlify_bounty_agent.Gate.Evaluate.{GateFacts, GatePolicy, write, evaluate_gate}
use grainlify_bounty_agent.Gate.Evaluate.Verdict.{IsEarned, evaluate_gate_iff}

abbrev terms : PayoutTerms
terms = record {
  payout_id = "p1";
  bounty_id = "b1";
  repo = "grainlify/site";
  issue_number = 7;
  pr_number = 9;
  author_login = "ada";
  recipient = "wallet";
  amount_minor = "5000000";
  currency = "USDC";
  mint = "usdc";
  network = "solana";
  escrow = none;
}

-- An approval given at 1000 for half an hour.
abbrev approval : Approval
approval = record {
  terms = terms;
  approver = "admin";
  approved_at = "1000";
  expires_at = "1801000";
  signature = "sig";
}

-- One for a hundred days, whose start cannot be read.
abbrev endless : Approval
endless = record approval { approved_at = "now"; expires_at = "8640001000" }

abbrev crypto : Crypto PayoutTerms
crypto = record {
  verify_detached = λ address message signature. text_eq signature "sig";
  date_parse = λ s. elim (text_eq s "1000") [
    | true ↦ some 1000
    | false ↦ elim (text_eq s "1801000") [
      | true ↦ some 1801000
      | false ↦ elim (text_eq s "8640001000") [ true ↦ some 8640001000 | false ↦ none ]
    ]
  ];
}

abbrev trusted : List String
trusted = "admin" ∷ []

verify_approval-accepts : verify_approval crypto approval trusted 2000 ≡ approved
unfolding verify_approval text_eq
verify_approval-accepts = refl

verify_envelope_iff_example :
    (verify_envelope crypto prefix approval trusted 2000 ≡ approved)
    ↔ ((exp : ℕ) × IsInForce crypto prefix approval trusted 2000 exp)
verify_envelope_iff_example = verify_envelope_iff crypto prefix approval trusted 2000

-- No bound on the lifetime is left where the start cannot be read.
verify_envelope-endless : verify_envelope crypto prefix endless trusted 2000 ≡ approved
unfolding verify_envelope text_eq
verify_envelope-endless = refl

abbrev lower : String → String
lower s = s

abbrev facts : GateFacts
facts = record {
  repo = record {
    full_name = "grainlify/site";
    allowlisted = true;
    enabled = true;
    bounties_enabled = true;
    registered_project = true;
  };
  bounty = record {
    id = "b1";
    status = "in_review";
    issue_number = 7;
    amount_minor = 5000000;
    currency = "USDC";
    network = "solana";
  };
  pr = record {
    number = 9;
    merged = true;
    merged_by_login = some "grace";
    merged_by_permission = some write;
    author_id = 42;
    author_login = "ada";
    author_type = "User";
    closes_issues = 7 ∷ [];
  };
  author = some 1000;
  wallet = some "wallet";
  assignment = some (record { github_user_id = 42; github_login = "ada" });
  bounty_already_has_payout = false;
  paid_today_minor = 0;
  funded = none;
}

abbrev policy : GatePolicy
policy = record {
  caps = λ currency. some (record { per_bounty_max_minor = 50000000; daily_max_minor = 150000000 });
  min_account_age_days = 30;
  allowed_networks = "solana" ∷ [];
  funded_networks = none;
}

-- A day more than thirty days after the account was created.
abbrev now : ℕ
now = 2700000000

evaluate_gate-passes : (evaluate_gate lower facts policy now).pass ≡ true
unfolding evaluate_gate repo_may_have_bounties text_eq ends_with
evaluate_gate-passes = refl

-- The merge of one's own pull request does not pass.
evaluate_gate-self_merged :
    (evaluate_gate lower
      (record facts { pr = record facts.pr { merged_by_login = some "ada" } })
      policy
      now).pass
    ≡ false
unfolding evaluate_gate repo_may_have_bounties text_eq ends_with
evaluate_gate-self_merged = refl

evaluate_gate_iff_example :
    ((evaluate_gate lower facts policy now).pass ≡ true) ↔ IsEarned lower facts policy now
evaluate_gate_iff_example = evaluate_gate_iff lower facts policy now

abbrev sign : SignedText PayoutTerms → String
sign m = "sig"

abbrev iso : ℕ → String
iso t = if ltb t 1001 then "1000" else "8640001000"

abbrev hour_crypto : Crypto PayoutTerms
hour_crypto = record crypto {
  date_parse = λ s. elim (text_eq s "1000") [ true ↦ some 1000 | false ↦ some 3601000 ];
}

hour_crypto-Agrees : Agrees hour_crypto sign iso "admin" 1000
unfolding text_eq
hour_crypto-Agrees = record { verifies = λ m. refl; starts = refl; ends = refl }

verify_envelope-sign_envelope_example :
    verify_envelope hour_crypto prefix
      (sign_envelope sign iso prefix terms "admin" 1000)
      trusted
      2000
    ≡ (if ltb 2000 (1000 + approval_ttl_ms) then approved else expired)
unfolding text_eq
verify_envelope-sign_envelope_example =
    verify_envelope-sign_envelope hour_crypto sign iso prefix terms "admin" 1000 2000 trusted
      hour_crypto-Agrees refl
