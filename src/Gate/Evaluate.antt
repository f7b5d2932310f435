-- ===== src/Gate/Evaluate.antt =====
-- packages/gate/src/gate.ts: `evaluateGate`. A check is its name and its result; the text that
-- explains it is left out. Times are milliseconds, and `lower` is `toLowerCase`.
pub mod Verdict
use grainlify_bounty_agent.Base.{
  ℕ, ◌+◌, ◌*◌, ◌==◌, Bool, true, false, not, ◌||◌, ◌&&◌, Option, none, some, List, [], ◌∷◌, ◌++◌,
  ltb, leb, if◌then◌else◌, String, text_eq, includes, every, any, ends_with,
}
use grainlify_bounty_agent.Gate.Repos.{RepoBountyState, repo_may_have_bounties}

pub data RepoPermission : Type 0 where
  admin maintain write triage read no_permission : RepoPermission

pub record Repo : Type 0 where
  pub full_name : String
  pub allowlisted : Bool
  pub enabled : Bool
  pub bounties_enabled : Bool
  pub registered_project : Bool

pub record Bounty : Type 0 where
  pub id : String
  pub status : String
  pub issue_number : ℕ
  pub amount_minor : ℕ
  pub currency : String
  pub network : String

pub record Pull : Type 0 where
  pub number : ℕ
  pub merged : Bool
  pub merged_by_login : Option String
  pub merged_by_permission : Option RepoPermission
  pub author_id : ℕ
  pub author_login : String
  pub author_type : String
  pub closes_issues : List ℕ

pub record Assignment : Type 0 where
  pub github_user_id : ℕ
  pub github_login : String

pub record Funded : Type 0 where
  pub escrow_state : String
  pub contributor_wallet : Option String

-- `author` is when the account was created.
pub record GateFacts : Type 0 where
  pub repo : Repo
  pub bounty : Bounty
  pub pr : Pull
  pub author : Option ℕ
  pub wallet : Option String
  pub assignment : Option Assignment
  pub bounty_already_has_payout : Bool
  pub paid_today_minor : ℕ
  pub funded : Option Funded

pub record Caps : Type 0 where
  pub per_bounty_max_minor : ℕ
  pub daily_max_minor : ℕ

pub record GatePolicy : Type 0 where
  pub caps : String → Option Caps
  pub min_account_age_days : ℕ
  pub allowed_networks : List String
  pub funded_networks : Option (List String)

pub data CheckName : Type 0 where
  repo_allowlisted escrow_holds_funds repo_may_have bounty_open network_allowed : CheckName
  pr_merged pr_closes_bounty_issue merged_by_maintainer not_self_merged : CheckName
  assigned_to_author author_not_bot author_account_age wallet_linked : CheckName
  not_already_paid within_per_bounty_cap within_daily_cap : CheckName

pub record GateCheck : Type 0 where
  pub name : CheckName
  pub pass : Bool

pub record GateResult : Type 0 where
  pub pass : Bool
  pub checks : List GateCheck
  pub evaluated_at : ℕ

abbrev check : CheckName → Bool → GateCheck
check name pass = record { name = name; pass = pass }

abbrev is_some {ℓ} : {A : Type ℓ} → Option A → Bool
is_some none = false
is_some (some x) = true

abbrev holds_funds : Funded → Bool
holds_funds e = text_eq e.escrow_state "assigned" && is_some e.contributor_wallet

abbrev repo_state : Repo → RepoBountyState
repo_state r = record {
  full_name = r.full_name;
  enabled = r.allowlisted && r.enabled;
  bounties_enabled = r.bounties_enabled;
  registered_project = r.registered_project;
}

-- The one check that depends on who funds the bounty.
abbrev source_check : (String → String) → GateFacts → Option Funded → GateCheck
source_check lower f (some e) = check escrow_holds_funds (holds_funds e)
source_check lower f none =
    check repo_may_have (repo_may_have_bounties lower (repo_state f.repo)).ok

abbrev or_empty : Option (List String) → List String
or_empty none = []
or_empty (some xs) = xs

abbrev networks : GatePolicy → Option Funded → List String
networks p none = p.allowed_networks
networks p (some e) = or_empty p.funded_networks

abbrev is_maintainer : Option RepoPermission → Bool
is_maintainer none = false
is_maintainer (some admin) = true
is_maintainer (some maintain) = true
is_maintainer (some write) = true
is_maintainer (some triage) = false
is_maintainer (some read) = false
is_maintainer (some no_permission) = false

abbrev merged_by_other : (String → String) → String → Option String → Bool
merged_by_other lower author none = false
merged_by_other lower author (some merger) = not (text_eq (lower merger) (lower author))

abbrev is_assigned : ℕ → Option Assignment → Bool
is_assigned author none = false
is_assigned author (some a) = a.github_user_id == author

-- At least `days` days before `now`.
abbrev is_old : ℕ → ℕ → Option ℕ → Bool
is_old now days none = false
is_old now days (some created) = leb (created + days * 86400000) now

abbrev in_bounty_cap : ℕ → Option Caps → Bool
in_bounty_cap amount none = false
in_bounty_cap amount (some k) = ltb 0 amount && leb amount k.per_bounty_max_minor

abbrev in_daily_cap : ℕ → ℕ → Option Caps → Bool
in_daily_cap today amount none = false
in_daily_cap today amount (some k) = leb (today + amount) k.daily_max_minor

unfoldable pub gate_checks : (String → String) → GateFacts → GatePolicy → ℕ → List GateCheck
gate_checks lower f p now =
    check repo_allowlisted (f.repo.allowlisted && f.repo.enabled)
    ∷ source_check lower f f.funded
    ∷ check bounty_open (text_eq f.bounty.status "posted" || text_eq f.bounty.status "in_review")
    ∷ check network_allowed (includes (networks p f.funded) f.bounty.network)
    ∷ check pr_merged f.pr.merged
    ∷ check pr_closes_bounty_issue (any (λ n. n == f.bounty.issue_number) f.pr.closes_issues)
    ∷ check merged_by_maintainer
        (is_some f.pr.merged_by_login && is_maintainer f.pr.merged_by_permission)
    ∷ check not_self_merged (merged_by_other lower f.pr.author_login f.pr.merged_by_login)
    ∷ check assigned_to_author (is_assigned f.pr.author_id f.assignment)
    ∷ check author_not_bot
        (text_eq f.pr.author_type "User" && not (ends_with (lower f.pr.author_login) "[bot]"))
    ∷ check author_account_age (is_old now p.min_account_age_days f.author)
    ∷ check wallet_linked (is_some f.wallet)
    ∷ check not_already_paid (not f.bounty_already_has_payout)
    ∷ check within_per_bounty_cap (in_bounty_cap f.bounty.amount_minor (p.caps f.bounty.currency))
    ∷ check within_daily_cap
        (in_daily_cap f.paid_today_minor f.bounty.amount_minor (p.caps f.bounty.currency))
    ∷ []

unfoldable pub evaluate_gate : (String → String) → GateFacts → GatePolicy → ℕ → GateResult
unfolding gate_checks
evaluate_gate lower f p now = record {
  pass = every (λ c. c.pass) (gate_checks lower f p now);
  checks = gate_checks lower f p now;
  evaluated_at = now;
}
