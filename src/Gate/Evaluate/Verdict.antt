-- ===== src/Gate/Evaluate/Verdict.antt =====
-- When the gate of packages/gate/src/gate.ts lets a payout pass, written out without its checks.
use grainlify_bounty_agent.Base.{
  ℕ, ◌+◌, ◌*◌, ◌≤◌, ◌<◌, ◌≡◌, ◌≢◌, refl, ◌↔◌, ◌⊎◌, inl, inr, Bool, true, false, not, ◌||◌, ◌&&◌,
  Option, none, some, List, map, arith, String, text_eq, includes, every, every-All, All, All-every,
  any, ends_with, Option-cases, ◌==◌,
}
use grainlify_bounty_agent.Gate.Repos.{repo_may_have_bounties, is_test_carve_out}
use grainlify_bounty_agent.Gate.Evaluate.{
  GateFacts, GatePolicy, GateCheck, Caps, Funded, Assignment, RepoPermission, admin, maintain,
  write, gate_checks, evaluate_gate, merged_by_other, is_maintainer, is_assigned, is_old,
  in_bounty_cap, in_daily_cap, source_check, networks, is_some,
}

-- The money is there: an escrow assigned to a contributor on a network for escrows, or a project on
-- which the agent posts its own bounties, on a network for payouts.
abbrev pub HasMoney : (String → String) → GateFacts → GatePolicy → Option Funded → Type 0
HasMoney lower f p (some e) =
    (text_eq e.escrow_state "assigned" ≡ true)
    × (e.contributor_wallet ≢ none)
    × ((ns : List String) × (p.funded_networks ≡ some ns) × (includes ns f.bounty.network ≡ true))
HasMoney lower f p none =
    (f.repo.bounties_enabled ≡ true)
    × ((f.repo.registered_project ≡ true) ⊎ (is_test_carve_out lower f.repo.full_name ≡ true))
    × (includes p.allowed_networks f.bounty.network ≡ true)

abbrev IsMaintainer : RepoPermission → Type 0
IsMaintainer r = (r ≡ admin) ⊎ (r ≡ maintain) ⊎ (r ≡ write)

-- Everything that has to be known and true of a payout.
pub record IsEarned (lower : String → String) (f : GateFacts) (p : GatePolicy) (now : ℕ)
    : Type 0 where
  pub allowlisted : f.repo.allowlisted ≡ true
  pub enabled : f.repo.enabled ≡ true
  pub money : HasMoney lower f p f.funded
  pub open_status :
      (text_eq f.bounty.status "posted" ≡ true) ⊎ (text_eq f.bounty.status "in_review" ≡ true)
  pub merged : f.pr.merged ≡ true
  pub closes : any (λ n. n == f.bounty.issue_number) f.pr.closes_issues ≡ true
  pub merger : String
  pub merger_known : f.pr.merged_by_login ≡ some merger
  pub permission : RepoPermission
  pub permission_known : f.pr.merged_by_permission ≡ some permission
  pub maintains : IsMaintainer permission
  pub other : text_eq (lower merger) (lower f.pr.author_login) ≡ false
  pub holder : Assignment
  pub held : f.assignment ≡ some holder
  pub by_author : holder.github_user_id ≡ f.pr.author_id
  pub is_user : text_eq f.pr.author_type "User" ≡ true
  pub not_bot : ends_with (lower f.pr.author_login) "[bot]" ≡ false
  pub created : ℕ
  pub created_known : f.author ≡ some created
  pub old : created + p.min_account_age_days * 86400000 ≤ now
  pub linked : f.wallet ≢ none
  pub unpaid : f.bounty_already_has_payout ≡ false
  pub caps : Caps
  pub capped : p.caps f.bounty.currency ≡ some caps
  pub positive : 0 < f.bounty.amount_minor
  pub within_bounty : f.bounty.amount_minor ≤ caps.per_bounty_max_minor
  pub within_day : f.paid_today_minor + f.bounty.amount_minor ≤ caps.daily_max_minor

left_true : (a b : Bool) → (a && b) ≡ true → a ≡ true
left_true a b e = ground arith

right_true : (a b : Bool) → (a && b) ≡ true → b ≡ true
right_true a b e = ground arith

either_true : (a b : Bool) → (a || b) ≡ true → (a ≡ true) ⊎ (b ≡ true)
either_true a b e = ground arith

not-true : (a : Bool) → not a ≡ true → a ≡ false
not-true a e = ground arith

is_some-true {ℓ} : {A : Type ℓ} (o : Option A) → is_some o ≡ true → o ≢ none
is_some-true none e = absurd (cc)
is_some-true (some x) e = λ q. cc

is_some_ne {ℓ} : {A : Type ℓ} (o : Option A) → o ≢ none → is_some o ≡ true
is_some_ne none e = absurd (e refl)
is_some_ne (some x) e = refl

-- From the checks that look into something that may be unknown, what they found.
found_merger :
    (lower : String → String) (author : String) (o : Option String)
    → merged_by_other lower author o ≡ true
    → (m : String) × (o ≡ some m) × (text_eq (lower m) (lower author) ≡ false)
found_merger lower author none e = absurd (cc)
found_merger lower author (some m) e = (m, refl, ground arith)

found_permission :
    (o : Option RepoPermission)
    → is_maintainer o ≡ true
    → (r : RepoPermission) × (o ≡ some r) × IsMaintainer r
found_permission none e = absurd (cc)
found_permission (some r) e = (r, refl, ground arith)

found_holder :
    (author : ℕ) (o : Option Assignment)
    → is_assigned author o ≡ true
    → (a : Assignment) × (o ≡ some a) × (a.github_user_id ≡ author)
found_holder author none e = absurd (cc)
found_holder author (some a) e = (a, refl, ground arith)

found_age :
    (now days : ℕ) (o : Option ℕ)
    → is_old now days o ≡ true
    → (created : ℕ) × (o ≡ some created) × (created + days * 86400000 ≤ now)
found_age now days none e = absurd (cc)
found_age now days (some created) e = (created, refl, ground arith)

found_caps :
    (today amount : ℕ) (o : Option Caps)
    → in_bounty_cap amount o ≡ true
    → in_daily_cap today amount o ≡ true
    → (k : Caps) × (o ≡ some k)
      × (0 < amount)
      × (amount ≤ k.per_bounty_max_minor)
      × (today + amount ≤ k.daily_max_minor)
found_caps today amount none e d = absurd (cc)
found_caps today amount (some k) e d = (k, refl, ground arith, ground arith, ground arith)

found_money :
    (lower : String → String) (f : GateFacts) (p : GatePolicy) (o : Option Funded)
    → (source_check lower f o).pass ≡ true
    → includes (networks p o) f.bounty.network ≡ true
    → HasMoney lower f p o
unfolding repo_may_have_bounties
found_money lower f p none e n = ground arith
found_money lower f p (some w) e n = elim (Option-cases p.funded_networks) [
  | inl unset ↦ absurd (ground arith)
  | inr (ns, set) ↦ (ground arith, ground arith, (ns, set, ground arith))
]

has_money :
    (lower : String → String) (f : GateFacts) (p : GatePolicy) (o : Option Funded)
    → f.repo.allowlisted ≡ true
    → f.repo.enabled ≡ true
    → HasMoney lower f p o
    → ((source_check lower f o).pass ≡ true) × (includes (networks p o) f.bounty.network ≡ true)
unfolding repo_may_have_bounties
has_money lower f p none a e m = ground arith
has_money lower f p (some w) a e (assigned, holder, (ns, set, listed)) =
    (ground arith, rw set listed)

module _ (lower : String → String) (f : GateFacts) (p : GatePolicy) (now : ℕ) where
  -- The fifteen checks, as equations.
  abbrev AllPass : Type 0
  AllPass =
      ((f.repo.allowlisted && f.repo.enabled) ≡ true)
      × ((source_check lower f f.funded).pass ≡ true)
      × ((text_eq f.bounty.status "posted" || text_eq f.bounty.status "in_review") ≡ true)
      × (includes (networks p f.funded) f.bounty.network ≡ true)
      × (f.pr.merged ≡ true)
      × (any (λ n. n == f.bounty.issue_number) f.pr.closes_issues ≡ true)
      × ((is_some f.pr.merged_by_login && is_maintainer f.pr.merged_by_permission) ≡ true)
      × (merged_by_other lower f.pr.author_login f.pr.merged_by_login ≡ true)
      × (is_assigned f.pr.author_id f.assignment ≡ true)
      × ((text_eq f.pr.author_type "User" && not (ends_with (lower f.pr.author_login) "[bot]"))
          ≡ true)
      × (is_old now p.min_account_age_days f.author ≡ true)
      × (is_some f.wallet ≡ true)
      × (not f.bounty_already_has_payout ≡ true)
      × (in_bounty_cap f.bounty.amount_minor (p.caps f.bounty.currency) ≡ true)
      × (in_daily_cap f.paid_today_minor f.bounty.amount_minor (p.caps f.bounty.currency) ≡ true)

  every-AllPass : every (λ c. c.pass) (gate_checks lower f p now) ≡ true → AllPass
  unfolding gate_checks
  every-AllPass e =
      let h : All (λ (c : GateCheck). c.pass ≡ true) (gate_checks lower f p now) =
        every-All (λ (c : GateCheck). c.pass) (gate_checks lower f p now) e in
      (
        h.0, h.1.0, h.1.1.0, h.1.1.1.0, h.1.1.1.1.0, h.1.1.1.1.1.0, h.1.1.1.1.1.1.0,
        h.1.1.1.1.1.1.1.0, h.1.1.1.1.1.1.1.1.0, h.1.1.1.1.1.1.1.1.1.0, h.1.1.1.1.1.1.1.1.1.1.0,
        h.1.1.1.1.1.1.1.1.1.1.1.0, h.1.1.1.1.1.1.1.1.1.1.1.1.0, h.1.1.1.1.1.1.1.1.1.1.1.1.1.0,
        h.1.1.1.1.1.1.1.1.1.1.1.1.1.1.0,
      )

  AllPass-every : AllPass → every (λ c. c.pass) (gate_checks lower f p now) ≡ true
  unfolding gate_checks
  AllPass-every e =
      All-every (λ (c : GateCheck). c.pass) (gate_checks lower f p now)
        (
          e.0,
          (
            e.1,
            (
              e.2,
              (
                e.3,
                (
                  e.4,
                  (e.5, (e.6, (e.7, (e.8, (e.9, (e.10, (e.11, (e.12, (e.13, (e.14, tt)))))))))),
                ),
              ),
            ),
          ),
        )

  pass-IsEarned : (evaluate_gate lower f p now).pass ≡ true → IsEarned lower f p now
  unfolding evaluate_gate
  pass-IsEarned e =
      let a : AllPass = every-AllPass e in
      let (merger, merger_known, other) =
        found_merger lower f.pr.author_login f.pr.merged_by_login a.7 in
      let (permission, permission_known, maintains) =
        found_permission f.pr.merged_by_permission (right_true _ _ a.6) in
      let (holder, held, by_author) = found_holder f.pr.author_id f.assignment a.8 in
      let (created, created_known, old) = found_age now p.min_account_age_days f.author a.10 in
      let (caps, capped, positive, within, daily) =
        found_caps f.paid_today_minor f.bounty.amount_minor (p.caps f.bounty.currency) a.13 a.14 in
      record {
        allowlisted = left_true _ _ a.0;
        enabled = right_true _ _ a.0;
        money = found_money lower f p f.funded a.1 a.3;
        open_status = either_true _ _ a.2;
        merged = a.4;
        closes = a.5;
        merger = merger;
        merger_known = merger_known;
        permission = permission;
        permission_known = permission_known;
        maintains = maintains;
        other = other;
        holder = holder;
        held = held;
        by_author = by_author;
        is_user = left_true _ _ a.9;
        not_bot = not-true _ (right_true _ _ a.9);
        created = created;
        created_known = created_known;
        old = old;
        linked = is_some-true f.wallet a.11;
        unpaid = not-true _ a.12;
        caps = caps;
        capped = capped;
        positive = positive;
        within_bounty = within;
        within_day = daily;
      }

  IsEarned-pass : IsEarned lower f p now → (evaluate_gate lower f p now).pass ≡ true
  unfolding evaluate_gate
  IsEarned-pass v =
      let (funds, listed) = has_money lower f p f.funded v.allowlisted v.enabled v.money in
      AllPass-every (
        ground (arith, v.allowlisted, v.enabled),
        funds,
        ground (arith, v.open_status),
        listed,
        v.merged,
        v.closes,
        ground (arith, v.merger_known, v.permission_known, v.maintains),
        ground (arith, v.merger_known, v.other),
        ground (arith, v.held, v.by_author),
        ground (arith, v.is_user, v.not_bot),
        ground (arith, v.created_known, v.old),
        is_some_ne f.wallet v.linked,
        ground (arith, v.unpaid),
        ground (arith, v.capped, v.positive, v.within_bounty),
        ground (arith, v.capped, v.within_day),
      )

  -- The gate passes exactly when everything in `IsEarned` is known and true: nothing unreadable, no
  -- missing caps, no unknown merger and no unassigned bounty ever passes.
  pub evaluate_gate_iff : ((evaluate_gate lower f p now).pass ≡ true) ↔ IsEarned lower f p now
  evaluate_gate_iff = (pass-IsEarned, IsEarned-pass)

  -- Every check is reported, whatever the others say: the names are the same for all facts that agree
  -- on who funds the bounty.
  gate_checks-names :
      (f' : GateFacts) (p' : GatePolicy) (now' : ℕ)
      → is_some f'.funded ≡ is_some f.funded
      → map (λ (c : GateCheck). c.name) (evaluate_gate lower f' p' now').checks
        ≡ map (λ (c : GateCheck). c.name) (evaluate_gate lower f p now).checks
  unfolding evaluate_gate
  gate_checks-names f' p' now' e = ground arith
