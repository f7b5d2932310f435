-- ===== src/Gate/Repos.antt =====
-- packages/gate/src/bounty-repos.ts: which repositories may have bounties. `lower` is
-- `toLowerCase`, and the text of a verdict is left out.
use grainlify_bounty_agent.Base.{
  Bool, true, false, not, ◌&&◌, Option, none, some, List, [], ◌∷◌, if◌then◌else◌, String, includes,
}

abbrev pub bounty_test_repos : List String
bounty_test_repos = "grainlify/grainlify-agent-sandbox" ∷ []

unfoldable pub is_test_carve_out : (String → String) → String → Bool
is_test_carve_out lower full_name = includes bounty_test_repos (lower full_name)

pub record RepoBountyState : Type 0 where
  pub full_name : String
  pub enabled : Bool
  pub bounties_enabled : Bool
  pub registered_project : Bool

pub data RepoRefusal : Type 0 where
  repo_not_allowlisted bounties_not_enabled not_a_registered_project : RepoRefusal

pub record RepoVerdict : Type 0 where
  pub ok : Bool
  pub reason : Option RepoRefusal

abbrev refuse : RepoRefusal → RepoVerdict
refuse r = record { ok = false; reason = some r }

unfoldable pub repo_may_have_bounties : (String → String) → RepoBountyState → RepoVerdict
unfolding is_test_carve_out
repo_may_have_bounties lower r =
    if not r.enabled
    then refuse repo_not_allowlisted
    else if not r.bounties_enabled
    then refuse bounties_not_enabled
    else if not r.registered_project && not (is_test_carve_out lower r.full_name)
    then refuse not_a_registered_project
    else record { ok = true; reason = none }
