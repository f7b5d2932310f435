-- ===== src/Funded/Consent/Histories.antt =====
-- The histories of the funded bounties of apps/agent/src/funded-service.ts in which its handlers run one at a
-- time: in any order, with what other services do in between. A handler is one step, from its start to its
-- end, though the source awaits the database and the chain within it; two handlers that overlap, and a
-- crash inside one, are in no history here.
use grainlify_bounty_agent.Base.{ℕ, ◌≤◌, ◌≡◌, Bool, [], arith, String, All, All-mono}
use grainlify_bounty_agent.Funded.Tables.{FundedTables, FundedEnv, assign_to, ask}
use grainlify_bounty_agent.Funded.Unassign.{unassign, unassign_confirm}
use grainlify_bounty_agent.Funded.Propose.{propose}
use grainlify_bounty_agent.Funded.Agree.{respond}
use grainlify_bounty_agent.Funded.Lapse.{withdraw, expire_proposals, leave_to_deadline}
use grainlify_bounty_agent.Funded.Reconcile.{reconcile}
use grainlify_bounty_agent.Funded.Consent.{IsAnswered, IsJustified, IsConsented, ask-IsConsented}
use grainlify_bounty_agent.Funded.Consent.Keeps.{unassign-IsConsented, unassign_confirm-IsConsented}
use grainlify_bounty_agent.Funded.Consent.Answers.{
  propose-IsConsented, respond-IsConsented, withdraw-IsConsented, leave_to_deadline-IsConsented,
}
use grainlify_bounty_agent.Funded.Consent.Lapses.{expire_proposals-IsConsented}
use grainlify_bounty_agent.Funded.Consent.Chain.{reconcile-IsConsented}

-- A change that leaves the proposals and the requests alone and takes no id back.
pub record IsElsewhere (t u : FundedTables) : Type 0 where
  pub later : t.core.seq ≤ u.core.seq
  pub proposals : u.proposals ≡ t.proposals
  pub requests : u.requests ≡ t.requests

pub data Step : FundedTables → FundedTables → Type 0 where
  elsewhere : (t u : FundedTables) → IsElsewhere t u → Step t u
  unassigns :
      (t : FundedTables) (e : FundedEnv) (bounty : ℕ) (login reason : String)
      → Step t (unassign e bounty login reason t).0
  confirms_unassign :
      (t : FundedTables) (e : FundedEnv) (bounty : ℕ) (login reason signature : String)
      → Step t (unassign_confirm e bounty login reason signature t).0
  proposes :
      (t : FundedTables) (e : FundedEnv) (bounty : ℕ) (login : String) (user : ℕ) (reason : String)
      → Step t (propose e bounty login user reason t).0
  responds :
      (t : FundedTables) (e : FundedEnv) (proposal : ℕ) (login : String) (user : ℕ) (accept : Bool)
      (response : String)
      → Step t (respond e proposal login user accept response t).0
  withdraws :
      (t : FundedTables) (e : FundedEnv) (proposal : ℕ) (login : String)
      → Step t (withdraw e proposal login t).0
  expires : (t : FundedTables) (e : FundedEnv) → Step t (expire_proposals e t)
  leaves :
      (t : FundedTables) (proposal : ℕ) (admin : String)
      → Step t (leave_to_deadline proposal admin t).0
  -- The request that a draw or a confirmed assignment sends; what it records is `elsewhere`.
  asks_assign :
      (t : FundedTables) (escrow wallet : String) → Step t (ask (assign_to escrow wallet) t)
  reconciles : (t : FundedTables) (e : FundedEnv) → Step t (reconcile e t)

pub data Reach (start : FundedTables) : FundedTables → Type 0 where
  here : Reach start start
  next : {t u : FundedTables} → Reach start t → Step t u → Reach start u

elsewhere-IsConsented : (t u : FundedTables) → IsElsewhere t u → IsConsented t → IsConsented u
elsewhere-IsConsented t u s v = record {
  below = rw s.proposals (All-mono _ _ t.proposals (λ p b. omega (arith, b, s.later)) v.below);
  apart = rw s.proposals v.apart;
  answered = rw s.proposals v.answered;
  justified = rw s.proposals (rw s.requests v.justified);
}

Step-IsConsented : {t u : FundedTables} → Step t u → IsConsented t → IsConsented u
Step-IsConsented (elsewhere t u s) v = elsewhere-IsConsented t u s v
Step-IsConsented (unassigns t e bounty login reason) v =
    unassign-IsConsented e bounty login reason t v
Step-IsConsented (confirms_unassign t e bounty login reason signature) v =
    unassign_confirm-IsConsented e bounty login reason t v signature
Step-IsConsented (proposes t e bounty login user reason) v =
    propose-IsConsented e t v bounty login user reason
Step-IsConsented (responds t e proposal login user accept response) v =
    respond-IsConsented e t v proposal login user accept response
Step-IsConsented (withdraws t e proposal login) v = withdraw-IsConsented e t v proposal login
Step-IsConsented (expires t e) v = expire_proposals-IsConsented e t v
Step-IsConsented (leaves t proposal admin) v = leave_to_deadline-IsConsented t v proposal admin
Step-IsConsented (asks_assign t escrow wallet) v = ask-IsConsented (assign_to escrow wallet) t tt v
Step-IsConsented (reconciles t e) v = reconcile-IsConsented e t v

Reach-IsConsented : {start u : FundedTables} → IsConsented start → Reach start u → IsConsented u
Reach-IsConsented v here = v
Reach-IsConsented v (next r s) = Step-IsConsented s (Reach-IsConsented v r)

none_yet : (t : FundedTables) → t.proposals ≡ [] → t.requests ≡ [] → IsConsented t
none_yet t p r = record {
  below = rw p tt;
  apart = rw p tt;
  answered = rw p tt;
  justified = rw r tt;
}

-- Where the handlers run one at a time and none stops midway, in every history from tables without proposals
-- and without requests to the attestor: where the attestor was asked to unassign somebody whose pull request
-- was open, a proposal about that assignment was agreed on; and every proposal that is accepted records who
-- answered it, or was accepted by silence no sooner than seven days after it was made.
pub Reach-consent :
    (start u : FundedTables)
    → start.proposals ≡ []
    → start.requests ≡ []
    → Reach start u
    → All (IsJustified u.proposals) u.requests × All IsAnswered u.proposals
Reach-consent start u p r h =
    let v = Reach-IsConsented (none_yet start p r) h in (v.justified, v.answered)
