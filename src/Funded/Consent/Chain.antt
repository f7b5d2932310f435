-- ===== src/Funded/Consent/Chain.antt =====
-- reconcile and the assignments of apps/agent/src/funded-service.ts, and consent.
use grainlify_bounty_agent.Base.{
  ℕ, suc, ◌==◌, true, false, not, ◌||◌, ◌&&◌, Option, none, some, List, [], ◌∷◌, arith, if_elim,
  Result, ok, err, String, any, first,
}
use grainlify_bounty_agent.DrawService.Tables.{
  BountyRow, AssignmentRow, ApplicationRow, bounty_escrow_closed_by_funder,
  escrow_assigned_to_unknown, is_pr_submitted, funded_assigned,
}
use grainlify_bounty_agent.Funded.Tables.{
  FundedTables, FundedEnv, FundedRow, Attestor, ChainEscrow, EscrowRow, was_assigned, was_refunded,
  assign_to, row, live, wallet_of, escrow_of, is_assigned_escrow, is_funded_escrow, is_draw,
}
use grainlify_bounty_agent.Funded.Escrow.{record_assigned, record_closed}
use grainlify_bounty_agent.Funded.Assign.{record_assignment}
use grainlify_bounty_agent.Funded.Attest.{attest_assign, attested}
use grainlify_bounty_agent.Funded.Reconcile.{
  What, closed, release_any, or_wallet, is_wallet, named_applicant, named_on_chain, applied_with,
  retry_assign, prepared_recently, was_prepared, reason_of, agreed_id, has_agreed, nobody_named,
  by_contributor, by_chain, reconcile_row, reconcile_one, is_reconciled, reconcile_all, reconcile,
}
use grainlify_bounty_agent.Funded.Consent.{IsConsented, with_core-IsConsented, ask-IsConsented}
use grainlify_bounty_agent.Funded.Consent.Keeps.{
  event_of_row-IsConsented, enqueue_event-IsConsented, record_unassigned-IsConsented,
  release-IsConsented,
}
use grainlify_bounty_agent.Funded.Consent.Answers.{audit-IsConsented}

-- The tables other than the proposals and the requests do not matter.
same_consent :
    (t : FundedTables) (escrows : List EscrowRow)
    → IsConsented t
    → IsConsented (record t { escrows = escrows })
same_consent t escrows v = record {
  below = v.below;
  apart = v.apart;
  answered = v.answered;
  justified = v.justified;
}

record_assigned-IsConsented :
    (now bounty : ℕ) (wallet : String) (tx : Option String) (t : FundedTables)
    → IsConsented t
    → IsConsented (record_assigned now bounty wallet tx t)
record_assigned-IsConsented now bounty wallet tx t v =
    event_of_row-IsConsented now was_assigned tx (escrow_of bounty t) _ (same_consent t _ v)

record_closed-IsConsented :
    (now bounty : ℕ) (t : FundedTables) → IsConsented t → IsConsented (record_closed now bounty t)
record_closed-IsConsented now bounty t v =
    event_of_row-IsConsented now was_refunded none (escrow_of bounty t) _ (same_consent t _ v)

pub record_assignment-IsConsented :
    (now : ℕ) (b : FundedRow) (a : ApplicationRow) (wallet : String) (tx : Option String)
    (actor : String) (t : FundedTables)
    → IsConsented t
    → IsConsented (record_assignment now b a wallet tx actor t)
record_assignment-IsConsented now b a wallet tx actor t v =
    enqueue_event-IsConsented a.github_user_id (funded_assigned (suc t.core.seq)) false _ _
      (omega arith)
      (record_assigned-IsConsented now b.bounty.id wallet tx _
        (with_core-IsConsented _ t (omega arith) v))

attested-IsConsented :
    (e : FundedEnv) (b : FundedRow) (wallet : String) (t : FundedTables) (r : Result String String)
    → IsConsented t
    → IsConsented (attested e b wallet t r).0
attested-IsConsented e b wallet t (ok signature) v =
    record_assigned-IsConsented e.base.now b.bounty.id wallet (some signature) t v
attested-IsConsented e b wallet t (err failure) v = same_consent t _ v

pub attest_assign-IsConsented :
    (e : FundedEnv) (b : FundedRow) (wallet : String) (attestor : Option Attestor)
    (t : FundedTables)
    → IsConsented t
    → IsConsented (attest_assign e b wallet attestor t).0
attest_assign-IsConsented e b wallet none t v = v
attest_assign-IsConsented e b wallet (some attestor) t v =
    attested-IsConsented e b wallet _ (attestor.assign b.escrow.escrow_pubkey wallet)
      (ask-IsConsented (assign_to b.escrow.escrow_pubkey wallet) t tt v)

module _ (e : FundedEnv) (b : FundedRow) where
  abbrev Keeps : FundedTables × Option What → Type 0
  Keeps y = IsConsented y.0

  release_any-IsConsented :
      (a : Option AssignmentRow) (t : FundedTables)
      → IsConsented t
      → IsConsented (release_any e.base.now b a t)
  release_any-IsConsented none t v = v
  release_any-IsConsented (some a) t v =
      release-IsConsented e.base.now b a b.funded_by
        "The funder took the escrow back after its deadline." none false t v

  closed-IsConsented :
      (a : Option AssignmentRow) (t : FundedTables)
      → IsConsented t
      → Keeps (closed e.base.now b a t)
  closed-IsConsented a t v =
      if_elim Keeps (any (λ n. n == b.bounty.id) t.payouts_under_way) _ _ (λ releasing. v)
        (λ gone. audit-IsConsented "agent" bounty_escrow_closed_by_funder b.bounty.id _ (
          release_any-IsConsented a _ (
            with_core-IsConsented _ _ (omega arith)
              (record_closed-IsConsented e.base.now b.bounty.id t v))))

  named_on_chain-IsConsented :
      (named : String) (t : FundedTables) (a : Option AssignmentRow)
      → IsConsented t
      → Keeps (named_on_chain e.base.now b named t a)
  named_on_chain-IsConsented named t (some a) v =
      if_elim Keeps
        (not (is_assigned_escrow b.escrow.state)
          && is_wallet named (or_wallet b.escrow.contributor_wallet (wallet_of a.github_user_id t)))
        _ _ (λ late. record_assigned-IsConsented e.base.now b.bounty.id named none t v) (λ fine. v)
  named_on_chain-IsConsented named t none v =
      by_applicant (first (applied_with b.bounty.id named t) t.core.applications)
    where
      by_applicant : (r : Option ApplicationRow) → Keeps (named_applicant e.base.now b named t r)
      by_applicant none =
          audit-IsConsented "agent" escrow_assigned_to_unknown b.bounty.id _ (same_consent t _ v)
      by_applicant (some r) =
          record_assignment-IsConsented e.base.now b r named none b.funded_by t v

  retry_assign-IsConsented :
      (t : FundedTables) (wallet : Option String)
      → IsConsented t
      → Keeps (retry_assign e b t wallet)
  retry_assign-IsConsented t none v = v
  retry_assign-IsConsented t (some wallet) v = attest_assign-IsConsented e b wallet e.attestor t v

  nobody_named-IsConsented :
      (t : FundedTables) (a : Option AssignmentRow) → IsConsented t → Keeps (nobody_named e b t a)
  nobody_named-IsConsented t none v =
      if_elim Keeps (is_assigned_escrow b.escrow.state) _ _
        (λ stale. record_unassigned-IsConsented e.base.now b.bounty.id none t v) (λ fine. v)
  nobody_named-IsConsented t (some a) v =
      if_elim Keeps (is_funded_escrow b.escrow.state && is_draw b.escrow.assignment_mode) _ _
        (λ pending. retry_assign-IsConsented t (wallet_of a.github_user_id t) v)
        (λ other.
          if_elim Keeps (is_assigned_escrow b.escrow.state) _ _
            (λ gone.
              let unassigned = record_unassigned-IsConsented e.base.now b.bounty.id none t v in
              if_elim Keeps
                (was_prepared (prepared_recently e.base.now b.escrow.id t)
                  && (not (is_pr_submitted a.status) || has_agreed a.id t))
                _ _
                (λ ours.
                  release-IsConsented e.base.now b a b.funded_by
                    (reason_of (prepared_recently e.base.now b.escrow.id t)) (agreed_id a.id t)
                    false _ unassigned)
                (λ theirs.
                  release-IsConsented e.base.now b a b.funded_by "" none true _ unassigned))
            (λ fine. v))

  by_chain-IsConsented :
      (t : FundedTables) (c : Option ChainEscrow) → IsConsented t → Keeps (by_chain e b t c)
  by_chain-IsConsented t none v = closed-IsConsented (live b.bounty.id t) t v
  by_chain-IsConsented t (some c) v = by_named c.contributor
    where
      by_named : (n : Option String) → Keeps (by_contributor e b t n)
      by_named (some named) = named_on_chain-IsConsented named t (live b.bounty.id t) v
      by_named none = nobody_named-IsConsented t (live b.bounty.id t) v

pub reconcile_one-IsConsented :
    (e : FundedEnv) (bounty : ℕ) (t : FundedTables)
    → IsConsented t
    → IsConsented (reconcile_one e bounty t).0
unfolding reconcile_one
reconcile_one-IsConsented e bounty t v = by_row (row bounty t)
  where
    by_row : (b : Option FundedRow) → IsConsented (reconcile_row e t b).0
    by_row none = v
    by_row (some b) = by_chain-IsConsented e b t (e.read_chain b.escrow.escrow_pubkey) v

reconcile_all-IsConsented :
    (e : FundedEnv) (start : FundedTables) (bs : List BountyRow) (t : FundedTables)
    → IsConsented t
    → IsConsented (reconcile_all e start bs t)
reconcile_all-IsConsented e start [] t v = v
reconcile_all-IsConsented e start (b ∷ bs) t v = reconcile_all-IsConsented e start bs _ (
    if_elim IsConsented (is_reconciled start b) _ _ (λ due. reconcile_one-IsConsented e b.id t v)
      (λ other. v))

pub reconcile-IsConsented :
    (e : FundedEnv) (t : FundedTables) → IsConsented t → IsConsented (reconcile e t)
unfolding reconcile
reconcile-IsConsented e t v = reconcile_all-IsConsented e t t.core.bounties t v
