-- ===== src/Funded/Lapse/Silence.antt =====
-- expireProposals of apps/agent/src/funded-service.ts, and what becomes of each proposal.
use grainlify_bounty_agent.Base.{
  ℕ, ◌≡◌, ◌∙◌, ap, refl, ◌==◌, Bool, false, not, Option, none, some, List, [], ◌∷◌, arith, if_elim,
  if◌then◌else◌, Result, ok, err, String, any, map, leb, ◌&&◌, any-update_where,
  any-update_where_self, update_where,
}
use grainlify_bounty_agent.DrawService.Tables.{AssignmentRow}
use grainlify_bounty_agent.DrawService.Reopen.{select_where}
use grainlify_bounty_agent.Funded.Tables.{
  FundedTables, FundedEnv, FundedRow, Attestor, Proposal, ProposalStatus, accepted_by_silence,
  was_unassigned, unassign_from, row, live, is_pending, is_assigned_escrow, is_draw, escrow_of, ask,
}
use grainlify_bounty_agent.Funded.Unassign.{carry_out_now}
use grainlify_bounty_agent.Funded.Carry.{
  proposal_of, carry_signed, carry_by_attestor, carry_holder, carry_row, carry_proposal, carry_out,
}
use grainlify_bounty_agent.Funded.Lapse.{
  is_lapsed, lapse_at, lapse, carry_all, carry_lapsed, is_stuck, expire_proposals,
}
use grainlify_bounty_agent.Funded.Consent.Carries.{event_of_row-proposals}

-- What carrying out a proposal does not change in the table of proposals.
module _ {B : Type 0} (F : List Proposal → B)
    (keeps : (k n : ℕ) (ps : List Proposal)
      → F (update_where (λ (p : Proposal). p.id == k) (carry_out_now n) ps) ≡ F ps) where
  carry_signed-keeps :
      (e : FundedEnv) (b : FundedRow) (a : AssignmentRow) (p : Proposal) (t : FundedTables)
      (r : Result String String)
      → F (carry_signed e b a p t r).0.proposals ≡ F t.proposals
  carry_signed-keeps e b a p t (err failure) = refl
  carry_signed-keeps e b a p t (ok signature) =
      keeps p.id e.base.now _
      ∙ ap F (
          event_of_row-proposals e.base.now was_unassigned (some signature)
            (escrow_of b.bounty.id t) _)

  carry_by_attestor-keeps :
      (e : FundedEnv) (b : FundedRow) (a : AssignmentRow) (p : Proposal) (t : FundedTables)
      (attestor : Option Attestor)
      → F (carry_by_attestor e b a p t attestor).0.proposals ≡ F t.proposals
  carry_by_attestor-keeps e b a p t none = refl
  carry_by_attestor-keeps e b a p t (some attestor) =
      carry_signed-keeps e b a p (ask (unassign_from b.escrow.escrow_pubkey a.id _) t)
        (attestor.unassign b.escrow.escrow_pubkey)

  carry_holder-keeps :
      (e : FundedEnv) (b : FundedRow) (p : Proposal) (t : FundedTables) (a : Option AssignmentRow)
      → F (carry_holder e b p t a).0.proposals ≡ F t.proposals
  carry_holder-keeps e b p t none = refl
  carry_holder-keeps e b p t (some a) =
      if_elim P (not (a.id == p.assignment_id)) _ _ (λ another. refl)
        (λ same.
          if_elim P (not (is_assigned_escrow b.escrow.state)) _ _
            (λ free. keeps p.id e.base.now t.proposals)
            (λ on_chain.
              if_elim P (not (is_draw b.escrow.assignment_mode)) _ _ (λ chosen. refl)
                (λ drawn. carry_by_attestor-keeps e b a p t e.attestor)))
    where
      P : FundedTables × (Bool × Bool) → Type 0
      P y = F y.0.proposals ≡ F t.proposals

  carry_proposal-keeps :
      (e : FundedEnv) (t : FundedTables) (p : Option Proposal)
      → F (carry_proposal e t p).0.proposals ≡ F t.proposals
  carry_proposal-keeps e t none = refl
  carry_proposal-keeps e t (some p) = go (row p.bounty_id t)
    where
      go : (b : Option FundedRow) → F (carry_row e p t b).0.proposals ≡ F t.proposals
      go none = refl
      go (some b) = carry_holder-keeps e b p t (live p.bounty_id t)

  pub carry_out-keeps :
      (e : FundedEnv) (id : ℕ) (t : FundedTables) → F (carry_out e id t).0.proposals ≡ F t.proposals
  unfolding carry_out
  carry_out-keeps e id t = carry_proposal-keeps e t (proposal_of id t)

  carry_lapsed-keeps :
      (e : FundedEnv) (ps : List Proposal) (t : FundedTables)
      → F (carry_lapsed e ps t).proposals ≡ F t.proposals
  carry_lapsed-keeps e [] t = refl
  carry_lapsed-keeps e (p ∷ ps) t = carry_lapsed-keeps e ps _ ∙ carry_out-keeps e p.id _

  carry_all-keeps :
      (e : FundedEnv) (ps : List Proposal) (t : FundedTables)
      → F (carry_all e ps t).proposals ≡ F t.proposals
  carry_all-keeps e [] t = refl
  carry_all-keeps e (p ∷ ps) t = carry_all-keeps e ps _ ∙ carry_out-keeps e p.id t

  expire_proposals-keeps :
      (e : FundedEnv) (t : FundedTables)
      → F (expire_proposals e t).proposals ≡ F (lapse e.base.now t).proposals
  unfolding expire_proposals
  expire_proposals-keeps e t =
      let t1 = lapse e.base.now t in
      let ps = select_where (is_lapsed e.base.now) t.proposals in
      let t2 = carry_lapsed e ps t1 in
      carry_all-keeps e (select_where (is_stuck t2) t2.proposals) t2 ∙ carry_lapsed-keeps e ps t1

abbrev pub statuses_of : List Proposal → List ProposalStatus
statuses_of ps = map (λ (p : Proposal). p.status) ps

-- Waiting for an answer at its deadline or later.
abbrev pub is_overdue : ℕ → Proposal → Bool
is_overdue now p = is_pending p.status && leb p.respond_by now

-- The status of a proposal after seven days, if nobody answers it.
abbrev pub by_silence : ℕ → Proposal → ProposalStatus
by_silence now p = if is_overdue now p then accepted_by_silence else p.status

pub statuses_of-carried :
    (k n : ℕ) (ps : List Proposal)
    → statuses_of (update_where (λ (p : Proposal). p.id == k) (carry_out_now n) ps) ≡ statuses_of ps
statuses_of-carried k n [] = refl
statuses_of-carried k n (p ∷ ps) = ground (arith, statuses_of-carried k n ps)

statuses_of-lapse :
    (now : ℕ) (ps : List Proposal)
    → statuses_of (update_where (is_lapsed now) (lapse_at now) ps) ≡ map (by_silence now) ps
statuses_of-lapse now [] = refl
statuses_of-lapse now (p ∷ ps) = ground (arith, statuses_of-lapse now ps)

-- The sweep makes exactly the pending proposals whose deadline has passed accepted by silence, and leaves the
-- status of every other one; after it no proposal is pending past its deadline.
pub statuses_of-expire_proposals :
    (e : FundedEnv) (t : FundedTables)
    → (statuses_of (expire_proposals e t).proposals ≡ map (by_silence e.base.now) t.proposals)
      × (any (is_overdue e.base.now) (expire_proposals e t).proposals ≡ false)
statuses_of-expire_proposals e t = (
  expire_proposals-keeps statuses_of statuses_of-carried e t
      ∙ statuses_of-lapse e.base.now t.proposals,
  expire_proposals-keeps (any (is_overdue e.base.now))
        (λ k n ps. any-update_where (is_overdue e.base.now) _ (carry_out_now n) ps (λ p. refl)) e t
      ∙ any-update_where_self (is_lapsed e.base.now) (lapse_at e.base.now) t.proposals (λ p. refl),
)
