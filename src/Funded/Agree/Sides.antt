-- ===== src/Funded/Agree/Sides.antt =====
-- Who may answer a proposal to unassign, in respond of apps/agent/src/funded-service.ts.
use grainlify_bounty_agent.Base.{
  ℕ, ◌≡◌, refl, ◌⊎◌, inl, inr, ◌==◌, Bool, true, false, not, Option, none, some, arith, if_elim,
  ◌∙◌, ap, List, [], ◌∷◌, update_where, first-holds, truthy, if◌then◌else◌, map, String, text_eq,
}
use grainlify_bounty_agent.DrawService.Tables.{AssignmentRow, DedupeKey, unassign_refused}
use grainlify_bounty_agent.Funded.Tables.{
  FundedTables, FundedEnv, FundedError, FundedRow, Side, funder, contributor, Proposal,
  ProposalStatus, accepted, refused, row, live, is_pending, not_the_other_side, response_required,
  assignment_changed, not_a_funded_bounty, no_such_proposal, not_pending,
}
use grainlify_bounty_agent.Funded.Propose.{Agreement, tell, user_of, side, same_side, refuse}
use grainlify_bounty_agent.Funded.Carry.{proposal_of, carry_out}
use grainlify_bounty_agent.Funded.Lapse.Silence.{statuses_of, statuses_of-carried, carry_out-keeps}
use grainlify_bounty_agent.Funded.Agree.{
  accept_by, refuse_by, did_agree, answer, respond_side, respond_holder, respond_row, respond_to,
  respond,
}

-- The status of each proposal after the answer to the one with this id.
abbrev pub said : ℕ → Bool → Proposal → ProposalStatus
said id accept p = if p.id == id then if accept then accepted else refused else p.status

statuses_of-update :
    (k : ℕ) (v : Bool) (f : Proposal → Proposal) (ps : List Proposal)
    → ((p : Proposal) → (f p).status ≡ (if v then accepted else refused))
    → statuses_of (update_where (λ (p : Proposal). p.id == k) f ps) ≡ map (said k v) ps
statuses_of-update k v f [] h = refl
statuses_of-update k v f (p ∷ ps) h = ground (arith, h p, statuses_of-update k v f ps h)

same_side-eq : (a b : Side) → same_side a b ≡ true → a ≡ b
same_side-eq funder funder h = refl
same_side-eq contributor contributor h = refl
same_side-eq funder contributor h = cc
same_side-eq contributor funder h = cc

same_side-differs : (a b : Side) → same_side a b ≡ false → ¬ (a ≡ b)
same_side-differs funder funder h e = cc
same_side-differs contributor contributor h e = cc
same_side-differs funder contributor h e = cc
same_side-differs contributor funder h e = cc

did_agree-tables : (x : FundedTables × (Bool × Bool)) → (did_agree x).0 ≡ x.0
did_agree-tables (t, (out, waits)) = refl

tell-proposals :
    (user : Option ℕ) (key : DedupeKey) (t : FundedTables)
    → (tell user key t).proposals ≡ t.proposals
tell-proposals none key t = refl
tell-proposals (some user) key t =
    if_elim (λ (u : FundedTables). u.proposals ≡ t.proposals) (user == 0) _ _ (λ nobody. refl)
      (λ somebody. refl)

module _ (e : FundedEnv) (id : ℕ) (login : String) (user : ℕ) (accept : Bool) (response : String)
    (t : FundedTables) where
  -- The caller is a side of the bounty, and not the one that proposed; the proposal waits, and is about the
  -- assignment that is live.
  pub record IsOtherSide : Type 0 where
    pub proposal : Proposal
    pub found : proposal_of id t ≡ some proposal
    pub waits : is_pending proposal.status ≡ true
    pub bounty : FundedRow
    pub funded : row proposal.bounty_id t ≡ some bounty
    pub holder : AssignmentRow
    pub held : live proposal.bounty_id t ≡ some holder
    pub about : (holder.id == proposal.assignment_id) ≡ true
    pub caller : Side
    pub is_caller : side e bounty holder login user ≡ some caller
    pub other : ¬ (caller ≡ proposal.proposed_by)

  -- A refusal gives its reason.
  abbrev pub IsGiven : Type 0
  IsGiven = (accept ≡ true) ⊎ (text_eq (e.base.trim response) "" ≡ false)

  -- Either nothing changed, because this is not the other side or the reason is missing; or the other side
  -- answered, and the status of this proposal alone is what it said.
  abbrev pub IsReply : FundedTables × Agreement → Type 0
  IsReply x =
      ((why : FundedError) × (x ≡ (t, refuse why)) × (IsOtherSide → IsGiven → ⊥))
      ⊎ (IsOtherSide × IsGiven × (statuses_of x.0.proposals ≡ map (said id accept) t.proposals))

  module _ (p : Proposal) (found : proposal_of id t ≡ some p) (waits : is_pending p.status ≡ true)
      (b : FundedRow) (funded : row p.bounty_id t ≡ some b) (a : AssignmentRow)
      (held : live p.bounty_id t ≡ some a) (about : (a.id == p.assignment_id) ≡ true) where
    answer-IsReply :
        IsOtherSide → (v : Bool) → accept ≡ v → IsReply (answer e b a p login v response t)
    answer-IsReply o true y = inr (
      o,
      inl y,
      ap (λ (u : FundedTables). statuses_of u.proposals) (did_agree-tables (carry_out e p.id _))
          ∙ carry_out-keeps statuses_of statuses_of-carried e p.id _
          ∙ statuses_of-update p.id true
              (accept_by e.base.now login (truthy (some (e.base.cut_text response)))) t.proposals
              (λ q. refl)
          ∙ rw (y, same) refl,
    )
      where
        same : p.id ≡ id
        same = ground (arith, first-holds (λ (q : Proposal). q.id == id) t.proposals p found)
    answer-IsReply o false n =
        if_elim IsReply (text_eq (e.base.trim response) "") _ _
          (λ silent.
            inl (response_required, refl, λ q g. elim g [ inl agrees ↦ cc | inr given ↦ cc ]))
          (λ given. inr (
            o,
            inr given,
            ap statuses_of (tell-proposals (user_of b a p.proposed_by) (unassign_refused p.id) _)
                ∙ statuses_of-update p.id false
                    (refuse_by e.base.now login (e.base.cut_text response)) t.proposals (λ q. refl)
                ∙ rw (n, same) refl,
          ))
      where
        same : p.id ≡ id
        same = ground (arith, first-holds (λ (q : Proposal). q.id == id) t.proposals p found)

    respond_side-IsReply :
        (s : Option Side)
        → side e b a login user ≡ s
        → IsReply (respond_side e b a p login accept response t s)
    respond_side-IsReply none w = inl (not_the_other_side, refl, λ o g. cc)
    respond_side-IsReply (some s) w =
        if_elim IsReply (same_side s p.proposed_by) _ _
          (λ own.
            let same = same_side-eq s p.proposed_by own in
            inl (not_the_other_side, refl, λ o g. o.other (cc)))
          (λ other.
            answer-IsReply
              (record {
                proposal = p;
                found = found;
                waits = waits;
                bounty = b;
                funded = funded;
                holder = a;
                held = held;
                about = about;
                caller = s;
                is_caller = w;
                other = same_side-differs s p.proposed_by other;
              })
              accept refl)

  respond_holder-IsReply :
      (p : Proposal) (b : FundedRow) (a : Option AssignmentRow)
      → proposal_of id t ≡ some p
      → is_pending p.status ≡ true
      → row p.bounty_id t ≡ some b
      → live p.bounty_id t ≡ a
      → IsReply (respond_holder e b p login user accept response t a)
  respond_holder-IsReply p b none found waits funded held =
      inl (assignment_changed, refl, λ o g. cc)
  respond_holder-IsReply p b (some a) found waits funded held =
      if_elim IsReply (not (a.id == p.assignment_id)) _ _
        (λ another. inl (assignment_changed, refl, λ o g. cc))
        (λ same.
          respond_side-IsReply p found waits b funded a held (ground (arith, same))
            (side e b a login user) refl)

  respond_row-IsReply :
      (p : Proposal) (b : Option FundedRow)
      → proposal_of id t ≡ some p
      → is_pending p.status ≡ true
      → row p.bounty_id t ≡ b
      → IsReply (respond_row e p login user accept response t b)
  respond_row-IsReply p none found waits funded = inl (not_a_funded_bounty, refl, λ o g. cc)
  respond_row-IsReply p (some b) found waits funded =
      respond_holder-IsReply p b (live p.bounty_id t) found waits funded refl

  respond_to-IsReply :
      (p : Option Proposal)
      → proposal_of id t ≡ p
      → IsReply (respond_to e login user accept response t p)
  respond_to-IsReply none found = inl (no_such_proposal, refl, λ o g. cc)
  respond_to-IsReply (some p) found =
      if_elim IsReply (not (is_pending p.status)) _ _
        (λ decided.
          inl (not_pending, refl, λ o g. ground (arith, decided, found, o.found, o.waits)))
        (λ waits. respond_row-IsReply p (row p.bounty_id t) found (ground (arith, waits)) refl)

-- What respond does, run to its end: a caller who is the side that did not propose, on a waiting proposal about
-- the live assignment, and with a reason for a refusal, makes this proposal accepted or refused as they said,
-- and every other proposal keeps its status. Anybody else, and a refusal without a reason, changes nothing.
pub respond-IsReply :
    (e : FundedEnv) (id : ℕ) (login : String) (user : ℕ) (accept : Bool) (response : String)
    (t : FundedTables)
    → IsReply e id login user accept response t (respond e id login user accept response t)
unfolding respond
respond-IsReply e id login user accept response t =
    respond_to-IsReply e id login user accept response t (proposal_of id t) refl
