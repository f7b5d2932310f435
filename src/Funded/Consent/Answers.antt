-- ===== src/Funded/Consent/Answers.antt =====
-- propose, respond, withdraw and leaveToDeadline of apps/agent/src/funded-service.ts, and consent.
use grainlify_bounty_agent.Base.{
  ℕ, suc, ◌≡◌, refl, sym, subst, ◌==◌, inl, inr, Bool, true, false, not, ◌&&◌, Option, none, some,
  List, [], ◌∷◌, arith, if_elim, Bool-cases, String, text_eq, truthy, any, first, first-holds,
  update_where, All, All-mono, IsApart, same_id,
}
use grainlify_bounty_agent.DrawService.Tables.{
  AssignmentRow, DedupeKey, AuditAction, is_pr_submitted, unassign_acceptance, unassign_refusal,
  unassign_proposal, unassign_proposed, unassign_refused, unassign_withdrawal,
  dispute_left_to_deadline,
}
use grainlify_bounty_agent.Funded.Tables.{
  FundedTables, FundedEnv, FundedRow, Proposal, ProposalStatus, pending, accepted,
  accepted_by_silence, refused, withdrawn, Side, row, live, enabled_for, is_pending, is_agreed,
  set_proposal,
}
use grainlify_bounty_agent.Funded.Propose.{
  Agreement, audit, tell, user_of, other, same_side, side, new_proposal, insert_proposal,
  propose_as, propose_holder, propose_row, propose,
}
use grainlify_bounty_agent.Funded.Carry.{proposal_of, carry_out}
use grainlify_bounty_agent.Funded.Agree.{
  accept_by, refuse_by, did_agree, answer, respond_side, respond_holder, respond_row, respond_to,
  respond,
}
use grainlify_bounty_agent.Funded.Lapse.{
  is_withdrawable, withdraw_at, withdraw_found, withdraw, is_dispute, leave_by, leave_found,
  leave_to_deadline,
}
use grainlify_bounty_agent.Funded.Consent.{
  IsConsented, with_core-IsConsented, add_proposal-IsConsented, update-IsConsented,
}
use grainlify_bounty_agent.Funded.Consent.Keeps.{all_of, enqueue_event-IsConsented}
use grainlify_bounty_agent.Funded.Consent.Carries.{is_agreed_id, carry_out-Carried}

pub tell-IsConsented :
    (user : Option ℕ) (key : DedupeKey) (t : FundedTables)
    → IsConsented t
    → IsConsented (tell user key t)
tell-IsConsented none key t v = v
tell-IsConsented (some user) key t v =
    if_elim IsConsented (user == 0) t _ (λ nobody. v)
      (λ somebody. enqueue_event-IsConsented user key false t.core t (omega arith) v)

pub audit-IsConsented :
    (actor : String) (action : AuditAction) (bounty : ℕ) (t : FundedTables)
    → IsConsented t
    → IsConsented (audit actor action bounty t)
audit-IsConsented actor action bounty t v = with_core-IsConsented _ t (omega arith) v

-- What is true of the proposal that an id finds is true of every proposal with that id.
all_found :
    (P : Proposal → Type 0) (k : ℕ) (ps : List Proposal) (p : Proposal)
    → IsApart (same_id (λ (q : Proposal). q.id)) ps
    → first (λ (q : Proposal). q.id == k) ps ≡ some p
    → P p
    → All (λ (q : Proposal). (q.id == k) ≡ true → P q) ps
all_found P k [] p v f h = tt
all_found P k (q ∷ ps) p v f h = elim (Bool-cases (q.id == k)) [
  | inl hit ↦
      let same : q ≡ p = ground (arith, hit, f) in
      ((λ e. rw same h), others ps (ground (arith, hit)) v.0)
  | inr miss ↦
      ((λ e. absurd (ground (arith, e, miss))), all_found P k ps p v.1 (ground (arith, miss, f)) h)
]
  where
    others :
        (rs : List Proposal)
        → q.id ≡ k
        → any (λ (r : Proposal). q.id == r.id) rs ≡ false
        → All (λ (r : Proposal). (r.id == k) ≡ true → P r) rs
    others [] e n = tt
    others (r ∷ rs) e n =
        ((λ hit. absurd (ground (arith, hit, e, n))), others rs e (ground (arith, n)))

not_both : (s : ProposalStatus) → is_agreed s ≡ true → is_pending s ≡ true → ⊥
not_both pending a b = cc
not_both accepted a b = cc
not_both accepted_by_silence a b = cc
not_both refused a b = cc
not_both withdrawn a b = cc

accepted_is_agreed :
    (k : ℕ) (f : Proposal → Proposal) (ps : List Proposal)
    → ((p : Proposal) → (f p).id ≡ p.id)
    → ((p : Proposal) → is_agreed (f p).status ≡ true)
    → is_agreed_id k (update_where (λ (p : Proposal). p.id == k) f ps) ≡ true
accepted_is_agreed k f [] same h = refl
accepted_is_agreed k f (p ∷ ps) same h =
    ground (arith, same p, h p, accepted_is_agreed k f ps same h)

module _ (e : FundedEnv) (t : FundedTables) (v : IsConsented t) where
  insert_proposal-IsConsented :
      (b : FundedRow) (a : AssignmentRow) (login reason : String) (s : Side)
      → IsConsented (insert_proposal e b a login reason t s).0
  insert_proposal-IsConsented b a login reason s =
      if_elim (λ (y : FundedTables × Agreement). IsConsented y.0)
        (any (λ (p : Proposal). p.assignment_id == a.id && is_pending p.status) t.proposals) _ _
        (λ waiting. v)
        (λ free. tell-IsConsented (user_of b a (other s)) (unassign_proposed (suc t.core.seq)) _ (
          audit-IsConsented login unassign_proposal b.bounty.id _ (
            add_proposal-IsConsented (new_proposal e b a s login reason (suc t.core.seq)) t refl
              (record { seven_days = refl; grounded = tt }) v)))

  propose_as-IsConsented :
      (b : FundedRow) (a : AssignmentRow) (login reason : String) (s : Option Side)
      → IsConsented (propose_as e b a login reason t s).0
  propose_as-IsConsented b a login reason none = v
  propose_as-IsConsented b a login reason (some s) =
      if_elim P (not (is_pr_submitted a.status)) _ _ (λ early. v)
        (λ submitted.
          if_elim P (text_eq (e.base.trim reason) "") _ _ (λ silent. v)
            (λ given. insert_proposal-IsConsented b a login reason s))
    where
      P : FundedTables × Agreement → Type 0
      P y = IsConsented y.0

  propose_holder-IsConsented :
      (b : FundedRow) (login : String) (user : ℕ) (reason : String) (a : Option AssignmentRow)
      → IsConsented (propose_holder e b login user reason t a).0
  propose_holder-IsConsented b login user reason none = v
  propose_holder-IsConsented b login user reason (some a) =
      propose_as-IsConsented b a login reason (side e b a login user)

  propose_row-IsConsented :
      (bounty : ℕ) (login : String) (user : ℕ) (reason : String) (b : Option FundedRow)
      → IsConsented (propose_row e bounty login user reason t b).0
  propose_row-IsConsented bounty login user reason none = v
  propose_row-IsConsented bounty login user reason (some b) =
      if_elim (λ (y : FundedTables × Agreement). IsConsented y.0)
        (not (enabled_for e t b.funded_by)) _ _ (λ off. v)
        (λ on. propose_holder-IsConsented b login user reason (live bounty t))

  pub propose-IsConsented :
      (bounty : ℕ) (login : String) (user : ℕ) (reason : String)
      → IsConsented (propose e bounty login user reason t).0
  unfolding propose
  propose-IsConsented bounty login user reason =
      propose_row-IsConsented bounty login user reason (row bounty t)

  did_agree-IsConsented :
      (r : FundedTables × (Bool × Bool)) → IsConsented r.0 → IsConsented (did_agree r).0
  did_agree-IsConsented (u, (out, waits)) h = h

  module _ (id : ℕ) (p : Proposal) (found : proposal_of id t ≡ some p)
      (open_still : is_pending p.status ≡ true) where
    same_key_of : p.id ≡ id
    same_key_of = ground (arith, first-holds (λ (q : Proposal). q.id == id) t.proposals p found)

    refusable :
        All (λ (q : Proposal). (q.id == p.id) ≡ true → is_pending q.status ≡ true) t.proposals
    refusable =
        all_found (λ (q : Proposal). is_pending q.status ≡ true) p.id t.proposals p v.apart
          (subst (λ (k : ℕ). first (λ (q : Proposal). q.id == k) t.proposals ≡ some p)
            (sym same_key_of) found)
          open_still

    answer-IsConsented :
        (b : FundedRow) (a : AssignmentRow) (login : String) (accept : Bool) (response : String)
        → IsConsented (answer e b a p login accept response t).0
    answer-IsConsented b a login true response =
        let f = accept_by e.base.now login (truthy (some (e.base.cut_text response))) in
        let t1 = audit login unassign_acceptance p.bounty_id (set_proposal p.id f t) in
        did_agree-IsConsented (carry_out e p.id t1) (
          (carry_out-Carried e t1 p.id
            (audit-IsConsented login unassign_acceptance p.bounty_id _ (
              update-IsConsented (λ (q : Proposal). q.id == p.id) f t
                (all_of t.proposals (λ q hit. record {
                  id = refl;
                  about = refl;
                  agreed = λ old. refl;
                  answered =
                      λ old. record { seven_days = old.seven_days; grounded = (login, refl) };
                }))
                v))
            (accepted_is_agreed p.id f t.proposals (λ q. refl) (λ q. refl))).consented)
    answer-IsConsented b a login false response =
        if_elim (λ (y : FundedTables × Agreement). IsConsented y.0)
          (text_eq (e.base.trim response) "") _ _ (λ silent. v)
          (λ given. tell-IsConsented (user_of b a p.proposed_by) (unassign_refused p.id) _ (
            audit-IsConsented login unassign_refusal p.bounty_id _ (
              update-IsConsented (λ (q : Proposal). q.id == p.id)
                (refuse_by e.base.now login (e.base.cut_text response)) t
                (All-mono _ _ t.proposals
                  (λ q waiting hit. record {
                    id = refl;
                    about = refl;
                    agreed = λ old. absurd (not_both q.status old (waiting hit));
                    answered = λ old. record { seven_days = old.seven_days; grounded = tt };
                  })
                  refusable)
                v)))

    respond_side-IsConsented :
        (b : FundedRow) (a : AssignmentRow) (login : String) (accept : Bool) (response : String)
        (s : Option Side)
        → IsConsented (respond_side e b a p login accept response t s).0
    respond_side-IsConsented b a login accept response none = v
    respond_side-IsConsented b a login accept response (some s) =
        if_elim (λ (y : FundedTables × Agreement). IsConsented y.0) (same_side s p.proposed_by) _ _
          (λ own. v) (λ other_side. answer-IsConsented b a login accept response)

    respond_holder-IsConsented :
        (b : FundedRow) (login : String) (user : ℕ) (accept : Bool) (response : String)
        (a : Option AssignmentRow)
        → IsConsented (respond_holder e b p login user accept response t a).0
    respond_holder-IsConsented b login user accept response none = v
    respond_holder-IsConsented b login user accept response (some a) =
        if_elim (λ (y : FundedTables × Agreement). IsConsented y.0) (not (a.id == p.assignment_id))
          _ _ (λ another. v)
          (λ same. respond_side-IsConsented b a login accept response (side e b a login user))

    respond_row-IsConsented :
        (login : String) (user : ℕ) (accept : Bool) (response : String) (b : Option FundedRow)
        → IsConsented (respond_row e p login user accept response t b).0
    respond_row-IsConsented login user accept response none = v
    respond_row-IsConsented login user accept response (some b) =
        respond_holder-IsConsented b login user accept response (live p.bounty_id t)

  pub respond-IsConsented :
      (proposal : ℕ) (login : String) (user : ℕ) (accept : Bool) (response : String)
      → IsConsented (respond e proposal login user accept response t).0
  unfolding respond
  respond-IsConsented proposal login user accept response = go (proposal_of proposal t) refl
    where
      go :
          (p : Option Proposal)
          → proposal_of proposal t ≡ p
          → IsConsented (respond_to e login user accept response t p).0
      go none f = v
      go (some p) f =
          if_elim (λ (y : FundedTables × Agreement). IsConsented y.0) (not (is_pending p.status)) _
            _ (λ settled. v)
            (λ waiting.
              respond_row-IsConsented proposal p f (ground (arith, waiting)) login user accept
                response (row p.bounty_id t))

  withdraw_found-IsConsented :
      (id : ℕ) (login : String) (p : Option Proposal)
      → IsConsented (withdraw_found e id login t p).0
  withdraw_found-IsConsented id login none = v
  withdraw_found-IsConsented id login (some p) =
      audit-IsConsented login unassign_withdrawal p.bounty_id _ (
        update-IsConsented (is_withdrawable e id login) (withdraw_at e.base.now) t
          (all_of t.proposals (λ q hit. record {
            id = refl;
            about = refl;
            agreed = λ old. absurd (not_both q.status old (ground (arith, hit)));
            answered = λ old. record { seven_days = old.seven_days; grounded = tt };
          }))
          v)

  pub withdraw-IsConsented : (id : ℕ) (login : String) → IsConsented (withdraw e id login t).0
  unfolding withdraw
  withdraw-IsConsented id login = withdraw_found-IsConsented id login _

module _ (t : FundedTables) (v : IsConsented t) where
  leave_found-IsConsented :
      (id : ℕ) (admin : String) (p : Option Proposal) → IsConsented (leave_found id admin t p).0
  leave_found-IsConsented id admin none = v
  leave_found-IsConsented id admin (some p) =
      audit-IsConsented admin dispute_left_to_deadline p.bounty_id _ (
        update-IsConsented (is_dispute id) (leave_by admin) t
          (all_of t.proposals (λ q hit. record {
            id = refl;
            about = refl;
            agreed = λ old. old;
            answered = λ old. record { seven_days = old.seven_days; grounded = old.grounded };
          }))
          v)

  pub leave_to_deadline-IsConsented :
      (id : ℕ) (admin : String) → IsConsented (leave_to_deadline id admin t).0
  unfolding leave_to_deadline
  leave_to_deadline-IsConsented id admin = leave_found-IsConsented id admin _
