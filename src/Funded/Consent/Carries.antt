-- ===== src/Funded/Consent/Carries.antt =====
-- `carryOut` of apps/agent/src/funded-service.ts, and consent.
use grainlify_bounty_agent.Base.{
  ℕ, ◌≡◌, ◌∙◌, ap, refl, subst, ◌==◌, Bool, true, false, not, Option, none, some, List, [], ◌∷◌,
  arith, if_elim, Result, ok, err, String, any, first, update_where,
}
use grainlify_bounty_agent.DrawService.Tables.{AssignmentRow, is_pr_submitted}
use grainlify_bounty_agent.Funded.Tables.{
  FundedTables, FundedEnv, FundedRow, Attestor, EscrowRow, EscrowEventKind, Proposal,
  was_unassigned, unassign_from, row, live, is_agreed, is_assigned_escrow, is_draw, escrow_of,
}
use grainlify_bounty_agent.Funded.Escrow.{event_of_row, record_unassigned}
use grainlify_bounty_agent.Funded.Unassign.{carry_out_now}
use grainlify_bounty_agent.Funded.Carry.{
  proposal_of, carried, carry_signed, carry_by_attestor, carry_holder, carry_row, carry_proposal,
  carry_out,
}
use grainlify_bounty_agent.Funded.Consent.{agreed_about, IsJustified, IsConsented, ask-IsConsented}
use grainlify_bounty_agent.Funded.Consent.Keeps.{record_unassigned-IsConsented, release-IsConsented}

abbrev agreed_or_absent : Option Proposal → Bool
agreed_or_absent none = true
agreed_or_absent (some p) = is_agreed p.status

-- The proposal with this id, if any, is agreed.
abbrev pub is_agreed_id : ℕ → List Proposal → Bool
is_agreed_id id ps = agreed_or_absent (first (λ (p : Proposal). p.id == id) ps)

-- A result that keeps consent, and every agreement.
pub record Carried (t u : FundedTables) : Type 0 where
  pub consented : IsConsented u
  pub agreed : (i : ℕ) → is_agreed_id i t.proposals ≡ true → is_agreed_id i u.proposals ≡ true

is_agreed_id-carried :
    (i k now : ℕ) (ps : List Proposal)
    → is_agreed_id i (update_where (λ (p : Proposal). p.id == k) (carry_out_now now) ps)
      ≡ is_agreed_id i ps
is_agreed_id-carried i k now [] = refl
is_agreed_id-carried i k now (p ∷ ps) = ground (arith, is_agreed_id-carried i k now ps)

pub event_of_row-proposals :
    (now : ℕ) (kind : EscrowEventKind) (tx : Option String) (x : Option EscrowRow)
    (t : FundedTables)
    → (event_of_row now kind tx x t).proposals ≡ t.proposals
event_of_row-proposals now kind tx none t = refl
event_of_row-proposals now kind tx (some x) t = refl

first-any :
    (k a : ℕ) (ps : List Proposal) (p : Proposal)
    → first (λ (q : Proposal). q.id == k) ps ≡ some p
    → agreed_about a p ≡ true
    → any (agreed_about a) ps ≡ true
first-any k a [] p f h = cc
first-any k a (q ∷ ps) p f h = ground (arith, first-any k a ps p)

module _ (e : FundedEnv) (b : FundedRow) (a : AssignmentRow) (p : Proposal) where
  carried-Carried :
      (t u : FundedTables)
      → u.proposals ≡ t.proposals
      → IsConsented u
      → Carried t (carried e b a p u).0
  carried-Carried t u s v = record {
    consented = release-IsConsented e.base.now b a "agreed" p.reason (some p.id) false u v;
    agreed = λ i h. is_agreed_id-carried i p.id e.base.now u.proposals ∙ ap (is_agreed_id i) s ∙ h;
  }

  carry_signed-Carried :
      (t u : FundedTables) (r : Result String String)
      → u.proposals ≡ t.proposals
      → IsConsented u
      → Carried t (carry_signed e b a p u r).0
  carry_signed-Carried t u (err failure) s v = record {
    consented = record {
      below = v.below;
      apart = v.apart;
      answered = v.answered;
      justified = v.justified;
    };
    agreed = λ i h. ap (is_agreed_id i) s ∙ h;
  }
  carry_signed-Carried t u (ok signature) s v =
      carried-Carried t (record_unassigned e.base.now b.bounty.id (some signature) u)
        (event_of_row-proposals e.base.now was_unassigned (some signature) (escrow_of b.bounty.id u)
            _
          ∙ s)
        (record_unassigned-IsConsented e.base.now b.bounty.id (some signature) u v)

  carry_by_attestor-Carried :
      (t : FundedTables) (attestor : Option Attestor)
      → IsJustified t.proposals
          (unassign_from b.escrow.escrow_pubkey a.id (is_pr_submitted a.status))
      → IsConsented t
      → Carried t (carry_by_attestor e b a p t attestor).0
  carry_by_attestor-Carried t none j v = record { consented = v; agreed = λ i h. h }
  carry_by_attestor-Carried t (some attestor) j v =
      carry_signed-Carried t _ (attestor.unassign b.escrow.escrow_pubkey) refl
        (ask-IsConsented _ t j v)

IsJustified-by :
    (escrow : String) (id : ℕ) (submitted : Bool) (p : Proposal) (assignment : ℕ)
    (ps : List Proposal)
    → first (λ (q : Proposal). q.id == id) ps ≡ some p
    → is_agreed p.status ≡ true
    → (assignment == p.assignment_id) ≡ true
    → IsJustified ps (unassign_from escrow assignment submitted)
IsJustified-by escrow id false p assignment ps f h s = tt
IsJustified-by escrow id true p assignment ps f h s = first-any id assignment ps p f (ground arith)

module _ (e : FundedEnv) (t : FundedTables) (v : IsConsented t) (id : ℕ) (p : Proposal)
    (found : proposal_of id t ≡ some p) (agreed : is_agreed p.status ≡ true) where
  carry_holder-Carried :
      (b : FundedRow) (a : Option AssignmentRow) → Carried t (carry_holder e b p t a).0
  carry_holder-Carried b none = record { consented = v; agreed = λ i h. h }
  carry_holder-Carried b (some a) =
      if_elim P (not (a.id == p.assignment_id)) _ _
        (λ another. record { consented = v; agreed = λ i h. h })
        (λ same.
          if_elim P (not (is_assigned_escrow b.escrow.state)) _ _
            (λ free. carried-Carried e b a p t t refl v)
            (λ on_chain.
              if_elim P (not (is_draw b.escrow.assignment_mode)) _ _
                (λ chosen. record { consented = v; agreed = λ i h. h })
                (λ drawn.
                  carry_by_attestor-Carried e b a p t e.attestor
                    (IsJustified-by b.escrow.escrow_pubkey id (is_pr_submitted a.status) p a.id
                      t.proposals found agreed (ground (arith, same)))
                    v)))
    where
      P : FundedTables × (Bool × Bool) → Type 0
      P y = Carried t y.0

  carry_row-Carried : (b : Option FundedRow) → Carried t (carry_row e p t b).0
  carry_row-Carried none = record { consented = v; agreed = λ i h. h }
  carry_row-Carried (some b) = carry_holder-Carried b (live p.bounty_id t)

pub carry_out-Carried :
    (e : FundedEnv) (t : FundedTables) (id : ℕ)
    → IsConsented t
    → is_agreed_id id t.proposals ≡ true
    → Carried t (carry_out e id t).0
unfolding carry_out
carry_out-Carried e t id v h = go (proposal_of id t) refl
  where
    go : (p : Option Proposal) → proposal_of id t ≡ p → Carried t (carry_proposal e t p).0
    go none f = record { consented = v; agreed = λ i h. h }
    go (some p) f =
        carry_row-Carried e t v id p f (subst (λ o. agreed_or_absent o ≡ true) f h)
          (row p.bounty_id t)
