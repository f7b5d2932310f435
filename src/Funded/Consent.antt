-- ===== src/Funded/Consent.antt =====
-- Consent in apps/agent/src/funded-service.ts: what must hold of the proposals and of the requests to the
-- attestor, and the changes of the tables that keep it.
pub mod Keeps
pub mod Carries
pub mod Answers
pub mod Lapses
pub mod Chain
pub mod Histories
use grainlify_bounty_agent.Base.{
  ℕ, suc, ◌+◌, ◌≤◌, ◌≡◌, refl, ◌==◌, ◌⊎◌, inl, inr, Bool, true, false, ◌||◌, ◌&&◌, Option, none,
  some, List, [], ◌∷◌, ◌++◌, arith, if◌then◌else◌, if_elim, Bool-cases, String, any, any-concat,
  first, update_if, update_where, All, All-mono, All-concat, IsApart, IsApart-concat,
  IsApart-update_where, same_id,
}
use grainlify_bounty_agent.DrawService.Tables.{Tables, AssignmentRow}
use grainlify_bounty_agent.Funded.Tables.{
  FundedTables, Proposal, ProposalStatus, pending, accepted, accepted_by_silence, refused,
  withdrawn, Request, assign_to, unassign_from, EscrowRow, with_core, is_pending, is_agreed,
  set_proposal, set_escrow, ask,
}
use grainlify_bounty_agent.Funded.Propose.{respond_by}

-- Each agreement has its ground: an answer of somebody, or seven days of silence.
abbrev pub IsGrounded : ℕ → Option String → Option ℕ → ProposalStatus → Type 0
IsGrounded created who at accepted = (login : String) × (who ≡ some login)
IsGrounded created who at accepted_by_silence = (n : ℕ) × (at ≡ some n) × (respond_by created ≤ n)
IsGrounded created who at pending = Unit
IsGrounded created who at refused = Unit
IsGrounded created who at withdrawn = Unit

pub record IsAnswered (p : Proposal) : Type 0 where
  pub seven_days : p.respond_by ≡ respond_by p.created_at
  pub grounded : IsGrounded p.created_at p.responder_login p.responded_at p.status

-- A proposal about this assignment that was agreed on.
abbrev pub agreed_about : ℕ → Proposal → Bool
agreed_about assignment p = p.assignment_id == assignment && is_agreed p.status

-- With a pull request open, the attestor is asked to unassign only where a proposal about this assignment
-- was agreed on: accepted by an answer, or by silence.
abbrev pub IsJustified : List Proposal → Request → Type 0
IsJustified ps (assign_to escrow wallet) = Unit
IsJustified ps (unassign_from escrow assignment true) = any (agreed_about assignment) ps ≡ true
IsJustified ps (unassign_from escrow assignment false) = Unit

pub record IsConsented (t : FundedTables) : Type 0 where
  pub below : All (λ (p : Proposal). p.id ≤ t.core.seq) t.proposals
  pub apart : IsApart (same_id (λ (p : Proposal). p.id)) t.proposals
  pub answered : All IsAnswered t.proposals
  pub justified : All (IsJustified t.proposals) t.requests

pub with_core-IsConsented :
    (c : Tables) (t : FundedTables)
    → t.core.seq ≤ c.seq
    → IsConsented t
    → IsConsented (with_core c t)
with_core-IsConsented c t h v = record {
  below = All-mono _ _ t.proposals (λ p b. omega (arith, b, h)) v.below;
  apart = v.apart;
  answered = v.answered;
  justified = v.justified;
}

pub ask-IsConsented :
    (r : Request) (t : FundedTables)
    → IsJustified t.proposals r
    → IsConsented t
    → IsConsented (ask r t)
ask-IsConsented r t h v = record {
  below = v.below;
  apart = v.apart;
  answered = v.answered;
  justified = All-concat (IsJustified t.proposals) t.requests r v.justified h;
}

IsJustified-later :
    (ps qs : List Proposal)
    → ((a : ℕ) → any (agreed_about a) ps ≡ true → any (agreed_about a) qs ≡ true)
    → (r : Request) → IsJustified ps r
    → IsJustified qs r
IsJustified-later ps qs h (assign_to escrow wallet) j = tt
IsJustified-later ps qs h (unassign_from escrow a true) j = h a j
IsJustified-later ps qs h (unassign_from escrow a false) j = tt

pub add_proposal-IsConsented :
    (p : Proposal) (t : FundedTables)
    → p.id ≡ suc t.core.seq
    → IsAnswered p
    → IsConsented t
    → IsConsented (record t {
      core = record t.core { seq = suc t.core.seq };
      proposals = t.proposals ++ p ∷ [];
    })
add_proposal-IsConsented p t e h v = record {
  below =
      All-concat _ t.proposals p (All-mono _ _ t.proposals (λ q b. omega (arith, b)) v.below)
        (omega (arith, e));
  apart =
      IsApart-concat (same_id (λ (q : Proposal). q.id)) t.proposals p (absent t.proposals v.below)
        v.apart;
  answered = All-concat IsAnswered t.proposals p v.answered h;
  justified =
      All-mono _ _ t.requests
        (IsJustified-later t.proposals (t.proposals ++ p ∷ [])
          (λ a j. ground (arith, any-concat (agreed_about a) t.proposals p, j)))
        v.justified;
}
  where
    absent :
        (ps : List Proposal)
        → All (λ (q : Proposal). q.id ≤ t.core.seq) ps
        → any (λ (q : Proposal). same_id (λ (r : Proposal). r.id) q p) ps ≡ false
    absent [] b = refl
    absent (q ∷ ps) b = ground (arith, absent ps b.1, b.0, e)

-- A change of one proposal that keeps its columns, its ground and an agreement.
pub record IsFair (f : Proposal → Proposal) (p : Proposal) : Type 0 where
  pub id : (f p).id ≡ p.id
  pub about : (f p).assignment_id ≡ p.assignment_id
  pub agreed : is_agreed p.status ≡ true → is_agreed (f p).status ≡ true
  pub answered : IsAnswered p → IsAnswered (f p)

module _ (q : Proposal → Bool) (f : Proposal → Proposal) where
  abbrev AllFair : List Proposal → Type 0
  AllFair = All (λ (p : Proposal). q p ≡ true → IsFair f p)

  any-fair :
      (a : ℕ) (ps : List Proposal)
      → AllFair ps
      → any (agreed_about a) ps ≡ true
      → any (agreed_about a) (update_where q f ps) ≡ true
  any-fair a [] k h = cc
  any-fair a (p ∷ ps) k h = elim (Bool-cases (q p)) [
    | inl hit ↦ ground (arith, hit, h, (k.0 hit).about, (k.0 hit).agreed, any-fair a ps k.1)
    | inr miss ↦ ground (arith, miss, h, any-fair a ps k.1)
  ]

  below-fair :
      (n : ℕ) (ps : List Proposal)
      → AllFair ps
      → All (λ (p : Proposal). p.id ≤ n) ps
      → All (λ (p : Proposal). p.id ≤ n) (update_where q f ps)
  below-fair n [] k h = tt
  below-fair n (p ∷ ps) k h = (
    if_elim (λ (r : Proposal). r.id ≤ n) (q p) (f p) p (λ hit. rw ((k.0 hit).id) h.0) (λ miss. h.0),
    below-fair n ps k.1 h.1,
  )

  IsAnswered-fair :
      (ps : List Proposal) → AllFair ps → All IsAnswered ps → All IsAnswered (update_where q f ps)
  IsAnswered-fair [] k h = tt
  IsAnswered-fair (p ∷ ps) k h = (
    if_elim IsAnswered (q p) (f p) p (λ hit. (k.0 hit).answered h.0) (λ miss. h.0),
    IsAnswered-fair ps k.1 h.1,
  )

  any_id-fair :
      (n : ℕ) (ps : List Proposal)
      → AllFair ps
      → any (λ (p : Proposal). n == p.id) (update_where q f ps)
        ≡ any (λ (p : Proposal). n == p.id) ps
  any_id-fair n [] k = refl
  any_id-fair n (p ∷ ps) k = elim (Bool-cases (q p)) [
    | inl hit ↦ ground (arith, hit, (k.0 hit).id, any_id-fair n ps k.1)
    | inr miss ↦ ground (arith, miss, any_id-fair n ps k.1)
  ]

  IsApart-fair :
      (ps : List Proposal)
      → AllFair ps
      → IsApart (same_id (λ (p : Proposal). p.id)) ps
      → IsApart (same_id (λ (p : Proposal). p.id)) (update_where q f ps)
  IsApart-fair [] k h = tt
  IsApart-fair (p ∷ ps) k h = (
    rw (any_id-fair (update_if q f p).id ps k.1) (
        if_elim (λ (r : Proposal). any (λ (s : Proposal). r.id == s.id) ps ≡ false) (q p) (f p) p
          (λ hit. rw ((k.0 hit).id) h.0) (λ miss. h.0)),
    IsApart-fair ps k.1 h.1,
  )

  pub update-IsConsented :
      (t : FundedTables)
      → AllFair t.proposals
      → IsConsented t
      → IsConsented (record t { proposals = update_where q f t.proposals })
  update-IsConsented t k v = record {
    below = below-fair t.core.seq t.proposals k v.below;
    apart = IsApart-fair t.proposals k v.apart;
    answered = IsAnswered-fair t.proposals k v.answered;
    justified =
        All-mono _ _ t.requests
          (IsJustified-later t.proposals (update_where q f t.proposals)
            (λ a j. any-fair a t.proposals k j))
          v.justified;
  }
