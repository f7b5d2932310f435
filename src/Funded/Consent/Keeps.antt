-- ===== src/Funded/Consent/Keeps.antt =====
-- The operations of apps/agent/src/funded-service.ts on proposals, and consent.
use grainlify_bounty_agent.Base.{
  ℕ, ◌≤◌, ◌≡◌, refl, ◌==◌, inl, inr, Bool, true, false, not, ◌&&◌, Option, none, some, Option-cases,
  List, [], ◌∷◌, arith, if_elim, Result, ok, err, String, any, All,
}
use grainlify_bounty_agent.DrawService.Tables.{
  Tables, AssignmentRow, DedupeKey, enqueue_event, set_assignment, is_pr_submitted, unassigned,
}
use grainlify_bounty_agent.DrawService.Kept.{Kept-refl, enqueue_event-Kept}
use grainlify_bounty_agent.Funded.Tables.{
  FundedTables, FundedEnv, FundedRow, FundedError, Attestor, EscrowRow, EscrowEventKind, Proposal,
  was_unassigned, unassign_from, with_core, live, as_funder, is_draw, is_assigned_escrow, escrow_of,
}
use grainlify_bounty_agent.Funded.Escrow.{event_of_row, record_unassigned}
use grainlify_bounty_agent.Funded.Unassign.{
  Ended, agreed_proposal, is_owed, last, end_assignment, put_back, exclude, carry_out_now,
  mark_carried_out, release, id_of, why, signed_off, by_attestor, end_by_funder, has,
  unassign_holder, unassign_row, unassign, names_nobody, end_signed, confirm_holder,
  unassign_confirm_row, unassign_confirm,
}
use grainlify_bounty_agent.Funded.Consent.{
  agreed_about, IsJustified, IsConsented, with_core-IsConsented, ask-IsConsented,
  update-IsConsented,
}

-- Every proposal may be changed so.
pub all_of : {P : Proposal → Type 0} (ps : List Proposal) → ((p : Proposal) → P p) → All P ps
all_of [] h = tt
all_of (p ∷ ps) h = (h p, all_of ps h)

pub event_of_row-IsConsented :
    (now : ℕ) (kind : EscrowEventKind) (tx : Option String) (x : Option EscrowRow)
    (t : FundedTables)
    → IsConsented t
    → IsConsented (event_of_row now kind tx x t)
event_of_row-IsConsented now kind tx none t v = v
event_of_row-IsConsented now kind tx (some x) t v = record {
  below = v.below;
  apart = v.apart;
  answered = v.answered;
  justified = v.justified;
}

pub record_unassigned-IsConsented :
    (now bounty : ℕ) (tx : Option String) (t : FundedTables)
    → IsConsented t
    → IsConsented (record_unassigned now bounty tx t)
record_unassigned-IsConsented now bounty tx t v =
    event_of_row-IsConsented now was_unassigned tx (escrow_of bounty t) _
      (record { below = v.below; apart = v.apart; answered = v.answered; justified = v.justified })

pub enqueue_event-IsConsented :
    (user : ℕ) (key : DedupeKey) (closed : Bool) (c : Tables) (t : FundedTables)
    → t.core.seq ≤ c.seq
    → IsConsented t
    → IsConsented (with_core (enqueue_event user key closed c).0 t)
enqueue_event-IsConsented user key closed c t h v =
    with_core-IsConsented _ t
      (omega (arith, h, (enqueue_event-Kept c user key closed c (Kept-refl c)).later)) v

mark_carried_out-IsConsented :
    (now : ℕ) (proposal : Option ℕ) (t : FundedTables)
    → IsConsented t
    → IsConsented (mark_carried_out now proposal t)
mark_carried_out-IsConsented now none t v = v
mark_carried_out-IsConsented now (some id) t v =
    update-IsConsented (λ (p : Proposal). p.id == id) (carry_out_now now) t
      (all_of t.proposals (λ p hit. record {
        id = refl;
        about = refl;
        agreed = λ a. a;
        answered = λ a. record { seven_days = a.seven_days; grounded = a.grounded };
      }))
      v

exclude-seq : (b : FundedRow) (login : String) (c : Tables) → (exclude b login c).seq ≡ c.seq
exclude-seq b login c =
    if_elim (λ (d : Tables). d.seq ≡ c.seq) (is_draw b.escrow.assignment_mode) _ _ (λ draws. refl)
      (λ other. refl)

mark_carried_out-core :
    (now : ℕ) (proposal : Option ℕ) (t : FundedTables)
    → (mark_carried_out now proposal t).core ≡ t.core
mark_carried_out-core now none t = refl
mark_carried_out-core now (some id) t = refl

pub release-IsConsented :
    (now : ℕ) (b : FundedRow) (a : AssignmentRow) (actor reason : String) (proposal : Option ℕ)
    (directly : Bool) (t : FundedTables)
    → IsConsented t
    → IsConsented (release now b a actor reason proposal directly t)
release-IsConsented now b a actor reason proposal directly t v =
    let c1 = set_assignment a.id (end_assignment now reason actor directly) t.core in
    let c2 = exclude b a.github_login (put_back b.bounty.id a.github_user_id c1) in
    enqueue_event-IsConsented a.github_user_id (unassigned a.id) false _ _ (omega arith) (
      mark_carried_out-IsConsented now proposal (with_core c2 t) (
        with_core-IsConsented c2 t
          (omega (arith, exclude-seq b a.github_login (put_back b.bounty.id a.github_user_id c1)))
          v))

last-any :
    (q r : Proposal → Bool) (ps : List Proposal)
    → ((p : Proposal) → q p ≡ true → r p ≡ true)
    → has (last q ps) ≡ true
    → any r ps ≡ true
last-any q r [] k h = cc
last-any q r (p ∷ ps) k h = elim (Option-cases (last q ps)) [
  | inl none_later ↦ ground (arith, k p, none_later, h)
  | inr (newer, found) ↦ ground (arith, last-any q r ps k, found)
]

pub asked_for :
    (escrow : String) (assignment : ℕ) (submitted : Bool) (t : FundedTables)
    → submitted && not (has (agreed_proposal assignment t)) ≡ false
    → IsJustified t.proposals (unassign_from escrow assignment submitted)
asked_for escrow assignment false t h = tt
asked_for escrow assignment true t h =
    last-any (is_owed assignment) (agreed_about assignment) t.proposals (λ p o. ground arith)
      (ground arith)

module _ (e : FundedEnv) (b : FundedRow) (a : AssignmentRow) (login reason : String)
    (agreed : Option Proposal) where
  signed_off-IsConsented :
      (t : FundedTables) (r : Result String String)
      → IsConsented t
      → IsConsented (signed_off e b a login reason agreed t r).0
  signed_off-IsConsented t (err failure) v = v
  signed_off-IsConsented t (ok signature) v =
      release-IsConsented e.base.now b a login (why e reason agreed) (id_of agreed) false _
        (record_unassigned-IsConsented e.base.now b.bounty.id (some signature) t v)

  by_attestor-IsConsented :
      (t : FundedTables) (attestor : Option Attestor)
      → IsJustified t.proposals
          (unassign_from b.escrow.escrow_pubkey a.id (is_pr_submitted a.status))
      → IsConsented t
      → IsConsented (by_attestor e b a login reason agreed t attestor).0
  by_attestor-IsConsented t none j v = v
  by_attestor-IsConsented t (some attestor) j v =
      signed_off-IsConsented _ (attestor.unassign b.escrow.escrow_pubkey) (ask-IsConsented _ t j v)

  end_by_funder-IsConsented :
      (t : FundedTables)
      → IsJustified t.proposals
          (unassign_from b.escrow.escrow_pubkey a.id (is_pr_submitted a.status))
      → IsConsented t
      → IsConsented (end_by_funder e b a login reason agreed t).0
  end_by_funder-IsConsented t j v =
      if_elim (λ (y : FundedTables × Ended). IsConsented y.0)
        (not (is_assigned_escrow b.escrow.state)) _ _
        (λ free.
          release-IsConsented e.base.now b a login (why e reason agreed) (id_of agreed) false t v)
        (λ on_chain.
          if_elim (λ (y : FundedTables × Ended). IsConsented y.0) (is_draw b.escrow.assignment_mode)
            _ _ (λ drawn. by_attestor-IsConsented t e.attestor j v)
            (λ chosen. record {
              below = v.below;
              apart = v.apart;
              answered = v.answered;
              justified = v.justified;
            }))

  end_signed-IsConsented :
      (signature : String) (t : FundedTables)
      → IsConsented t
      → IsConsented (end_signed e b a login reason signature t agreed).0
  end_signed-IsConsented signature t v =
      let unassigned_on_chain =
        record_unassigned-IsConsented e.base.now b.bounty.id (some signature) t v in
      if_elim (λ (y : FundedTables × Ended). IsConsented y.0)
        (is_pr_submitted a.status && not (has agreed)) _ _
        (λ alone.
          release-IsConsented e.base.now b a login (e.base.trim reason) none true _
            unassigned_on_chain)
        (λ both.
          release-IsConsented e.base.now b a login (why e reason agreed) (id_of agreed) false _
            unassigned_on_chain)

module _ (e : FundedEnv) (bounty : ℕ) (login reason : String) (t : FundedTables)
    (v : IsConsented t) where
  unassign_holder-IsConsented :
      (b : FundedRow) (a : Option AssignmentRow)
      → IsConsented (unassign_holder e b login reason t a).0
  unassign_holder-IsConsented b none = v
  unassign_holder-IsConsented b (some a) =
      if_elim (λ (y : FundedTables × Ended). IsConsented y.0)
        (is_pr_submitted a.status && not (has (agreed_proposal a.id t))) _ _ (λ refused. v)
        (λ free.
          end_by_funder-IsConsented e b a login reason (agreed_proposal a.id t) t
            (asked_for b.escrow.escrow_pubkey a.id (is_pr_submitted a.status) t free) v)

  unassign_row-IsConsented :
      (r : Result FundedError FundedRow) → IsConsented (unassign_row e bounty login reason t r).0
  unassign_row-IsConsented (err refusal) = v
  unassign_row-IsConsented (ok b) = unassign_holder-IsConsented b (live bounty t)

  pub unassign-IsConsented : IsConsented (unassign e bounty login reason t).0
  unfolding unassign
  unassign-IsConsented = unassign_row-IsConsented (as_funder e bounty login t)

  confirm_holder-IsConsented :
      (signature : String) (b : FundedRow) (a : Option AssignmentRow)
      → IsConsented (confirm_holder e b login reason signature t a).0
  confirm_holder-IsConsented signature b none = v
  confirm_holder-IsConsented signature b (some a) =
      if_elim (λ (y : FundedTables × Ended). IsConsented y.0)
        (not (names_nobody (e.read_chain b.escrow.escrow_pubkey))) _ _ (λ named. v)
        (λ free. end_signed-IsConsented e b a login reason (agreed_proposal a.id t) signature t v)

  unassign_confirm_row-IsConsented :
      (signature : String) (r : Result FundedError FundedRow)
      → IsConsented (unassign_confirm_row e bounty login reason signature t r).0
  unassign_confirm_row-IsConsented signature (err refusal) = v
  unassign_confirm_row-IsConsented signature (ok b) =
      confirm_holder-IsConsented signature b (live bounty t)

  pub unassign_confirm-IsConsented :
      (signature : String) → IsConsented (unassign_confirm e bounty login reason signature t).0
  unfolding unassign_confirm
  unassign_confirm-IsConsented signature =
      unassign_confirm_row-IsConsented signature (as_funder e bounty login t)
