-- ===== src/Funded/Consent/Lapses.antt =====
-- expireProposals of apps/agent/src/funded-service.ts, and consent.
use grainlify_bounty_agent.Base.{
  ℕ, ◌≤◌, ◌≡◌, refl, subst, ◌==◌, Bool, true, false, some, List, [], ◌∷◌, arith, if_elim, any,
  first, first-update_where, update_where, All, All-mono, IsApart, same_id,
}
use grainlify_bounty_agent.DrawService.Tables.{unassign_silence}
use grainlify_bounty_agent.DrawService.Reopen.{select_where}
use grainlify_bounty_agent.Funded.Tables.{FundedTables, FundedEnv, Proposal}
use grainlify_bounty_agent.Funded.Propose.{audit, respond_by}
use grainlify_bounty_agent.Funded.Lapse.{
  is_lapsed, lapse_at, lapse, carry_all, carry_lapsed, is_stuck, retry_stuck, expire_proposals,
}
use grainlify_bounty_agent.Funded.Consent.{IsAnswered, IsConsented, update-IsConsented}
use grainlify_bounty_agent.Funded.Consent.Keeps.{all_of}
use grainlify_bounty_agent.Funded.Consent.Carries.{is_agreed_id, carry_out-Carried}
use grainlify_bounty_agent.Funded.Consent.Answers.{audit-IsConsented}

lapse-IsConsented : (now : ℕ) (t : FundedTables) → IsConsented t → IsConsented (lapse now t)
lapse-IsConsented now t v =
    update-IsConsented (is_lapsed now) (lapse_at now) t
      (all_of t.proposals (λ p hit. record {
        id = refl;
        about = refl;
        agreed = λ old. refl;
        answered = λ old. record {
          seven_days = old.seven_days;
          grounded = (now, refl, overdue p old hit);
        };
      }))
      v
  where
    overdue : (p : Proposal) → IsAnswered p → is_lapsed now p ≡ true → respond_by p.created_at ≤ now
    overdue p old hit = subst (λ n. n ≤ now) old.seven_days (ground arith)

select_where-All :
    (q : Proposal → Bool) (Q : Proposal → Type 0) (ps : List Proposal)
    → All (λ (p : Proposal). q p ≡ true → Q p) ps
    → All Q (select_where q ps)
select_where-All q Q [] h = tt
select_where-All q Q (p ∷ ps) h =
    if_elim (All Q) (q p) (p ∷ select_where q ps) (select_where q ps)
      (λ hit. (h.0 hit, select_where-All q Q ps h.1)) (λ miss. select_where-All q Q ps h.1)

-- With distinct ids, every proposal is the one that its id finds.
first_self :
    (ps : List Proposal)
    → IsApart (same_id (λ (p : Proposal). p.id)) ps
    → All (λ (p : Proposal). first (λ (q : Proposal). q.id == p.id) ps ≡ some p) ps
first_self [] v = tt
first_self (p ∷ ps) v =
    (ground arith, All-mono _ _ ps (λ r h. h.0 h.1) (both ps v.0 (first_self ps v.1)))
  where
    both :
        (rs : List Proposal)
        → any (λ (r : Proposal). p.id == r.id) rs ≡ false
        → All (λ (r : Proposal). first (λ (q : Proposal). q.id == r.id) ps ≡ some r) rs
        → All
            (λ (r : Proposal).
              (first (λ (q : Proposal). q.id == r.id) ps ≡ some r
                → first (λ (q : Proposal). q.id == r.id) (p ∷ ps) ≡ some r)
              × (first (λ (q : Proposal). q.id == r.id) ps ≡ some r))
            rs
    both [] n h = tt
    both (r ∷ rs) n h = (((λ f. ground (arith, n, f)), h.0), both rs (ground (arith, n)) h.1)

lapsed_agreed :
    (now k : ℕ) (ps : List Proposal) (p : Proposal)
    → first (λ (q : Proposal). q.id == k) ps ≡ some p
    → is_lapsed now p ≡ true
    → is_agreed_id k (update_where (is_lapsed now) (lapse_at now) ps) ≡ true
lapsed_agreed now k ps p f h =
    rw
      (first-update_where (λ (q : Proposal). q.id == k) (is_lapsed now) (lapse_at now) ps p
        (λ r. refl) f)
      (rw h refl)

module _ (e : FundedEnv) where
  carry_lapsed-IsConsented :
      (ps : List Proposal) (t : FundedTables)
      → All (λ (p : Proposal). is_agreed_id p.id t.proposals ≡ true) ps
      → IsConsented t
      → IsConsented (carry_lapsed e ps t)
  carry_lapsed-IsConsented [] t h v = v
  carry_lapsed-IsConsented (p ∷ ps) t h v =
      let c =
        carry_out-Carried e (audit "agent" unassign_silence p.bounty_id t) p.id
          (audit-IsConsented "agent" unassign_silence p.bounty_id t v) h.0 in
      carry_lapsed-IsConsented ps _ (All-mono _ _ ps (λ q a. c.agreed q.id a) h.1) c.consented

  carry_all-IsConsented :
      (ps : List Proposal) (t : FundedTables)
      → All (λ (p : Proposal). is_agreed_id p.id t.proposals ≡ true) ps
      → IsConsented t
      → IsConsented (carry_all e ps t)
  carry_all-IsConsented [] t h v = v
  carry_all-IsConsented (p ∷ ps) t h v =
      let c = carry_out-Carried e t p.id v h.0 in
      carry_all-IsConsented ps _ (All-mono _ _ ps (λ q a. c.agreed q.id a) h.1) c.consented

  retry_stuck-IsConsented : (t : FundedTables) → IsConsented t → IsConsented (retry_stuck e t)
  retry_stuck-IsConsented t v =
      carry_all-IsConsented (select_where (is_stuck t) t.proposals) t
        (select_where-All (is_stuck t) _ t.proposals (
          All-mono _ _ t.proposals (λ p f hit. rw f (ground arith))
            (first_self t.proposals v.apart)))
        v

  pub expire_proposals-IsConsented :
      (t : FundedTables) → IsConsented t → IsConsented (expire_proposals e t)
  unfolding expire_proposals
  expire_proposals-IsConsented t v = retry_stuck-IsConsented _ (
      carry_lapsed-IsConsented (select_where (is_lapsed e.base.now) t.proposals)
        (lapse e.base.now t)
        (select_where-All (is_lapsed e.base.now) _ t.proposals (
          All-mono _ _ t.proposals (λ p f hit. lapsed_agreed e.base.now p.id t.proposals p f hit)
            (first_self t.proposals v.apart)))
        (lapse-IsConsented e.base.now t v))
