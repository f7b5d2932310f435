-- ===== src/Inference/Signer/Persists.antt =====
-- Facts about the journal that every part of services/signer/src/signer.ts keeps, because rows are
-- never deleted and a status never goes back to reserved.
use grainlify_bounty_agent.Base.{
  ℕ, ◌+◌, ◌≡◌, refl, subst, inl, inr, Bool, true, false, Option, none, some, List, [], ◌∷◌, ◌++◌,
  arith, ◌==◌, ok, String, text_eq, includes, truthy, Message, Result-cases, if_elim, Option-cases,
  positive_safe, ltb, leb, not, update_where, is_uuid_any_case,
}
use grainlify_bounty_agent.Budget.Governor.{lamports_to_micro_ceil}
use grainlify_bounty_agent.Inference.Journal.{
  PaymentRow, PaymentStatus, reserved, sent, confirmed, Journal, JournalError, committed_micro,
  Reservation, ReserveArgs, made, already_paid, over_ceiling, insert_row, reserve, by_quote, update,
  in_transition, is_status, set_sent, set_confirmed, set_failed_unsent, set_error, mark_sent,
  mark_confirmed, mark_failed_unsent, mark_error, record_balance_proof,
}
use grainlify_bounty_agent.Inference.Signer.{
  SignerConfig, PayQuoteRequest, Clock, Rail, Transfer, Begun, reserved_or_answered, with_amount,
  begin, build_failed, built, broadcast_ok, broadcast_failed, balance_proof, ProofResult,
  usepod_pay_to_allowlist, solana_mainnet, is_expiring, reserve_args,
}
use grainlify_bounty_agent.Inference.Signer.Ceiling.{
  Step, begins, fails_to_build, builds, broadcasts, loses, proves, Reach, here, next,
}

-- What a replay answers with.
pub record IsSameProof (r s : PaymentRow) : Type 0 where
  pub status : s.status ≡ r.status
  pub tx_signature : s.tx_signature ≡ r.tx_signature
  pub amount : s.amount_micro ≡ r.amount_micro
  pub fee : s.fee_micro ≡ r.fee_micro

-- An update that changes neither the id nor the quote, puts no row back to reserved, and leaves what a
-- confirmed row says of its payment.
pub record IsForward (p : PaymentRow → Bool) (f : PaymentRow → PaymentRow) : Type 0 where
  pub id : (r : PaymentRow) → (f r).id ≡ r.id
  pub quote : (r : PaymentRow) → (f r).quote_id ≡ r.quote_id
  pub status :
      (r : PaymentRow) → is_status reserved (f r).status ≡ true → is_status reserved r.status ≡ true
  pub settled :
      (r : PaymentRow) → p r ≡ true → is_status confirmed r.status ≡ true → IsSameProof r (f r)

unsettled :
    (from : PaymentStatus) (id : ℕ) (r : PaymentRow)
    → is_status confirmed from ≡ false
    → in_transition id from r ≡ true
    → ¬ (is_status confirmed r.status ≡ true)
unsettled from id r unpaid hit c = open_status from r.status unpaid (ground (arith, hit)) c
  where
    open_status :
        (from s : PaymentStatus)
        → is_status confirmed from ≡ false
        → is_status from s ≡ true
        → ¬ (is_status confirmed s ≡ true)
    open_status from s unpaid h c = ground (arith, unpaid, h, c)

-- A fact about a journal that every statement of the signer keeps.
pub record Persists (P : Journal → Type 0) : Type 0 where
  pub inserts : (j : Journal) (a : ReserveArgs) → P j → P (insert_row j a)
  pub updates :
      (j : Journal) (p : PaymentRow → Bool) (f : PaymentRow → PaymentRow)
      → IsForward p f
      → P j
      → P (record j { rows = update_where p f j.rows })
  pub signs : (j : Journal) (proofs : List String) → P j → P (record j { balance_proofs = proofs })

module _ (P : Journal → Type 0) (k : Persists P) where
  reserve-P : (j : Journal) (a : ReserveArgs) → P j → P (reserve j a).0
  unfolding reserve
  reserve-P j a h = elim (Option-cases (by_quote j a.quote_id)) [
    | inr (r, found) ↦ rw (found, reserve) h
    | inl absent ↦
        rw (absent, reserve)
          (if_elim (λ (x : Journal × Reservation). P x.0)
            (ltb a.ceiling_micro (committed_micro j + a.amount_micro + a.fee_reserve_micro)) _ _
            (λ over. h) (λ under. k.inserts j a h))
  ]

  update-P :
      (j j' : Journal) (id : ℕ) (f : PaymentRow → PaymentRow) (from : PaymentStatus)
      → IsForward (in_transition id from) f
      → update j id f from ≡ ok j'
      → P j
      → P j'
  unfolding update
  update-P j j' id f from forward e h =
      subst P (ground arith) (k.updates j (in_transition id from) f forward h)

  mark_error-P : (j : Journal) (id : ℕ) (e : Message) → P j → P (mark_error j id e)
  unfolding mark_error
  mark_error-P j id e h =
      k.updates j (λ r. r.id == id) (set_error e)
        (record {
          id = λ r. refl;
          quote = λ r. refl;
          status = λ r s. s;
          settled =
              λ r hit c. record { status = refl; tx_signature = refl; amount = refl; fee = refl };
        })
        h

  answered-P :
      (address : String) (amount : ℕ) (x : Journal × Reservation)
      → P x.0
      → P (reserved_or_answered address amount x).0
  answered-P address amount (j, made id) h = h
  answered-P address amount (j, already_paid r) h = h
  answered-P address amount (j, over_ceiling n) h = h

  abbrev Q : Journal × Begun → Type 0
  Q x = P x.0

  module _ (cfg : SignerConfig) where
    with_amount-P :
        (c : Clock) (address : String) (req : PayQuoteRequest) (j : Journal) (o : Option ℕ)
        → P j
        → P (with_amount cfg c address req j o).0
    with_amount-P c address req j none h = h
    with_amount-P c address req j (some amount) h =
        if_elim Q (ltb cfg.max_per_call_micro amount) _ _ (λ a. h)
          λ _.
            if_elim Q (is_expiring c (truthy req.expires_at)) _ _ (λ a. h)
              λ _. answered-P address amount _ (reserve-P j (reserve_args cfg req amount) h)

    begin-P :
        (c : Clock) (address : String) (req : PayQuoteRequest) (j : Journal)
        → P j
        → P (begin cfg c address req j).0
    unfolding begin
    begin-P c address req j h =
        if_elim Q (not (is_uuid_any_case req.quote_id)) _ _ (λ a. h)
          λ _.
            if_elim Q (not (text_eq req.network solana_mainnet)) _ _ (λ a. h)
              λ _.
                if_elim Q (not (text_eq req.asset "USDC")) _ _ (λ a. h)
                  λ _.
                    if_elim Q (not (includes usepod_pay_to_allowlist req.pay_to)) _ _ (λ a. h)
                      λ _. with_amount-P c address req j (positive_safe req.amount_microunits) h

    build_failed-P : (id : ℕ) (e : Message) (j : Journal) → P j → P (build_failed id e j).0
    unfolding build_failed mark_failed_unsent
    build_failed-P id e j h = elim (Result-cases (mark_failed_unsent j id e)) [
      | inl (j', done) ↦
          rw (done, build_failed)
            (update-P j j' id (set_failed_unsent e) reserved
              (record {
                id = λ r. refl;
                quote = λ r. refl;
                status = λ r s. absurd (cc);
                settled = λ r hit c. absurd (unsettled reserved id r refl hit c);
              })
              done h)
      | inr (thrown, threw) ↦ rw (threw, build_failed) h
    ]

    pub built-P : (id : ℕ) (sig : String) (j j' : Journal) → built id sig j ≡ ok j' → P j → P j'
    unfolding built mark_sent
    built-P id sig j j' e =
        update-P j j' id (set_sent sig) reserved
          (record {
            id = λ r. refl;
            quote = λ r. refl;
            status = λ r s. absurd (cc);
            settled = λ r hit c. absurd (unsettled reserved id r refl hit c);
          })
          (ground arith)

    broadcast_ok-P :
        (address : String) (show : JournalError → Message) (id amount : ℕ) (t : Transfer)
        (j : Journal)
        → P j
        → P (broadcast_ok cfg address show id amount t j).0
    unfolding broadcast_ok mark_confirmed
    broadcast_ok-P address show id amount t j h =
        elim (Result-cases
          (mark_confirmed j id (lamports_to_micro_ceil t.fee_lamports cfg.sol_usd_ceiling_price))) [
            | inl (j', done) ↦
                rw (done, broadcast_ok)
                  (update-P j j' id
                    (set_confirmed
                      (lamports_to_micro_ceil t.fee_lamports cfg.sol_usd_ceiling_price))
                    sent
                    (record {
                      id = λ r. refl;
                      quote = λ r. refl;
                      status = λ r s. absurd (cc);
                      settled = λ r hit c. absurd (unsettled sent id r refl hit c);
                    })
                    done h)
            | inr (thrown, threw) ↦ rw (threw, broadcast_ok) (mark_error-P j id (show thrown) h)
          ]

    balance_proof-P :
        (rail : Rail) (q : String) (j : Journal) → P j → P (balance_proof cfg rail q j).0
    unfolding balance_proof record_balance_proof
    balance_proof-P rail q j h =
        if_elim (λ (x : Journal × ProofResult). P x.0) (not (is_uuid_any_case q)) _ _ (λ a. h)
          λ _.
            if_elim (λ (x : Journal × ProofResult). P x.0)
              (leb cfg.lifetime_ceiling_micro (committed_micro j)) _ _ (λ a. h)
              λ _.
                if_elim (λ (x : Journal × Bool). P x.0) (includes j.balance_proofs q) _ _ (λ a. h)
                  (λ _. k.signs j (j.balance_proofs ++ q ∷ []) h)

    Step-P : {i j : Journal} → Step cfg i j → P i → P j
    unfolding broadcast_failed
    Step-P (begins c address req j) h = begin-P c address req j h
    Step-P (fails_to_build id e j) h = build_failed-P id e j h
    Step-P (builds id sig j j' e) h = built-P id sig j j' e h
    Step-P (broadcasts address show id amount t j small) h =
        broadcast_ok-P address show id amount t j h
    Step-P (loses id e j) h = mark_error-P j id e h
    Step-P (proves rail q j) h = balance_proof-P rail q j h

    pub Reach-P : {i j : Journal} → Reach cfg i j → P i → P j
    Reach-P here h = h
    Reach-P (next r s) h = Step-P s (Reach-P r h)
