-- ===== src/Inference/Signer/Safe.antt =====
-- The invariant of the journal that each part of services/signer/src/signer.ts keeps.
use grainlify_bounty_agent.Base.{
  ℕ, ◌≤◌, ◌<◌, ◌≡◌, refl, sym, subst, inl, inr, Bool, true, Option, none, some, arith, ok, String,
  text_eq, includes, truthy, Message, Result-cases, if_elim, positive_safe, ltb, leb, not,
  is_uuid_any_case,
}
use grainlify_bounty_agent.Budget.Governor.{lamports_to_micro_ceil}
use grainlify_bounty_agent.Budget.Governor.Exact.{lamports_to_micro_ceil_mono, positive_safe-pos}
use grainlify_bounty_agent.Inference.Journal.{
  PaymentRow, Journal, JournalError, committed_micro, Reservation, made, already_paid, over_ceiling,
  reserve, mark_confirmed, mark_failed_unsent, record_balance_proof,
}
use grainlify_bounty_agent.Inference.Journal.Sums.{
  IsValid, KeepsPayment, reserve-IsValid, mark_sent-IsValid, mark_confirmed-IsValid,
  mark_failed_unsent-IsValid, mark_error-IsValid,
}
use grainlify_bounty_agent.Inference.Signer.{
  SignerConfig, PayQuoteRequest, Clock, Rail, Transfer, Begun, usepod_pay_to_allowlist,
  solana_mainnet, fee_reserve_lamports, reserve_args, reserved_or_answered, is_expiring,
  with_amount, begin, build_failed, built, broadcast_ok, broadcast_failed, balance_proof,
  ProofResult,
}

-- A payment that the signer may make: to an allowlisted address, of a positive amount within the
-- maximum for one call.
pub record IsPayable (cfg : SignerConfig) (r : PaymentRow) : Type 0 where
  pub allowlisted : includes usepod_pay_to_allowlist r.pay_to ≡ true
  pub positive : 0 < r.amount_micro
  pub within_call : r.amount_micro ≤ cfg.max_per_call_micro

abbrev pub IsSafe : SignerConfig → Journal → Type 0
IsSafe cfg =
    IsValid cfg.lifetime_ceiling_micro
      (lamports_to_micro_ceil fee_reserve_lamports cfg.sol_usd_ceiling_price) (IsPayable cfg)

IsPayable-keeps :
    (cfg : SignerConfig) (f : PaymentRow → PaymentRow)
    → KeepsPayment f
    → (r : PaymentRow) → IsPayable cfg r
    → IsPayable cfg (f r)
IsPayable-keeps cfg f k r p = record {
  allowlisted = rw (k.pay_to r) p.allowlisted;
  positive = rw (k.amount r) p.positive;
  within_call = rw (k.amount r) p.within_call;
}

reserved_or_answered-journal :
    (address : String) (amount : ℕ) (x : Journal × Reservation)
    → (reserved_or_answered address amount x).0 ≡ x.0
reserved_or_answered-journal address amount (j, made id) = refl
reserved_or_answered-journal address amount (j, already_paid row) = refl
reserved_or_answered-journal address amount (j, over_ceiling after) = refl

module _ (cfg : SignerConfig) where
  with_amount-IsSafe :
      (c : Clock) (address : String) (req : PayQuoteRequest) (j : Journal) (o : Option ℕ)
      → includes usepod_pay_to_allowlist req.pay_to ≡ true
      → ((n : ℕ) → o ≡ some n → 0 < n)
      → IsSafe cfg j
      → IsSafe cfg (with_amount cfg c address req j o).0
  with_amount-IsSafe c address req j none listed pos v = v
  with_amount-IsSafe c address req j (some amount) listed pos v =
      if_elim (λ (x : Journal × Begun). IsSafe cfg x.0) (ltb cfg.max_per_call_micro amount) _ _
        (λ over. v)
        λ under.
          if_elim (λ (x : Journal × Begun). IsSafe cfg x.0) (is_expiring c (truthy req.expires_at))
            _ _ (λ late. v)
            λ in_time.
              subst (IsSafe cfg)
                (sym (
                  reserved_or_answered-journal address amount
                    (reserve j (reserve_args cfg req amount))))
                (reserve-IsValid cfg.lifetime_ceiling_micro
                  (lamports_to_micro_ceil fee_reserve_lamports cfg.sol_usd_ceiling_price)
                  (IsPayable cfg) j (reserve_args cfg req amount) (omega arith) refl
                  (record {
                    allowlisted = listed;
                    positive = pos amount refl;
                    within_call = ground arith;
                  })
                  v)

  pub begin-IsSafe :
      (c : Clock) (address : String) (req : PayQuoteRequest) (j : Journal)
      → IsSafe cfg j
      → IsSafe cfg (begin cfg c address req j).0
  unfolding begin
  begin-IsSafe c address req j v =
      if_elim P (not (is_uuid_any_case req.quote_id)) _ _ (λ a. v)
        λ _.
          if_elim P (not (text_eq req.network solana_mainnet)) _ _ (λ a. v)
            λ _.
              if_elim P (not (text_eq req.asset "USDC")) _ _ (λ a. v)
                λ _.
                  if_elim P (not (includes usepod_pay_to_allowlist req.pay_to)) _ _ (λ a. v)
                    λ listed.
                      with_amount-IsSafe c address req j (positive_safe req.amount_microunits)
                        (ground arith) (λ n e. positive_safe-pos req.amount_microunits n e) v
    where
      P : Journal × Begun → Type 0
      P x = IsSafe cfg x.0

  abbrev fee_reserve_micro : ℕ
  fee_reserve_micro = lamports_to_micro_ceil fee_reserve_lamports cfg.sol_usd_ceiling_price

  pub build_failed-IsSafe :
      (id : ℕ) (e : Message) (j : Journal) → IsSafe cfg j → IsSafe cfg (build_failed id e j).0
  unfolding build_failed
  build_failed-IsSafe id e j v = elim (Result-cases (mark_failed_unsent j id e)) [
    | inl (j', done) ↦ rw done (
        mark_failed_unsent-IsValid cfg.lifetime_ceiling_micro fee_reserve_micro (IsPayable cfg)
          (IsPayable-keeps cfg) j j' id e v done)
    | inr (thrown, threw) ↦ rw threw v
  ]

  pub built-IsSafe :
      (id : ℕ) (sig : String) (j j' : Journal)
      → IsSafe cfg j
      → built id sig j ≡ ok j'
      → IsSafe cfg j'
  unfolding built
  built-IsSafe id sig j j' =
      mark_sent-IsValid cfg.lifetime_ceiling_micro fee_reserve_micro (IsPayable cfg)
        (IsPayable-keeps cfg) j j' id sig

  pub broadcast_failed-IsSafe :
      (id : ℕ) (e : Message) (j : Journal) → IsSafe cfg j → IsSafe cfg (broadcast_failed id e j).0
  unfolding broadcast_failed
  broadcast_failed-IsSafe id e j =
      mark_error-IsValid cfg.lifetime_ceiling_micro fee_reserve_micro (IsPayable cfg)
        (IsPayable-keeps cfg) j id e

  pub broadcast_ok-IsSafe :
      (address : String) (show : JournalError → Message) (id amount : ℕ) (t : Transfer)
      (j : Journal)
      → t.fee_lamports ≤ fee_reserve_lamports
      → IsSafe cfg j
      → IsSafe cfg (broadcast_ok cfg address show id amount t j).0
  unfolding broadcast_ok broadcast_failed
  broadcast_ok-IsSafe address show id amount t j small v =
      elim (Result-cases
        (mark_confirmed j id (lamports_to_micro_ceil t.fee_lamports cfg.sol_usd_ceiling_price))) [
          | inl (j', done) ↦
              rw (done, broadcast_ok)
                (mark_confirmed-IsValid cfg.lifetime_ceiling_micro fee_reserve_micro (IsPayable cfg)
                  (IsPayable-keeps cfg) j j' id
                  (lamports_to_micro_ceil t.fee_lamports cfg.sol_usd_ceiling_price)
                  (lamports_to_micro_ceil_mono t.fee_lamports fee_reserve_lamports
                    cfg.sol_usd_ceiling_price small)
                  v done)
          | inr (thrown, threw) ↦
              rw (threw, broadcast_ok) (broadcast_failed-IsSafe id (show thrown) j v)
        ]

  record_balance_proof-IsSafe :
      (q : String) (j : Journal) → IsSafe cfg j → IsSafe cfg (record_balance_proof j q).0
  unfolding record_balance_proof committed_micro
  record_balance_proof-IsSafe q j v =
      if_elim (λ (x : Journal × Bool). IsSafe cfg x.0) (includes j.balance_proofs q) _ _ (λ old. v)
        λ new. record {
          keyed = v.keyed;
          quotes = v.quotes;
          capped = v.capped;
          reserves = v.reserves;
          rows = v.rows;
        }

  pub balance_proof-IsSafe :
      (rail : Rail) (q : String) (j : Journal)
      → IsSafe cfg j
      → IsSafe cfg (balance_proof cfg rail q j).0
  unfolding balance_proof
  balance_proof-IsSafe rail q j v =
      if_elim (λ (x : Journal × ProofResult). IsSafe cfg x.0) (not (is_uuid_any_case q)) _ _
        (λ a. v)
        λ _.
          if_elim (λ (x : Journal × ProofResult). IsSafe cfg x.0)
            (leb cfg.lifetime_ceiling_micro (committed_micro j)) _ _ (λ a. v)
            λ _. record_balance_proof-IsSafe q j v
